-- ===== src/Lib.antt =====
-- A model of an electronic trading system: an exchange, which matches the orders of its clients
-- and publishes what happens, and the parts that its two sides share.
--
-- The parts, and the files that model them:
--   * common/mem_pool.h: MemPool. A pool of slots with a free list; a pointer to an object is the
--     index of its slot, and following a slot that is not in use is a fault. Pointers says what a
--     release does with an address.
--   * exchange/matcher/me_order.h and me_order_book: Matcher. Orders and price levels lie in pools
--     and are threaded in rings by their prev and next pointers. Ring and Intrusive say what the
--     pointer operations do to such a ring whatever its nodes are, Matcher/Book holds the state,
--     Matcher/Levels, Links, Fill and Requests the functions of the class under their own names in
--     snake case (removeOrder is `remove_order`). Matcher/Shape says which lists of levels and
--     orders the pointers stand for, and Matcher/Spec what matching means on such lists:
--     Contents and BestOrder connect the two, Loop proves that the loop does just that, and Trades
--     what follows for quantities and prices.
--   * common/lf_queue.h: LfQueue. The ring of slots between two threads; each call is one step,
--     so that every interleaving of the two sides is a sequence of these steps. The memory orders
--     that make the calls atomic to one another are not modelled.
--   * exchange/order_server/client_request.h, client_response.h, market_data/market_update.h and
--     common/types.h: Messages and Types.
--   * common/order_protocol.h and common/market_protocol.h: Wire. The bytes of each message.
--   * exchange/matcher/matching_engine.h: Engine. It takes a request of the queue that the
--     sequencer fills, runs it on a book, and sends what the book emits through two queues.
--   * exchange/order_server/fifo_sequencer.h: Sequencer.
--   * common/tcp_socket: Tcp. The two buffers of a connection; what the kernel answers and the receive
--     callback are parameters, and OrderGateway/Receiving takes the callbacks of the gateway and of the server.
--   * exchange/order_server/order_server: OrderServer. It reads the frames of the connections, checks
--     them and puts their requests into the sequencer, and sends the responses of the engine.
--   * trading/order_gw/order_gateway: OrderGateway. The client's end of such a connection; its
--     EndToEnd joins the two ends.
--   * common/mcast_socket: Multicast. What the kernel answers is a parameter; Datagrams says what
--     becomes of the frames.
--   * exchange/market_data/market_data_publisher.cpp: Publisher. The updates of the engine become
--     numbered increments for the multicast socket and for the snapshot synthesizer.
--   * trading/market_data/market_data_consumer: Consumer. The client's end: live increments go into
--     the queue of the trade engine, after a gap a whole batch that Recovery builds does.
--   * trading/market_data/market_recovery.h and common/book_hash.h: Recovery. A client that missed
--     market data puts a snapshot and the updates after it together.
--   * exchange/market_data/snapshot_synthesizer: Snapshot. The live orders as the published updates
--     tell them, and the frames of a snapshot.
--   * trading/strategy/risk_manager.h: Risk. Reservations and pending quantities.
--     Limits: the limits that a reservation keeps.
--   * trading/strategy/trade_engine and position_keeper.h: TradeEngine. It admits the requests of a
--     strategy (Admission) and accounts for the responses (Responses).
--   * trading/strategy/market_order.h and market_order_book: MarketBook. The book that a client keeps:
--     Levels and Orders thread the pointers, Updates checks and applies a market update; by Mirror,
--     Leaving, Entering and Adding it is a book of the exchange in other clothes.
--   * trading/strategy/order_manager and om_order.h: OrderManager. The order that a strategy keeps
--     on each side of a ticker; whether the trade engine takes a request is a parameter.
--
-- A function that can fail an ASSERT or follow a bad pointer gives an `Outcome`. Unsigned fields
-- are numbers, signed ones integers. The wrap-around is written out for the numbers and quantities that
-- the code decides by; counters that are only reported are taken not to reach 2^64, and prices and
-- positions not to overflow their 64 bits. A loop that is not over
-- a list runs on fuel: the matching loop gets one unit more than the order pool has slots, since
-- a round that goes on releases an order or uses up the incoming one, and the search for a price
-- level gets one unit more than the level pool has slots, since it walks once round a ring of levels.
--
-- Not modelled: the making of sockets and their polling, threads and their start and stop, logging,
-- time and measurement, configuration, the audit journal, functions that only print, the order
-- book on unordered maps, which the exchange does not link, the example programs, and the
-- strategies with their features and their prices in doubles. Profit and loss, which are doubles,
-- come in as the answers of the two tests on them.
pub mod Tcp
pub mod OrderServer
pub mod OrderGateway
pub mod TradeEngine
pub mod Multicast
pub mod Publisher
pub mod Consumer
pub mod MarketBook
pub mod Common
pub mod Types
pub mod Messages
pub mod MemPool
pub mod Ring
pub mod Intrusive
pub mod Matcher
pub mod LfQueue
pub mod Wire
pub mod Engine
pub mod Sequencer
pub mod Recovery
pub mod Risk
pub mod OrderManager
pub mod Snapshot
