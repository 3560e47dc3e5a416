-- ===== src/MarketBook/Updates.antt =====
-- trading/strategy/market_order_book.cpp: a market update on the client's book, and the best prices.
use trade_system.Common.{
  ℕ, zero, suc, ◌+◌, ◌%◌, ◌^◌, Bool, true, false, not, ◌&&◌, ◌||◌, ◌==◌, ltb, length, if◌then◌else◌,
  List, [], ◌∷◌, Option, none, some, Outcome, done, out_of_fuel, deref, ◌>>=◌,
}
use trade_system.Common.Int.{ℤ}
use trade_system.Types.{is_buy, is_sell, side_eq, price_invalid, qty_invalid, max_order_ids}
use trade_system.Messages.{MarketUpdate, MarketUpdateType}
use trade_system.MemPool
use trade_system.MemPool.{MemPool}
use trade_system.Intrusive.{ptr_eq}
use trade_system.Matcher.Book.{price_eq}
use trade_system.Matcher.Requests.{not_positive}
use trade_system.MarketBook.{
  MarketOrder, MarketOrdersAtPrice, MarketOrderBook, PriceEntry, book_qty_invalid, order_at,
  level_at, get_orders_at_price,
}
use trade_system.MarketBook.Orders.{add_order, remove_order}

-- The loop of `updateBBO` over the orders behind the first, with the sum so far.
unfoldable pub add_qtys : ℕ → MemPool MarketOrder → ℕ → Option ℕ → ℕ → Outcome ℕ
add_qtys zero p first order sum = out_of_fuel
add_qtys (suc fuel) p first order sum = if ptr_eq order first then done sum else do
  i ← deref order
  o ← deref (p.block i)
  add_qtys fuel p first o.next_order ((sum + o.qty) % 2 ^ 64)

-- One side of `updateBBO`.
unfoldable pub best_quote : MarketOrderBook → Option ℕ → Outcome (ℤ × ℕ)
unfolding add_qtys
best_quote b none = done (price_invalid, book_qty_invalid)
best_quote b (some best) = do
  l ← level_at b best
  first ← deref l.first_mkt_order
  o ← order_at b first
  sum ← add_qtys (suc b.order_pool.capacity) b.order_pool first o.next_order o.qty
  done (l.price, sum)

-- `updateBBO(true, true)`
unfoldable pub update_bbo : MarketOrderBook → Outcome MarketOrderBook
unfolding best_quote
update_bbo b = do
  bid ← best_quote b b.bids_by_price
  ask ← best_quote b b.asks_by_price
  done (record b {
    bbo = record { bid_price = bid.0; ask_price = ask.0; bid_qty = bid.1; ask_qty = ask.1 };
  })

-- `liveOrders`, over the ids of the set.
unfoldable pub live_orders : MarketOrderBook → List ℕ → Outcome (List MarketUpdate)
live_orders b [] = done []
live_orders b (id ∷ ids) = do
  i ← deref (b.oid_to_order id)
  o ← order_at b i
  rest ← live_orders b ids
  done (
      record {
        type = MarketUpdateType.add;
        order_id = o.order_id;
        ticker_id = b.ticker_id;
        side = o.side;
        price = o.price;
        qty = o.qty;
        priority = o.priority;
      }
      ∷ rest)

-- CLEAR releases the orders with the ids from `id` on, `n` ids, and then the levels of the map.
unfoldable pub release_orders :
    (ℕ → Option ℕ) → ℕ → ℕ → MemPool MarketOrder → Outcome (MemPool MarketOrder)
release_orders index id zero p = done p
release_orders index id (suc n) p = elim (index id) [
  | none ↦ release_orders index (suc id) n p
  | some i ↦ MemPool.deallocate p i >>= release_orders index (suc id) n
]

unfoldable pub release_levels :
    List PriceEntry → MemPool MarketOrdersAtPrice → Outcome (MemPool MarketOrdersAtPrice)
release_levels [] p = done p
release_levels (e ∷ m) p = MemPool.deallocate p e.level >>= release_levels m

-- `case CLEAR`
unfoldable pub clear : MarketOrderBook → Outcome MarketOrderBook
unfolding release_orders release_levels
clear b = do
  orders ← release_orders b.oid_to_order 0 max_order_ids b.order_pool
  levels ← release_levels b.price_orders_at_price b.orders_at_price_pool
  done (record b {
    oid_to_order = λ i. none;
    live_order_ids = [];
    orders_at_price_pool = levels;
    bids_by_price = none;
    asks_by_price = none;
    price_orders_at_price = [];
    order_pool = orders;
  })

abbrev pub is_null : Option ℕ → Bool
is_null none = true
is_null (some i) = false

-- What an ADD must be.
abbrev pub can_add : MarketOrderBook → MarketUpdate → Bool
can_add b u =
    is_null (b.oid_to_order u.order_id)
    && not (length b.order_pool.free == 0)
    && (is_buy u.side || is_sell u.side)
    && not (not_positive u.price)
    && not (price_eq u.price price_invalid)
    && not (u.qty == 0)
    && not (u.qty == qty_invalid)
    && not
        (is_null (get_orders_at_price b u.price u.side) && length b.orders_at_price_pool.free == 0)

-- What a MODIFY (`modify` is set) or a CANCEL of an order must be.
abbrev pub can_change : Bool → MarketOrder → MarketUpdate → Bool
can_change modify o u =
    side_eq o.side u.side
    && price_eq o.price u.price
    && not (modify && (u.qty == 0 || u.qty == qty_invalid))

abbrev pub is_known_id : MarketUpdate → Bool
is_known_id u = not (u.order_id == 0) && ltb u.order_id max_order_ids

-- `nullptr` fails the test; any other pointer is followed.
abbrev pub check_existing : MarketOrderBook → Bool → MarketUpdate → Option ℕ → Outcome Bool
check_existing b modify u none = done false
check_existing b modify u (some i) = order_at b i >>= λ o. done (can_change modify o u)

-- The checks at the start of `onMarketUpdate`, on the type of the update.
unfoldable pub is_legal : MarketOrderBook → MarketUpdate → MarketUpdateType → Outcome Bool
is_legal b u MarketUpdateType.add = done (is_known_id u && can_add b u)
is_legal b u MarketUpdateType.modify =
    if is_known_id u then check_existing b true u (b.oid_to_order u.order_id) else done false
is_legal b u MarketUpdateType.cancel =
    if is_known_id u then check_existing b false u (b.oid_to_order u.order_id) else done false
is_legal b u _ = done true

-- The order of an ADD.
abbrev pub resting : MarketUpdate → MarketOrder
resting u = record {
  order_id = u.order_id;
  side = u.side;
  price = u.price;
  qty = u.qty;
  priority = u.priority;
  prev_order = none;
  next_order = none;
}

-- The `switch` on the type of a legal update.
unfoldable pub apply_update :
    MarketOrderBook → MarketUpdate → MarketUpdateType → Outcome MarketOrderBook
unfolding clear
apply_update b u MarketUpdateType.add = do
  (i, pool) ← deref (MemPool.allocate b.order_pool (resting u))
  add_order (record b { order_pool = pool }) i
apply_update b u MarketUpdateType.modify = do
  i ← deref (b.oid_to_order u.order_id)
  o ← order_at b i
  done (record b { order_pool = MemPool.store b.order_pool i (record o { qty = u.qty }) })
apply_update b u MarketUpdateType.cancel = do
  i ← deref (b.oid_to_order u.order_id)
  remove_order b i
apply_update b u MarketUpdateType.clear = clear b
apply_update b u _ = done b

-- The calls of the trade engine: `onTradeUpdate` and `onOrderBookUpdate`.
pub data Call : Type 0 where
  trade_update book_update : Call

abbrev pub call : MarketOrderBook → Call → List Call
call b c = if b.has_engine then c ∷ [] else []

abbrev pub is_trade : MarketUpdateType → Bool
is_trade MarketUpdateType.trade = true
is_trade _ = false

-- `onMarketUpdate` past its checks.
unfoldable pub take_update :
    MarketOrderBook → MarketUpdate → Outcome (Bool × MarketOrderBook × List Call)
unfolding apply_update update_bbo
take_update b u =
    if is_trade u.type
    then done (true, b, call b trade_update)
    else (apply_update b u u.type >>= update_bbo >>= λ b₁. done (true, b₁, call b₁ book_update))

-- `onMarketUpdate`: its answer, the book and the calls.
unfoldable pub on_market_update :
    MarketOrderBook → MarketUpdate → Outcome (Bool × MarketOrderBook × List Call)
unfolding is_legal take_update
on_market_update b u =
    if not (u.ticker_id == b.ticker_id)
    then done (false, b, [])
    else (is_legal b u u.type >>= λ legal. if legal then take_update b u else done (false, b, []))
