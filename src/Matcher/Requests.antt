-- ===== src/Matcher/Requests.antt =====
-- exchange/matcher/me_order_book.cpp: `add`, `cancel` and `query`.
use trade_system.Common.{
  ℕ, ◌+◌, ◌%◌, ◌^◌, Bool, true, false, not, ◌&&◌, ◌||◌, ◌==◌, ltb, leb, if◌then◌else◌, Option, none,
  some, Outcome, done, deref, ◌>>=◌,
}
use trade_system.Common.Int.{ℤ, pos, pos_part}
use trade_system.Types.{
  Side, is_buy, is_sell, max_num_clients, max_order_ids, int32_max, order_id_invalid, price_invalid,
  qty_invalid,
}
use trade_system.Messages.{
  ClientResponse, ClientResponseType, RejectReason, MarketUpdate, MarketUpdateType,
}
use trade_system.MemPool
use trade_system.MemPool.{MemPool, available}
use trade_system.Matcher.Book.{
  Book, Order, order_at, get_orders_at_price, emit_response, emit_market, price_eq, update₂,
}
use trade_system.Matcher.Levels.{get_next_priority}
use trade_system.Matcher.Links.{add_order, remove_order}
use trade_system.Matcher.Fill.{Taker, check_for_match}

abbrev pub is_none {ℓ} : {A : Type ℓ} → Option A → Bool
is_none none = true
is_none (some _) = false

-- `price <= 0`
abbrev pub not_positive : ℤ → Bool
not_positive p = pos_part p == 0

-- The checks at the head of `add`, in their order.
unfoldable pub add_reason : Book → ℕ → ℕ → ℕ → Side → ℤ → ℕ → RejectReason
add_reason b client oid ticker side price qty =
    if leb max_num_clients client
      || not (ticker == b.ticker_id)
      || oid == 0
      || leb max_order_ids oid
    then RejectReason.invalid_id
    else if not (is_buy side) && not (is_sell side)
    then RejectReason.invalid_side
    else if not_positive price || price_eq price price_invalid
    then RejectReason.invalid_price
    else if qty == 0 || qty == qty_invalid || ltb int32_max qty
    then RejectReason.invalid_qty
    else if b.used_client_order_ids client oid
    then RejectReason.duplicate_id
    else if available b.order_pool == 0
        || leb max_order_ids b.next_market_order_id
        || (is_none (get_orders_at_price b price side) && available b.orders_at_price_pool == 0)
    then RejectReason.capacity
    else RejectReason.none_

abbrev pub is_admitted : RejectReason → Bool
is_admitted RejectReason.none_ = true
is_admitted _ = false

abbrev pub add_rejection : ℕ → ℕ → ℕ → Side → ℤ → RejectReason → ClientResponse
add_rejection client oid ticker side price reason = record {
  type = ClientResponseType.rejected;
  client_id = client;
  ticker_id = ticker;
  client_order_id = oid;
  market_order_id = order_id_invalid;
  side = side;
  price = price;
  exec_qty = 0;
  leaves_qty = 0;
  reject_reason = reason;
  response_id = 0;
  position = pos 0;
}

abbrev pub acceptance : Taker → ℤ → ℕ → ClientResponse
acceptance t price qty = record {
  type = ClientResponseType.accepted;
  client_id = t.client_id;
  ticker_id = t.ticker_id;
  client_order_id = t.client_order_id;
  market_order_id = t.market_order_id;
  side = t.side;
  price = price;
  exec_qty = 0;
  leaves_qty = qty;
  reject_reason = RejectReason.none_;
  response_id = 0;
  position = pos 0;
}

abbrev pub add_update : Taker → ℤ → ℕ → ℕ → MarketUpdate
add_update t price qty priority = record {
  type = MarketUpdateType.add;
  order_id = t.market_order_id;
  ticker_id = t.ticker_id;
  side = t.side;
  price = price;
  qty = qty;
  priority = priority;
}

-- What is left after matching goes into the book.
unfoldable pub rest_order : Book → Taker → ℤ → ℕ → Outcome Book
rest_order b t price leaves_qty = do
  priority ← get_next_priority b price t.side
  (i, pool) ← deref (
      MemPool.allocate b.order_pool (record {
        ticker_id = t.ticker_id;
        client_id = t.client_id;
        client_order_id = t.client_order_id;
        market_order_id = t.market_order_id;
        side = t.side;
        price = price;
        qty = leaves_qty;
        priority = priority;
        prev_order = none;
        next_order = none;
      }))
  b₁ ← add_order (record b { order_pool = pool }) i
  done (emit_market b₁ (add_update t price leaves_qty priority))

-- An order that passed the checks: its id is used up, it is accepted and numbered.
unfoldable pub accept_order : Book → Taker → ℤ → ℕ → Book
unfolding emit_response
accept_order b t price qty =
    emit_response
      (record b {
        used_client_order_ids = update₂ b.used_client_order_ids t.client_id t.client_order_id true;
        next_market_order_id = (b.next_market_order_id + 1) % 2 ^ 64;
      })
      (acceptance t price qty)

-- `add`
unfoldable pub add : Book → ℕ → ℕ → ℕ → Side → ℤ → ℕ → Outcome Book
unfolding accept_order
add b client oid ticker side price qty =
    let reason = add_reason b client oid ticker side price qty in
    let t : Taker = record {
      ticker_id = ticker;
      client_id = client;
      side = side;
      client_order_id = oid;
      market_order_id = b.next_market_order_id;
    } in
    if is_admitted reason
    then (do
      (b₁, leaves_qty) ← check_for_match (accept_order b t price qty) t price qty
      if leaves_qty == 0 then done b₁ else rest_order b₁ t price leaves_qty)
    else done (emit_response b (add_rejection client oid ticker side price reason))

-- The order that `cancel` is about.
unfoldable pub find_cancelable : Book → ℕ → ℕ → ℕ → Option ℕ
find_cancelable b client oid ticker =
    if ltb client max_num_clients && ticker == b.ticker_id
    then b.cid_oid_to_order client oid
    else none

abbrev pub cancel_rejection : ℕ → ℕ → ℕ → ClientResponse
cancel_rejection client oid ticker = record {
  type = ClientResponseType.cancel_rejected;
  client_id = client;
  ticker_id = ticker;
  client_order_id = oid;
  market_order_id = order_id_invalid;
  side = Side.invalid;
  price = price_invalid;
  exec_qty = 0;
  leaves_qty = 0;
  reject_reason = RejectReason.invalid_id;
  response_id = 0;
  position = pos 0;
}

abbrev pub cancellation : ℕ → ℕ → ℕ → Order → ClientResponse
cancellation client oid ticker o = record {
  type = ClientResponseType.canceled;
  client_id = client;
  ticker_id = ticker;
  client_order_id = oid;
  market_order_id = o.market_order_id;
  side = o.side;
  price = o.price;
  exec_qty = qty_invalid;
  leaves_qty = o.qty;
  reject_reason = RejectReason.none_;
  response_id = 0;
  position = pos 0;
}

abbrev pub cancel_update : ℕ → Order → MarketUpdate
cancel_update ticker o = record {
  type = MarketUpdateType.cancel;
  order_id = o.market_order_id;
  ticker_id = ticker;
  side = o.side;
  price = o.price;
  qty = 0;
  priority = o.priority;
}

-- `cancel`
unfoldable pub cancel : Book → ℕ → ℕ → ℕ → Outcome Book
unfolding find_cancelable
cancel b client oid ticker = elim (find_cancelable b client oid ticker) [
  | none ↦ done (emit_response b (cancel_rejection client oid ticker))
  | some i ↦ do
    o ← order_at b i
    b₁ ← remove_order b i
    let b₂ = emit_market b₁ (cancel_update ticker o)
    done (emit_response b₂ (cancellation client oid ticker o))
]

-- The answers of `query`: the account, an unknown order, and a known one.
abbrev pub account_state : ℕ → ℕ → ClientResponse
account_state client ticker = record {
  type = ClientResponseType.state;
  client_id = client;
  ticker_id = ticker;
  client_order_id = 0;
  market_order_id = order_id_invalid;
  side = Side.invalid;
  price = price_invalid;
  exec_qty = 0;
  leaves_qty = 0;
  reject_reason = RejectReason.none_;
  response_id = 0;
  position = pos 0;
}

abbrev pub query_rejection : ℕ → ℕ → ℕ → ClientResponse
query_rejection client oid ticker = record {
  type = ClientResponseType.rejected;
  client_id = client;
  ticker_id = ticker;
  client_order_id = oid;
  market_order_id = order_id_invalid;
  side = Side.invalid;
  price = price_invalid;
  exec_qty = 0;
  leaves_qty = 0;
  reject_reason = RejectReason.invalid_id;
  response_id = 0;
  position = pos 0;
}

abbrev pub is_canceled : ClientResponseType → Bool
is_canceled ClientResponseType.canceled = true
is_canceled _ = false

abbrev pub order_state : ClientResponse → ClientResponse
order_state r = record r {
  leaves_qty = if is_canceled r.type then 0 else r.leaves_qty;
  type = ClientResponseType.state;
  exec_qty = 0;
}

-- `query`
unfoldable pub query : Book → ℕ → ℕ → Book
unfolding emit_response
query b client oid =
    if leb max_num_clients client
    then b
    else if oid == 0
    then emit_response b (account_state client b.ticker_id)
    else elim (b.last_order_response client oid) [
      | none ↦ emit_response b (query_rejection client oid b.ticker_id)
      | some r ↦ emit_response b (order_state r)
    ]
