-- ===== src/Matcher/Fill.antt =====
-- exchange/matcher/me_order_book.cpp: `match` and `checkForMatch`.
use trade_system.Common.{
  ℕ, zero, suc, ◌-◌, Bool, true, false, not, ◌==◌, if◌then◌else◌, min, Option, none, some, Outcome,
  done, out_of_fuel, deref, ◌>>=◌,
}
use trade_system.Common.Int.{ℤ, pos, ltb_ℤ}
use trade_system.Types.{Side, is_buy, is_sell, order_id_invalid, priority_invalid}
use trade_system.Messages.{
  ClientResponse, ClientResponseType, RejectReason, MarketUpdate, MarketUpdateType,
}
use trade_system.Matcher.Book.{
  Book, Order, order_at, level_at, put_order, emit_response, emit_market,
}
use trade_system.Matcher.Levels.{best_of}
use trade_system.Matcher.Links.{remove_order}

-- The incoming order, as `match` and `checkForMatch` are told of it.
pub record Taker : Type 0 where
  pub ticker_id : ℕ
  pub client_id : ℕ
  pub side : Side
  pub client_order_id : ℕ
  pub market_order_id : ℕ

-- The FILLED response to the incoming order, and to the owner of the resting one.
abbrev pub taker_fill : Taker → Order → ℕ → ℕ → ClientResponse
taker_fill t o fill_qty leaves_qty = record {
  type = ClientResponseType.filled;
  client_id = t.client_id;
  ticker_id = t.ticker_id;
  client_order_id = t.client_order_id;
  market_order_id = t.market_order_id;
  side = t.side;
  price = o.price;
  exec_qty = fill_qty;
  leaves_qty = leaves_qty;
  reject_reason = RejectReason.none_;
  response_id = 0;
  position = pos 0;
}

abbrev pub maker_fill : Taker → Order → ℕ → ℕ → ClientResponse
maker_fill t o fill_qty left = record {
  type = ClientResponseType.filled;
  client_id = o.client_id;
  ticker_id = t.ticker_id;
  client_order_id = o.client_order_id;
  market_order_id = o.market_order_id;
  side = o.side;
  price = o.price;
  exec_qty = fill_qty;
  leaves_qty = left;
  reject_reason = RejectReason.none_;
  response_id = 0;
  position = pos 0;
}

abbrev pub trade_update : Taker → Order → ℕ → MarketUpdate
trade_update t o fill_qty = record {
  type = MarketUpdateType.trade;
  order_id = order_id_invalid;
  ticker_id = t.ticker_id;
  side = t.side;
  price = o.price;
  qty = fill_qty;
  priority = priority_invalid;
}

-- The resting order is used up, or goes on with what is left.
abbrev pub gone_update : Taker → Order → MarketUpdate
gone_update t o = record {
  type = MarketUpdateType.cancel;
  order_id = o.market_order_id;
  ticker_id = t.ticker_id;
  side = o.side;
  price = o.price;
  qty = o.qty;
  priority = priority_invalid;
}

abbrev pub modify_update : Taker → Order → ℕ → MarketUpdate
modify_update t o left = record {
  type = MarketUpdateType.modify;
  order_id = o.market_order_id;
  ticker_id = t.ticker_id;
  side = o.side;
  price = o.price;
  qty = left;
  priority = o.priority;
}

-- The fill and its three messages, before the resting order is looked at again.
unfoldable pub fill_order : Book → Taker → ℕ → Order → ℕ → Book
unfolding emit_response emit_market
fill_order b t i o leaves_qty =
    let fill_qty = min leaves_qty o.qty in
    let b₁ = put_order b i (record o { qty = o.qty - fill_qty }) in
    let b₂ = emit_response b₁ (taker_fill t o fill_qty (leaves_qty - fill_qty)) in
    let b₃ = emit_response b₂ (maker_fill t o fill_qty (o.qty - fill_qty)) in
    emit_market b₃ (trade_update t o fill_qty)

-- `match`: the new book, and what `*leaves_qty` becomes.
unfoldable pub match_order : Book → Taker → ℕ → ℕ → Outcome (Book × ℕ)
unfolding fill_order
match_order b t i leaves_qty = do
  o ← order_at b i
  let fill_qty = min leaves_qty o.qty
  let b₁ = fill_order b t i o leaves_qty
  b₂ ←
      (if o.qty - fill_qty == 0
        then remove_order (emit_market b₁ (gone_update t o)) i
        else done (emit_market b₁ (modify_update t o (o.qty - fill_qty))))
  done (b₂, leaves_qty - fill_qty)

-- The best resting order of the other side; `none` where that side is empty.
unfoldable pub best_opposite : Book → Bool → Outcome (Option ℕ)
best_opposite b buy = elim (best_of b (not buy)) [
  | none ↦ done none
  | some best ↦ do l ← level_at b best; first ← deref l.first_order; done (some first)
]

-- The limit of the incoming order is worse than the resting price.
abbrev pub outside : Bool → ℤ → ℤ → Bool
outside buy limit resting = if buy then ltb_ℤ limit resting else ltb_ℤ resting limit

-- The `while` of `checkForMatch`. A unit of fuel is a round.
unfoldable pub match_loop : ℕ → Book → Taker → Bool → ℤ → ℕ → Outcome (Book × ℕ)
match_loop zero b t buy price leaves_qty = out_of_fuel
match_loop (suc fuel) b t buy price leaves_qty =
    let continue = λ (r : Book × ℕ). match_loop fuel r.0 t buy price r.1 in
    if leaves_qty == 0 then done (b, leaves_qty) else (do
      best ← best_opposite b buy
      elim best [
        | none ↦ done (b, leaves_qty)
        | some i ↦ do
          o ← order_at b i
          if outside buy price o.price
              then done (b, leaves_qty)
              else (match_order b t i leaves_qty >>= continue)
      ])

-- `checkForMatch`, with more fuel than the pool has orders.
unfoldable pub check_for_match : Book → Taker → ℤ → ℕ → Outcome (Book × ℕ)
check_for_match b t price qty =
    if is_buy t.side
    then match_loop (suc b.order_pool.capacity) b t true price qty
    else if is_sell t.side
    then match_loop (suc b.order_pool.capacity) b t false price qty
    else done (b, qty)
