-- ===== src/OrderManager.antt =====
-- trading/strategy/om_order.h, order_manager.h and order_manager.cpp: the one order that a strategy
-- keeps on each side of each ticker. Whether the trade engine takes a request is the answer of
-- `send`, a parameter here: it is the engine's admission, which keeps its own state.
pub mod States
mod Tests
use trade_system.Common.{
  ℕ, ◌+◌, ◌%◌, ◌^◌, ◌==◌, ◌&&◌, not, ltb, leb, if◌then◌else◌, Bool, true, false, List, [], ◌∷◌,
  ◌++◌, update,
}
use trade_system.Common.Int.{ℤ}
use trade_system.Types.{
  Side, side_eq, order_id_invalid, ticker_id_invalid, price_invalid, qty_invalid, max_tickers,
}
use trade_system.Messages.{ClientRequest, ClientRequestType, ClientResponse, ClientResponseType}
use trade_system.Matcher.Book.{price_eq}

-- `OMOrderState`
pub data OrderState : Type 0 where
  invalid pending_new live pending_cancel dead : OrderState

-- `OMOrder`
pub record ManagedOrder : Type 0 where
  pub ticker_id : ℕ
  pub order_id : ℕ
  pub side : Side
  pub price : ℤ
  pub qty : ℕ
  pub order_state : OrderState

-- `OrderManager`: the order of each ticker and side, the next number, and the requests sent.
pub record OrderManager : Type 0 where
  pub bid_order : ℕ → ManagedOrder
  pub ask_order : ℕ → ManagedOrder
  pub next_order_id : ℕ
  pub sent : List ClientRequest

abbrev pub is_pending_new : OrderState → Bool
is_pending_new OrderState.pending_new = true
is_pending_new _ = false

abbrev pub is_pending_cancel : OrderState → Bool
is_pending_cancel OrderState.pending_cancel = true
is_pending_cancel _ = false

-- The `switch` of `onOrderUpdate`, on the order that the response is about.
unfoldable pub respond : ManagedOrder → ClientResponse → ManagedOrder
respond o r = elim r.type [
  | ClientResponseType.accepted ↦
      if is_pending_new o.order_state then record o { order_state = OrderState.live } else o
  | ClientResponseType.filled ↦
      (let qty = if ltb r.leaves_qty o.qty then r.leaves_qty else o.qty in
        if qty == 0
        then record o { qty = qty; order_state = OrderState.dead }
        else record o { qty = qty })
  | ClientResponseType.canceled ↦ record o { qty = 0; order_state = OrderState.dead }
  | ClientResponseType.rejected ↦ record o { qty = 0; order_state = OrderState.dead }
  | ClientResponseType.cancel_rejected ↦
      if is_pending_cancel o.order_state
      then record o { order_state = if r.leaves_qty == 0 then OrderState.dead else OrderState.live }
      else o
  | ClientResponseType.state ↦ record o {
    qty = r.leaves_qty;
    order_state = if r.leaves_qty == 0 then OrderState.dead else OrderState.live;
  }
  | _ ↦ o
]

-- `newOrder`: the order with the number `id`, if the request is taken.
unfoldable pub new_order :
    (ClientRequest → Bool)
    → ℕ
    → ℕ
    → ManagedOrder
    → ℕ
    → ℤ
    → Side
    → ℕ
    → ManagedOrder × ℕ × List ClientRequest
new_order send client id o ticker price side qty =
    let q : ClientRequest = record {
      type = ClientRequestType.new;
      client_id = client;
      ticker_id = ticker;
      order_id = id;
      side = side;
      price = price;
      qty = qty;
      session_epoch = 0;
      request_seq = 0;
    } in
    if send q
    then (
      record {
        ticker_id = ticker;
        order_id = id;
        side = side;
        price = price;
        qty = qty;
        order_state = OrderState.pending_new;
      },
      (id + 1) % 2 ^ 64,
      q ∷ [],
    )
    else (o, id, [])

-- `cancelOrder`
unfoldable pub cancel_order :
    (ClientRequest → Bool) → ℕ → ManagedOrder → ManagedOrder × List ClientRequest
cancel_order send client o =
    let q : ClientRequest = record {
      type = ClientRequestType.cancel;
      client_id = client;
      ticker_id = o.ticker_id;
      order_id = o.order_id;
      side = o.side;
      price = o.price;
      qty = o.qty;
      session_epoch = 0;
      request_seq = 0;
    } in
    if send q then (record o { order_state = OrderState.pending_cancel }, q ∷ []) else (o, [])

-- `moveOrder`
unfoldable pub move_order :
    (ClientRequest → Bool)
    → ℕ
    → ℕ
    → ManagedOrder
    → ℕ
    → ℤ
    → Side
    → ℕ
    → ManagedOrder × ℕ × List ClientRequest
unfolding new_order cancel_order
move_order send client id o ticker price side qty = elim o.order_state [
  | OrderState.live ↦
      if price_eq o.price price
      then (o, id, [])
      else (let c = cancel_order send client o in (c.0, id, c.1))
  | OrderState.pending_new ↦ (o, id, [])
  | OrderState.pending_cancel ↦ (o, id, [])
  | _ ↦
      if price_eq price price_invalid
      then (o, id, [])
      else new_order send client id o ticker price side qty
]

-- A candidate of `onOrderUpdate`.
abbrev pub is_candidate : ManagedOrder → ClientResponse → Bool
is_candidate o r = o.order_id == r.client_order_id && not (o.order_id == order_id_invalid)

-- `onOrderUpdate`: the array of a ticker has the sell order before the buy order.
unfoldable pub on_order_update : OrderManager → ClientResponse → OrderManager
unfolding respond
on_order_update m r =
    let t = r.ticker_id in
    if leb max_tickers t
    then m
    else if is_candidate (m.ask_order t) r
    then record m { ask_order = update m.ask_order t (respond (m.ask_order t) r) }
    else if is_candidate (m.bid_order t) r
    then record m { bid_order = update m.bid_order t (respond (m.bid_order t) r) }
    else m

-- `moveOrders`: first the bid, then the ask.
unfoldable pub move_orders :
    (ClientRequest → Bool) → ℕ → OrderManager → ℕ → ℤ → ℤ → ℕ → OrderManager
unfolding move_order
move_orders send client m ticker bid_price ask_price clip =
    let b =
      move_order send client m.next_order_id (m.bid_order ticker) ticker bid_price Side.buy clip in
    let a = move_order send client b.1 (m.ask_order ticker) ticker ask_price Side.sell clip in
    record {
      bid_order = update m.bid_order ticker b.0;
      ask_order = update m.ask_order ticker a.0;
      next_order_id = a.1;
      sent = m.sent ++ b.2 ++ a.2;
    }
