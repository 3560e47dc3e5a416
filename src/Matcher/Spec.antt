-- ===== src/Matcher/Spec.antt =====
-- What matching promises, said of plain lists: the resting orders of the other side in the order
-- of their priority (best price first, and at one price the oldest first) are used up one after
-- the other as long as the limit allows.
use trade_system.Common.{
  ℕ, ◌-◌, Bool, ◌==◌, if◌then◌else◌, min, List, [], ◌∷◌, ◌++◌, Option, none, some,
}
use trade_system.Common.Int.{ℤ, pos}
use trade_system.Types.{Side, order_id_invalid, priority_invalid}
use trade_system.Messages.{
  ClientResponse, ClientResponseType, RejectReason, MarketUpdate, MarketUpdateType,
}
use trade_system.Matcher.Book.{Order, Event, response, market, order_node}
use trade_system.Matcher.Fill.{Taker, outside}
use trade_system.Matcher.Shape.{Orders}
use trade_system.Intrusive.Laws.{bare_of}

-- The orders in some slots, without their pointers.
abbrev pub one_more : Option Order → List Order → List Order
one_more none os = os
one_more (some o) os = o ∷ os

abbrev pub contents : Orders → List ℕ → List Order
contents orders [] = []
contents orders (i ∷ xs) = one_more (bare_of order_node orders i) (contents orders xs)

pub record Filled : Type 0 where
  pub resting : List Order
  pub leaves : ℕ
  pub events : List Event

-- A fill as the owner of an order is told of it, and an update as the market is.
abbrev fill_report : ℕ → ℕ → ℕ → ℕ → Side → ℤ → ℕ → ℕ → ClientResponse
fill_report ticker client order_id market_id side price fill left = record {
  type = ClientResponseType.filled;
  client_id = client;
  ticker_id = ticker;
  client_order_id = order_id;
  market_order_id = market_id;
  side = side;
  price = price;
  exec_qty = fill;
  leaves_qty = left;
  reject_reason = RejectReason.none_;
  response_id = 0;
  position = pos 0;
}

abbrev report : MarketUpdateType → ℕ → ℕ → Side → ℤ → ℕ → ℕ → MarketUpdate
report type order_id ticker side price qty priority = record {
  type = type;
  order_id = order_id;
  ticker_id = ticker;
  side = side;
  price = price;
  qty = qty;
  priority = priority;
}

-- The messages of one fill, each to its own client and at the price of the resting order: to the incoming order, to the resting one, the trade, and what
-- becomes of the resting order.
abbrev pub fill_events : Taker → Order → ℕ → List Event
fill_events t o leaves =
    let fill = min leaves o.qty in
    response (
      fill_report t.ticker_id t.client_id t.client_order_id t.market_order_id t.side o.price fill
        (leaves - fill))
    ∷ response (
        fill_report t.ticker_id o.client_id o.client_order_id o.market_order_id o.side o.price fill
          (o.qty - fill))
    ∷ market (
        report MarketUpdateType.trade order_id_invalid t.ticker_id t.side o.price fill
          priority_invalid)
    ∷ (if o.qty - fill == 0
        then market (
            report MarketUpdateType.cancel o.market_order_id t.ticker_id o.side o.price o.qty
              priority_invalid)
        else market (
            report MarketUpdateType.modify o.market_order_id t.ticker_id o.side o.price
              (o.qty - fill) o.priority))
    ∷ []

unfoldable pub fills : Taker → Bool → ℤ → ℕ → List Order → Filled
fills t buy limit leaves [] = record { resting = []; leaves = leaves; events = [] }
fills t buy limit leaves (o ∷ os) =
    let stop : Filled = record { resting = o ∷ os; leaves = leaves; events = [] } in
    let fill = min leaves o.qty in
    let rest = fills t buy limit (leaves - fill) os in
    if leaves == 0
    then stop
    else if outside buy limit o.price
    then stop
    else if o.qty - fill == 0
    then record {
      resting = rest.resting;
      leaves = rest.leaves;
      events = fill_events t o leaves ++ rest.events;
    }
    else record {
      resting = record o { qty = o.qty - fill } ∷ os;
      leaves = leaves - fill;
      events = fill_events t o leaves;
    }
