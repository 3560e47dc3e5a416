-- ===== src/OrderManager/Tests.antt =====
-- The life of one order, and the theorem about its steps.
use trade_system.Common.{ℕ, ◌≡◌, refl, Bool, true}
use trade_system.Common.Int.{pos}
use trade_system.Types.{Side}
use trade_system.Messages.{ClientRequest, ClientResponse, ClientResponseType, RejectReason}
use trade_system.OrderManager.{
  OrderState, ManagedOrder, respond, new_order, cancel_order, move_order,
}
use trade_system.OrderManager.States.{Moved, move_order-Moved}

abbrev always : ClientRequest → Bool
always q = true

abbrev live_order : ManagedOrder
live_order = record {
  ticker_id = 0;
  order_id = 3;
  side = Side.buy;
  price = pos 100;
  qty = 5;
  order_state = OrderState.live;
}

abbrev answer : ClientResponseType → ℕ → ClientResponse
answer type leaves = record {
  type = type;
  client_id = 1;
  ticker_id = 0;
  client_order_id = 3;
  market_order_id = 11;
  side = Side.buy;
  price = pos 100;
  exec_qty = 0;
  leaves_qty = leaves;
  reject_reason = RejectReason.none_;
  response_id = 0;
  position = pos 0;
}

cancelled_and_dead :
    (respond
      (move_order always 1 4 live_order 0 (pos 99) Side.buy 5).0
      (answer ClientResponseType.canceled 0)).order_state
    ≡ OrderState.dead
unfolding move_order cancel_order new_order respond
cancelled_and_dead = refl

refused_cancel :
    (respond
      (move_order always 1 4 live_order 0 (pos 99) Side.buy 5).0
      (answer ClientResponseType.cancel_rejected 5)).order_state
    ≡ OrderState.live
unfolding move_order cancel_order new_order respond
refused_cancel = refl

move_order-Moved_example :
    Moved live_order 4 (move_order always 1 4 live_order 0 (pos 99) Side.buy 5)
move_order-Moved_example = move_order-Moved always 1 4 live_order 0 (pos 99) Side.buy 5
