-- ===== src/Risk/Tests.antt =====
-- One reservation of five bids, and the theorems about it.
use trade_system.Common.{ℕ, ◌≡◌, refl, arith, ◌==◌, if◌then◌else◌, [], ◌∷◌, true, false}
use trade_system.Common.Int.{pos, abs, ◌+ℤ◌, ◌-ℤ◌, ◌*ℤ◌}
use trade_system.Types.{Side, side_to_value}
use trade_system.Messages.{
  ClientRequest, ClientRequestType, ClientResponse, ClientResponseType, RejectReason,
}
use trade_system.Risk.{
  RiskManager, RiskInfo, RiskCheckResult, check_info, check_pre_trade_risk, reserve, rollback,
  on_response, pending, is_allowed,
}
use trade_system.Risk.Pending.{IsBalanced}
use trade_system.Risk.Responses.{on_response-IsBalanced}
use trade_system.Risk.Undo.{Agree, rollback-reserve}

abbrev limits : RiskInfo
limits = record {
  position = pos 0;
  loss_too_large = false;
  pnl_is_finite = true;
  max_order_size = 10;
  max_position = 8;
}

abbrev manager : RiskManager
manager = record {
  ticker_risk = λ t. limits;
  reservations =
      record { ticker_id = 2; order_id = 7; side = Side.buy; qty = 5; price = pos 100 } ∷ [];
  pending_buy = λ t. if 2 == t then 5 else 0;
  pending_sell = λ t. 0;
}

abbrev request : ℕ → ClientRequest
request qty = record {
  type = ClientRequestType.new;
  client_id = 1;
  ticker_id = 2;
  order_id = 8;
  side = Side.buy;
  price = pos 10;
  qty = qty;
  session_epoch = 1;
  request_seq = 1;
}

abbrev fill : ClientResponse
fill = record {
  type = ClientResponseType.filled;
  client_id = 1;
  ticker_id = 2;
  client_order_id = 7;
  market_order_id = 11;
  side = Side.buy;
  price = pos 100;
  exec_qty = 3;
  leaves_qty = 2;
  reject_reason = RejectReason.none_;
  response_id = 0;
  position = pos 0;
}

-- With five bids pending and a limit of eight, four more are too many.
pending_counts : (reserve manager (request 4)).0 ≡ RiskCheckResult.position_too_large
unfolding reserve check_pre_trade_risk check_info abs ◌+ℤ◌ ◌-ℤ◌ ◌*ℤ◌ side_to_value
pending_counts = refl

part_filled : pending (on_response manager fill).1 2 Side.buy ≡ 2
unfolding on_response
part_filled = refl

manager-IsBalanced : IsBalanced manager
manager-IsBalanced = record {
  buys = λ t. ground arith;
  sells = λ t. ground arith;
  buys_fit = λ t. ground arith;
  sells_fit = λ t. omega arith;
}

on_response-IsBalanced_example : IsBalanced (on_response manager fill).1
on_response-IsBalanced_example = on_response-IsBalanced manager fill manager-IsBalanced

-- Two more bids, for which there is room.
rollback-reserve_example : Agree manager (
    if is_allowed (reserve manager (request 2)).0
    then rollback (reserve manager (request 2)).1 (request 2)
    else (reserve manager (request 2)).1)
rollback-reserve_example =
    rollback-reserve manager (request 2) (omega arith, omega arith) manager-IsBalanced

two_reserved : pending (reserve manager (request 2)).1 2 Side.buy ≡ 7
unfolding reserve check_pre_trade_risk check_info abs ◌+ℤ◌ ◌-ℤ◌ ◌*ℤ◌ side_to_value
two_reserved = refl
