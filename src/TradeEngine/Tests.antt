-- ===== src/TradeEngine/Tests.antt =====
-- An engine with one bid of five, of which three trade, and the theorems about it.
use trade_system.Common.{
  ◌≡◌, refl, arith, ◌==◌, if◌then◌else◌, [], ◌∷◌, true, false, none, some, Bool,
}
use trade_system.Common.Int.{ℤ, pos, ◌+ℤ◌, ◌*ℤ◌}
use trade_system.Types.{Side, side_to_value}
use trade_system.Messages.{
  ClientRequest, ClientRequestType, ClientResponse, ClientResponseType, RejectReason,
}
use trade_system.LfQueue.{LfQueue}
use trade_system.LfQueue.Refine.{IsValid}
use trade_system.Risk.{RiskManager, RiskInfo, on_response, is_allowed, reserve, find_reservation}
use trade_system.Risk.Pending.{IsBalanced}
use trade_system.Risk.Limits.{WithinLimits, reserve-WithinLimits}
use trade_system.TradeEngine.{TradeEngine, on_order_update, send_client_request}
use trade_system.TradeEngine.Admission.{Answer, send_client_request-Answer}

abbrev limits : RiskInfo
limits = record {
  position = pos 0;
  loss_too_large = false;
  pnl_is_finite = true;
  max_order_size = 10;
  max_position = 8;
}

abbrev manager : RiskManager
manager = record {
  ticker_risk = λ t. limits;
  reservations =
      record { ticker_id = 2; order_id = 7; side = Side.buy; qty = 5; price = pos 100 } ∷ [];
  pending_buy = λ t. if 2 == t then 5 else 0;
  pending_sell = λ t. 0;
}

abbrev order : ClientRequest
order = record {
  type = ClientRequestType.new;
  client_id = 1;
  ticker_id = 2;
  order_id = 8;
  side = Side.buy;
  price = pos 10;
  qty = 3;
  session_epoch = 1;
  request_seq = 1;
}

abbrev fill : ClientResponse
fill = record {
  type = ClientResponseType.filled;
  client_id = 1;
  ticker_id = 2;
  client_order_id = 7;
  market_order_id = 11;
  side = Side.buy;
  price = pos 100;
  exec_qty = 3;
  leaves_qty = 2;
  reject_reason = RejectReason.none_;
  response_id = 4;
  position = pos 0;
}

abbrev requests : LfQueue ClientRequest
requests = record {
  capacity = 2;
  store = λ _. order;
  head = 0;
  tail = 0;
  full_count = 0;
  high_watermark = 0;
}

abbrev engine : TradeEngine
engine = record {
  client_id = 1;
  outgoing_requests = requests;
  admitting = true;
  market_generation = 1;
  applied_generation = 1;
  order_session = some true;
  reconciled = true;
  last_response_id = 3;
  accepted_requests = 0;
  rejected_requests = 0;
  duplicate_responses = 0;
  risk_manager = manager;
  volume = λ t. 0;
}

-- No loss in sight.
abbrev calm : ℤ → ClientResponse → Bool × Bool
calm position r = (false, true)

-- The fill moves the position.
engine_fills : ((on_order_update calm engine fill).1.risk_manager.ticker_risk 2).position ≡ pos 3
unfolding on_order_update on_response ◌+ℤ◌ ◌*ℤ◌ side_to_value
engine_fills = refl

manager-IsBalanced : IsBalanced manager
manager-IsBalanced = record {
  buys = λ t. ground arith;
  sells = λ t. ground arith;
  buys_fit = λ t. ground arith;
  sells_fit = λ t. ground arith;
}

requests-IsValid : IsValid requests
requests-IsValid = record {
  positive = omega arith;
  head_below = omega arith;
  tail_below = omega arith;
  bounded = omega arith;
}

send_client_request-Answer_example : Answer engine order (send_client_request engine order)
send_client_request-Answer_example =
    send_client_request-Answer engine order requests-IsValid (omega arith, omega arith)
      manager-IsBalanced

reserve-WithinLimits_example :
    (is_allowed (reserve manager order).0 ≡ true
      → (find_reservation manager.reservations 2 8 ≡ none)
        × WithinLimits (reserve manager order).1 2)
    × (is_allowed (reserve manager order).0 ≡ false → (reserve manager order).1 ≡ manager)
reserve-WithinLimits_example = reserve-WithinLimits manager order refl (omega arith, omega arith)
