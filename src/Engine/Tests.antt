-- ===== src/Engine/Tests.antt =====
-- An engine with two small queues, and the theorem about what it sends.
use trade_system.Common.{ℕ, ◌≡◌, arith, List, [], ◌∷◌, done}
use trade_system.Common.Int.{pos}
use trade_system.Types.{Side}
use trade_system.Messages.{
  ClientRequest, ClientRequestType, ClientResponse, ClientResponseType, RejectReason, MarketUpdate,
  MarketUpdateType,
}
use trade_system.Matcher.Book.{Event, response, market, empty_book}
use trade_system.Engine.{Engine, deliver}
use trade_system.Engine.Sending.{HasRoom, Delivered, deliver_lem}

abbrev fill : Side → ℕ → ClientResponse
fill side qty = record {
  type = ClientResponseType.filled;
  client_id = 1;
  ticker_id = 0;
  client_order_id = 9;
  market_order_id = 11;
  side = side;
  price = pos 1000;
  exec_qty = qty;
  leaves_qty = 0;
  reject_reason = RejectReason.none_;
  response_id = 0;
  position = pos 0;
}

abbrev update : MarketUpdate
update = record {
  type = MarketUpdateType.trade;
  order_id = 1;
  ticker_id = 0;
  side = Side.buy;
  price = pos 1000;
  qty = 5;
  priority = 1;
}

abbrev request : ClientRequest
request = record {
  type = ClientRequestType.new;
  client_id = 1;
  ticker_id = 0;
  order_id = 1;
  side = Side.buy;
  price = pos 10;
  qty = 1;
  session_epoch = 1;
  request_seq = 1;
}

abbrev idle : Engine
idle = record {
  ticker_order_book = λ t. empty_book 4 4 t;
  incoming_requests = record {
    capacity = 2;
    store = λ _. request;
    head = 0;
    tail = 0;
    full_count = 0;
    high_watermark = 0;
  };
  outgoing_ogw_responses = record {
    capacity = 2;
    store = λ _. fill Side.buy 0;
    head = 1;
    tail = 1;
    full_count = 0;
    high_watermark = 0;
  };
  outgoing_md_updates = record {
    capacity = 2;
    store = λ _. update;
    head = 0;
    tail = 0;
    full_count = 0;
    high_watermark = 0;
  };
  next_response_id = 1;
  response_count = 0;
  client_positions = λ c t. pos 0;
}

abbrev calls : List Event
calls = response (fill Side.buy 3) ∷ market update ∷ response (fill Side.sell 5) ∷ []

idle-HasRoom : HasRoom idle calls
idle-HasRoom = record {
  responses_valid = record {
    positive = omega arith;
    head_below = omega arith;
    tail_below = omega arith;
    bounded = omega arith;
  };
  updates_valid = record {
    positive = omega arith;
    head_below = omega arith;
    tail_below = omega arith;
    bounded = omega arith;
  };
  responses_room = omega arith;
  updates_room = omega arith;
}

deliver_lem_example : (e : Engine) × (deliver idle calls ≡ done e) × Delivered idle calls e
deliver_lem_example = deliver_lem idle calls idle-HasRoom
