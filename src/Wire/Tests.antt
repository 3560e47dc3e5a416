-- ===== src/Wire/Tests.antt =====
-- Messages on the wire, and the theorems about them at concrete inputs.
use trade_system.Common.{◌≡◌, refl, arith, [], ◌∷◌, length, some, none, done, if◌then◌else◌}
use trade_system.Common.Int.{pos, negsuc}
use trade_system.Types.{Side}
use trade_system.Messages.{
  ClientRequestType, ClientResponseType, RejectReason, MarketUpdateType, SequencedRequest,
  SequencedResponse, SequencedUpdate,
}
use trade_system.Wire.Bytes.{put}
use trade_system.Wire.Orders.{encode_request, decode_request, encode_response, decode_response}
use trade_system.Wire.OrderTrips.{
  RequestFits, ResponseFits, stamped, decode_request-encode_request,
  decode_response-encode_response,
}
use trade_system.Wire.Market.{encode_update, decode_update}
use trade_system.Wire.MarketTrips.{UpdateFits, is_public, decode_update-encode_update}

abbrev order : SequencedRequest
order = record {
  seq_num = 7;
  session_epoch = 3;
  request = record {
    type = ClientRequestType.new;
    client_id = 258;
    ticker_id = 2;
    order_id = 9;
    side = Side.sell;
    price = pos 1000;
    qty = 5;
    session_epoch = 0;
    request_seq = 0;
  };
}

abbrev answer : SequencedResponse
answer = record {
  seq_num = 8;
  session_epoch = 3;
  response = record {
    type = ClientResponseType.filled;
    client_id = 1;
    ticker_id = 2;
    client_order_id = 9;
    market_order_id = 11;
    side = Side.buy;
    price = pos 1000;
    exec_qty = 5;
    leaves_qty = 0;
    reject_reason = RejectReason.none_;
    response_id = 4;
    position = negsuc 6;
  };
}

abbrev trade : SequencedUpdate
trade = record {
  seq_num = 6;
  snapshot_cycle = 0;
  watermark = 0;
  state_hash = 0;
  update = record {
    type = MarketUpdateType.trade;
    order_id = 1;
    ticker_id = 2;
    side = Side.buy;
    price = pos 1000;
    qty = 5;
    priority = 1;
  };
}

two_bytes : put 2 258 ≡ 1 ∷ 2 ∷ []
unfolding put
two_bytes = refl

order-RequestFits : RequestFits order
order-RequestFits = record {
  seq_num = omega arith;
  session_epoch = omega arith;
  type = tt;
  client_id = omega arith;
  ticker_id = omega arith;
  order_id = omega arith;
  side = tt;
  price = omega arith;
  qty = omega arith;
}

answer-ResponseFits : ResponseFits answer
answer-ResponseFits = record {
  seq_num = omega arith;
  session_epoch = omega arith;
  type = tt;
  client_id = omega arith;
  ticker_id = omega arith;
  client_order_id = omega arith;
  market_order_id = omega arith;
  side = tt;
  price = omega arith;
  exec_qty = omega arith;
  leaves_qty = omega arith;
  reject_reason = tt;
  response_id = omega arith;
  position = omega arith;
}

trade-UpdateFits : UpdateFits trade
trade-UpdateFits = record {
  seq_num = omega arith;
  snapshot_cycle = omega arith;
  watermark = omega arith;
  state_hash = omega arith;
  type = tt;
  order_id = omega arith;
  ticker_id = omega arith;
  side = tt;
  price = omega arith;
  qty = omega arith;
  priority = omega arith;
}

decode_request-encode_request_example :
    (decode_request (encode_request order) ≡ done (some (stamped order)))
    × (length (encode_request order) ≡ 50)
decode_request-encode_request_example = decode_request-encode_request order order-RequestFits

decode_response-encode_response_example :
    (decode_response (encode_response answer) ≡ done (some answer))
    × (length (encode_response answer) ≡ 79)
decode_response-encode_response_example = decode_response-encode_response answer answer-ResponseFits

decode_update-encode_update_example :
    (decode_update (encode_update trade) ≡ done (if is_public trade then some trade else none))
    × (length (encode_update trade) ≡ 70)
decode_update-encode_update_example = decode_update-encode_update trade trade-UpdateFits
