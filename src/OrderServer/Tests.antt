-- ===== src/OrderServer/Tests.antt =====
-- A small server, and the theorems about it at concrete inputs.
use trade_system.Common.{
  ℕ, ◌≡◌, refl, arith, List, [], ◌∷◌, ◌++◌, true, some, Outcome, done, Returns, length, ◌>>=◌,
  Option,
}
use trade_system.Common.Int.{pos}
use trade_system.Types.{Side}
use trade_system.Messages.{
  ClientRequest, ClientRequestType, ClientResponse, ClientResponseType, RejectReason,
  SequencedRequest,
}
use trade_system.LfQueue.{LfQueue}
use trade_system.LfQueue.Refine.{IsValid}
use trade_system.Tcp.{TcpSocket, ConnectionState}
use trade_system.Wire.Bytes.{put, get, get_from}
use trade_system.Wire.Enums.{
  request_type_from, request_type_bits, side_from, side_bits, int_from, int_bits,
}
use trade_system.Wire.Orders.{encode_request, decode_request, get_header, get_magic}
use trade_system.Wire.Validate.{validate}
use trade_system.Sequencer.{add_client_request}
use trade_system.OrderServer.{
  OrderServer, create, recv_callback, process_frame, frames, check_client, accept,
}
use trade_system.OrderServer.Returning.{Received}
use trade_system.OrderServer.Rejecting.{Handled}
use trade_system.OrderServer.Binding.{recv_callback-IsBound}
use trade_system.OrderServer.Bound.{IsBound}
use trade_system.OrderServer.Admission.{FrameIn, process_frame-FrameIn}
use trade_system.OrderServer.Responses.{respond_all, Answered, respond_all-Answered}

abbrev order : SequencedRequest
order = record {
  seq_num = 1;
  session_epoch = 5;
  request = record {
    type = ClientRequestType.new;
    client_id = 3;
    ticker_id = 0;
    order_id = 9;
    side = Side.buy;
    price = pos 100;
    qty = 4;
    session_epoch = 5;
    request_seq = 1;
  };
}

-- A connection with one frame, and a byte of the next one.
abbrev link : TcpSocket
link = record {
  has_fd = true;
  capacity = 200;
  outbound_data = λ i. 0;
  send_begin = 0;
  next_send_valid_index = 0;
  inbound_data = encode_request order ++ 84 ∷ [];
  state = ConnectionState.open_;
  last_error = 0;
  sent_bytes = 0;
  received_bytes = 51;
  send_would_block = 0;
  last_receive_time = 0;
}

abbrev answer : ClientResponse
answer = record {
  type = ClientResponseType.accepted;
  client_id = 3;
  ticker_id = 0;
  client_order_id = 9;
  market_order_id = 1;
  side = Side.buy;
  price = pos 100;
  exec_qty = 0;
  leaves_qty = 4;
  reject_reason = RejectReason.none_;
  response_id = 1;
  position = pos 0;
}

abbrev requests : LfQueue ClientRequest
requests = record {
  capacity = 2;
  store = λ _. order.request;
  head = 0;
  tail = 0;
  full_count = 0;
  high_watermark = 0;
}

abbrev responses : LfQueue ClientResponse
responses = record {
  capacity = 2;
  store = λ _. answer;
  head = 0;
  tail = 1;
  full_count = 0;
  high_watermark = 1;
}

abbrev server : OrderServer
server = create (λ _. link) requests responses

-- What a test looks at.
abbrev view : OrderServer → Outcome (Option ℕ × ℕ × ℕ × List ℕ)
view s =
    done
      (s.cid_tcp_socket 3, s.cid_next_exp_seq_num 3, s.accepted_frames, (s.sockets 7).inbound_data)

-- The frame is accepted and binds its client; the byte behind it stays.
server_reads : (recv_callback server 7 0 >>= view) ≡ done (some 7, 2, 1, 84 ∷ [])
unfolding recv_callback frames process_frame check_client accept encode_request decode_request
    get_header get_magic get get_from put validate add_client_request request_type_from
    request_type_bits side_from side_bits int_from int_bits
server_reads = refl

server-IsBound : IsBound server
server-IsBound c k e = cc

recv_callback-IsBound_example :
    Returns (λ s. Received 7 server s × IsBound s) (recv_callback server 7 0)
recv_callback-IsBound_example = recv_callback-IsBound server 7 0 refl server-IsBound

order_frame : length (encode_request order) ≡ 50
unfolding encode_request put
order_frame = refl

process_frame-FrameIn_example :
    Returns
      (λ x. Handled 7 server x × FrameIn 7 0 server (encode_request order) x)
      (process_frame server 7 0 (encode_request order))
process_frame-FrameIn_example =
    process_frame-FrameIn server 7 0 (encode_request order) refl order_frame

-- The same server with client 3 on connection 7.
abbrev bound_server : OrderServer
bound_server = record server {
  cid_tcp_socket = λ c. some 7;
  cid_session_epoch = λ _. 5;
  socket_client = λ _. some 3;
}

responses-IsValid : IsValid responses
responses-IsValid = record {
  positive = omega arith;
  head_below = omega arith;
  tail_below = omega arith;
  bounded = omega arith;
}

respond_all-Answered_example :
    Returns (Answered bound_server (answer ∷ [])) (respond_all 2 bound_server)
respond_all-Answered_example =
    respond_all-Answered 2 bound_server (answer ∷ []) responses-IsValid refl ((refl, (7, refl)), tt)
      (λ c k e. (refl, omega arith)) (omega arith)
