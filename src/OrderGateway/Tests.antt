-- ===== src/OrderGateway/Tests.antt =====
-- A small gateway, and the theorems about it at concrete inputs.
use trade_system.Common.{
  ℕ, zero, suc, ◌≤◌, length, ap, ◌≡◌, ◌&&◌, refl, arith, List, [], ◌∷◌, ◌++◌, true, false, done,
  Returns,
}
use trade_system.Common.Int.{pos}
use trade_system.Types.{Side}
use trade_system.Messages.{
  ClientRequest, ClientRequestType, ClientResponse, ClientResponseType, RejectReason,
}
use trade_system.LfQueue.{LfQueue}
use trade_system.LfQueue.Refine.{IsValid, contents}
use trade_system.Tcp.{TcpSocket, ConnectionState, healthy}
use trade_system.OrderGateway.{OrderGateway, recv_callback, run_round, on_socket}
use trade_system.OrderGateway.Delivery.{Received, recv_callback-Received}
use trade_system.OrderServer
use trade_system.OrderServer.{OrderServer}
use trade_system.OrderServer.Bound.{IsBound}
use trade_system.OrderGateway.Receiving.{GatewayKept, ServerKept, send_and_recv-IsBounded}
use trade_system.Tcp.{SendAnswer, ReceiveAnswer, send_and_recv}
use trade_system.OrderGateway.EndToEnd.{stream, recv_callback-Arrived}
use trade_system.OrderGateway.Requests.{Requested, Stopped, run_round_lem}

abbrev answer : ClientResponse
answer = record {
  type = ClientResponseType.accepted;
  client_id = 3;
  ticker_id = 0;
  client_order_id = 9;
  market_order_id = 1;
  side = Side.buy;
  price = pos 100;
  exec_qty = 0;
  leaves_qty = 4;
  reject_reason = RejectReason.none_;
  response_id = 1;
  position = pos 0;
}

abbrev order : ClientRequest
order = record {
  type = ClientRequestType.new;
  client_id = 3;
  ticker_id = 0;
  order_id = 9;
  side = Side.buy;
  price = pos 100;
  qty = 4;
  session_epoch = 5;
  request_seq = 1;
}

abbrev link : TcpSocket
link = record {
  has_fd = true;
  capacity = 200;
  outbound_data = λ i. 0;
  send_begin = 0;
  next_send_valid_index = 0;
  inbound_data = stream 5 1 (answer ∷ []);
  state = ConnectionState.open_;
  last_error = 0;
  sent_bytes = 0;
  received_bytes = 79;
  send_would_block = 0;
  last_receive_time = 0;
}

abbrev requests : LfQueue ClientRequest
requests = record {
  capacity = 2;
  store = λ _. order;
  head = 0;
  tail = 1;
  full_count = 0;
  high_watermark = 1;
}

abbrev responses : LfQueue ClientResponse
responses = record {
  capacity = 2;
  store = λ _. answer;
  head = 0;
  tail = 0;
  full_count = 0;
  high_watermark = 0;
}

abbrev gateway : OrderGateway
gateway = record {
  client_id = 3;
  session_epoch = 5;
  session_healthy = true;
  outgoing_requests = requests;
  incoming_responses = responses;
  run = true;
  next_outgoing_seq_num = 1;
  next_exp_seq_num = 1;
  tcp_socket = link;
  pending_requests = 0;
  last_receive = 0;
}

responses-IsValid : IsValid responses
responses-IsValid = record {
  positive = omega arith;
  head_below = omega arith;
  tail_below = omega arith;
  bounded = omega arith;
}

requests-IsValid : IsValid requests
requests-IsValid = record {
  positive = omega arith;
  head_below = omega arith;
  tail_below = omega arith;
  bounded = omega arith;
}

recv_callback-Received_example : Returns (Received gateway) (recv_callback gateway 7)
recv_callback-Received_example = recv_callback-Received gateway 7 responses-IsValid

-- The kernel has one byte to give and takes none.
abbrev trickle : ℕ → ℕ → ReceiveAnswer
trickle zero (suc n) = ReceiveAnswer.got (84 ∷ []) 3
trickle i n = ReceiveAnswer.would_block

abbrev busy : ℕ → ℕ → SendAnswer
busy i n = SendAnswer.would_block

trickle_offers :
    (i n : ℕ) (bytes : List ℕ) (t : ℕ) → trickle i n ≡ ReceiveAnswer.got bytes t → length bytes ≤ n
trickle_offers zero zero bytes t e = cc
trickle_offers zero (suc n) bytes t e =
    let same : (84 ∷ []) ≡ bytes =
      ap
        (λ (r : ReceiveAnswer). elim r [
          | ReceiveAnswer.got b u ↦ b
          | ReceiveAnswer.closed ↦ []
          | ReceiveAnswer.interrupted ↦ []
          | ReceiveAnswer.would_block ↦ []
          | ReceiveAnswer.failed u ↦ []
        ])
        e in
    omega (arith, ap length same)
trickle_offers (suc i) n bytes t e = cc

-- A server at which nobody has a connection yet.
abbrev server : OrderServer
server = OrderServer.create (λ _. link) requests responses

server-IsBound : IsBound server
server-IsBound c k e = cc

send_and_recv-IsBounded_example :
    Returns GatewayKept (send_and_recv on_socket trickle busy gateway link)
    × Returns ServerKept (send_and_recv (OrderServer.on_socket 7) trickle busy server link)
unfolding trade_system.Wire.Orders.encode_response trade_system.Wire.Bytes.put
send_and_recv-IsBounded_example =
    send_and_recv-IsBounded trickle busy gateway server 7 trickle_offers (λ i n m e. cc)
      responses-IsValid (omega arith) (omega arith) server-IsBound (omega arith) (omega arith)

recv_callback-Arrived_example :
    (h : OrderGateway) × (recv_callback gateway 0 ≡ done h)
    × (contents h.incoming_responses ≡ contents responses ++ answer ∷ [])
    × (h.tcp_socket.inbound_data ≡ [])
recv_callback-Arrived_example =
    recv_callback-Arrived gateway 0 (answer ∷ []) responses-IsValid refl
      (
        record {
          seq_num = omega arith;
          session_epoch = omega arith;
          type = tt;
          client_id = omega arith;
          ticker_id = omega arith;
          client_order_id = omega arith;
          market_order_id = omega arith;
          side = tt;
          price = omega arith;
          exec_qty = omega arith;
          leaves_qty = omega arith;
          reject_reason = tt;
          response_id = omega arith;
          position = omega arith;
        },
        refl,
        refl,
        tt,
      )
      (omega arith)

run_round_lem_example :
    Returns
      (λ h.
        ((healthy link && true) ≡ true → Requested gateway (order ∷ []) h)
        × ((healthy link && true) ≡ false → Stopped gateway h))
      (run_round 2 gateway)
run_round_lem_example =
    run_round_lem 2 gateway (order ∷ []) requests-IsValid refl (omega arith) (omega arith)
