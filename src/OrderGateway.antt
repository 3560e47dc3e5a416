-- ===== src/OrderGateway.antt =====
-- trading/order_gw/order_gateway.h and order_gateway.cpp: the client's end of the order session. The
-- thread, the clock with its deadlines and the log are left out; the time of a round is an argument.
pub mod Passing
pub mod Delivery
pub mod EndToEnd
pub mod Requests
pub mod Receiving
mod Tests
use trade_system.Common.{
  ℕ, zero, suc, ◌+◌, ◌-◌, ◌%◌, ◌^◌, ◌==◌, ◌&&◌, ◌||◌, not, ltb, leb, if◌then◌else◌, Bool, true,
  false, List, [], ◌∷◌, length, take, drop, Option, none, some, Outcome, done, fault, out_of_fuel,
  ◌>>=◌,
}
use trade_system.Common.Int.{ℤ, pos, ltb_ℤ}
use trade_system.Types.{is_buy, is_sell, int32_max, max_tickers, price_invalid}
use trade_system.Messages.{
  ClientRequest, ClientResponse, ClientResponseType, RejectReason, SequencedRequest,
  SequencedResponse,
}
use trade_system.LfQueue
use trade_system.LfQueue.{LfQueue}
use trade_system.Matcher.Book.{price_eq}
use trade_system.Tcp
use trade_system.Tcp.{TcpSocket, ConnectionState, SendResult, healthy, pending_bytes}
use trade_system.Wire.Orders.{encode_request, decode_response}

-- `ResponseSize`
abbrev pub response_size : ℕ
response_size = 79

pub record OrderGateway : Type 0 where
  pub client_id : ℕ
  pub session_epoch : ℕ
  pub session_healthy : Bool
  pub outgoing_requests : LfQueue ClientRequest
  pub incoming_responses : LfQueue ClientResponse
  pub run : Bool
  pub next_outgoing_seq_num : ℕ
  pub next_exp_seq_num : ℕ
  pub tcp_socket : TcpSocket
  pub pending_requests : ℕ
  pub last_receive : ℕ

-- `++` on a 64-bit number.
abbrev pub increment : ℕ → ℕ
increment n = (n + 1) % 2 ^ 64

-- After a frame that does not fit the session nothing more is guessed.
abbrev pub break_session : OrderGateway → OrderGateway
break_session g = record g {
  session_healthy = false;
  tcp_socket = record (g.tcp_socket) { state = ConnectionState.error };
}

-- The types from ACCEPTED to STATE.
abbrev pub is_response : ClientResponseType → Bool
is_response ClientResponseType.invalid = false
is_response (ClientResponseType.other b) = false
is_response _ = true

abbrev pub is_filled : ClientResponseType → Bool
is_filled ClientResponseType.filled = true
is_filled _ = false

abbrev pub is_bad_fill : ClientResponse → Bool
is_bad_fill r =
    leb max_tickers r.ticker_id
    || not (is_buy r.side) && not (is_sell r.side)
    || r.exec_qty == 0
    || r.response_id == 0
    || ltb int32_max r.exec_qty
    || not (ltb_ℤ (pos 0) r.price)
    || price_eq r.price price_invalid

abbrev pub is_sound : ClientResponse → Bool
is_sound r = is_response r.type && not (is_filled r.type && is_bad_fill r)

-- The rejections that close the session.
abbrev pub ends_session : RejectReason → Bool
ends_session RejectReason.identity = true
ends_session RejectReason.sequence = true
ends_session RejectReason.session = true
ends_session RejectReason.version = true
ends_session _ = false

-- The end of a round: the response is in the queue `q`.
abbrev pub delivered : OrderGateway → ℕ → ClientResponse → LfQueue ClientResponse → OrderGateway
delivered g now r q = record g {
  incoming_responses = q;
  session_healthy = if ends_session r.reject_reason then false else g.session_healthy;
  last_receive = now;
  pending_requests =
      if not (is_filled r.type) && not (g.pending_requests == 0)
      then g.pending_requests - 1
      else g.pending_requests;
  next_exp_seq_num = increment g.next_exp_seq_num;
}

-- A frame with the expected number; `true` says that the frame is dealt with.
unfoldable pub deliver : OrderGateway → ℕ → ClientResponse → Bool × OrderGateway
deliver g now r =
    let pushed = LfQueue.try_push g.incoming_responses r in
    if not (is_sound r)
    then (false, break_session g)
    else if pushed.0
    then (true, delivered g now r pushed.1)
    else (false, record g { incoming_responses = pushed.1 })

-- One frame of `recvCallback`, decoded.
abbrev pub on_frame : OrderGateway → ℕ → Option SequencedResponse → Bool × OrderGateway
on_frame g now none = (false, break_session g)
on_frame g now (some m) =
    if not (m.session_epoch == g.session_epoch) || not (m.response.client_id == g.client_id)
    then (false, break_session g)
    else if ltb m.seq_num g.next_exp_seq_num
    then (true, g)
    else if not (m.seq_num == g.next_exp_seq_num)
    then (false, break_session g)
    else deliver g now m.response

-- The loop over the frames of the buffer, whose unread part is `input`.
unfoldable pub frames : ℕ → OrderGateway → ℕ → List ℕ → Outcome (OrderGateway × List ℕ)
unfolding deliver
frames zero g now input = out_of_fuel
frames (suc fuel) g now input = if ltb (length input) response_size then done (g, input) else do
  m ← decode_response (take response_size input)
  let x = on_frame g now m
  if not x.0 then done (x.1, input) else frames fuel x.1 now (drop response_size input)

-- What is left moves to the front of the buffer.
abbrev pub keep_rest : OrderGateway × List ℕ → Outcome OrderGateway
keep_rest (g, rest) = done (record g { tcp_socket = record (g.tcp_socket) { inbound_data = rest } })

-- `recvCallback`
unfoldable pub recv_callback : OrderGateway → ℕ → Outcome OrderGateway
recv_callback g now =
    let input = g.tcp_socket.inbound_data in frames (suc (length input)) g now input >>= keep_rest

-- The callback as `sendAndRecv` of the gateway's own socket makes it.
abbrev pub on_socket : OrderGateway → TcpSocket → ℕ → Outcome (OrderGateway × TcpSocket)
on_socket g s now = recv_callback (record g { tcp_socket = s }) now >>= λ h. done (h, h.tcp_socket)

-- The frame of a request, and what follows `send`.
abbrev pub message : OrderGateway → ClientRequest → SequencedRequest
message g r = record {
  seq_num = g.next_outgoing_seq_num;
  request = r;
  session_epoch = g.session_epoch;
}

abbrev pub requested : OrderGateway → SendResult × TcpSocket → Outcome (Bool × OrderGateway)
requested g (SendResult.accepted, t) = do
  q ← LfQueue.pop g.outgoing_requests
  done (
    true,
    record g {
      tcp_socket = t;
      outgoing_requests = q;
      next_outgoing_seq_num = increment g.next_outgoing_seq_num;
      pending_requests = increment g.pending_requests;
    },
  )
requested g (SendResult.full, t) = done (false, g)
requested g (SendResult.invalid, t) = fault

unfoldable pub request : OrderGateway → Option ClientRequest → Outcome (Bool × OrderGateway)
request g none = done (false, g)
request g (some r) = requested g (Tcp.send g.tcp_socket (encode_request (message g r)))

-- The loop over the outgoing requests.
unfoldable pub request_all : ℕ → OrderGateway → Outcome OrderGateway
unfolding request
request_all zero g = out_of_fuel
request_all (suc fuel) g = do
  (ok, g) ← request g (LfQueue.peek g.outgoing_requests)
  if ok then request_all fuel g else done g

-- The rest of a round of `run` after the network: a session in doubt sends nothing more.
unfoldable pub run_round : ℕ → OrderGateway → Outcome OrderGateway
run_round fuel g =
    if not (healthy g.tcp_socket) || not g.session_healthy
    then done (record g { session_healthy = false; run = false })
    else request_all fuel g

-- Whether `run` goes on: `quiet` tells that the last response is long enough ago.
abbrev pub goes_on : OrderGateway → Bool → Bool
goes_on g quiet =
    g.run
    || not (g.outgoing_requests.head == g.outgoing_requests.tail)
    || not (pending_bytes g.tcp_socket == 0)
    || not (g.pending_requests == 0)
    || not quiet
