-- ===== src/OrderServer.antt =====
-- exchange/order_server/order_server.h and order_server.cpp: the entrance of the exchange. Sockets
-- are numbers, with their state in a map. The audit journal, the log, the clock with its deadlines
-- and the threads are left out; the counts of frames, which are only shown, have no upper end.
pub mod Returning
pub mod Rejecting
pub mod Binding
pub mod Bound
pub mod Admission
pub mod Responses
pub mod Receiving
mod Tests
use trade_system.Common.{
  ℕ, zero, suc, ◌+◌, ◌-◌, ◌%◌, ◌^◌, ◌==◌, ◌&&◌, ◌||◌, not, ltb, leb, if◌then◌else◌, Bool, true,
  false, List, [], ◌∷◌, ◌++◌, length, take, drop, Option, none, some, update, Outcome, done, fault,
  out_of_fuel, ◌>>=◌, ◌>>◌, assert, deref,
}
use trade_system.Common.Int.{ℤ, pos}
use trade_system.Types.{
  Side, order_id_invalid, ticker_id_invalid, client_id_invalid, price_invalid, qty_invalid,
  max_num_clients,
}
use trade_system.Messages.{
  ClientRequest, ClientRequestType, ClientResponse, ClientResponseType, RejectReason,
  SequencedRequest, SequencedResponse,
}
use trade_system.LfQueue
use trade_system.LfQueue.{LfQueue}
use trade_system.Sequencer.{
  Sequencer, TimedRequest, add_client_request, can_accept, sequence_and_publish,
}
use trade_system.Tcp
use trade_system.Tcp.{TcpSocket, SendResult, healthy}
use trade_system.Wire.Orders.{decode_request, encode_response}
use trade_system.Wire.Validate.{validate, is_query}

-- `RequestSize`
abbrev pub request_size : ℕ
request_size = 50

pub record OrderServer : Type 0 where
  pub sockets : ℕ → TcpSocket
  pub cid_next_outgoing_seq_num : ℕ → ℕ
  pub cid_next_exp_seq_num : ℕ → ℕ
  pub cid_tcp_socket : ℕ → Option ℕ
  pub cid_session_epoch : ℕ → ℕ
  pub cid_session_unknown : ℕ → Bool
  pub anonymous_sequences : ℕ → Option ℕ
  pub socket_client : ℕ → Option ℕ
  pub accepted_frames : ℕ
  pub rejected_frames : ℕ
  pub fifo_sequencer : Sequencer
  pub outgoing_responses : LfQueue ClientResponse
  pub accepting : Bool
  pub quiesced : Bool

-- The constructor, over the queues it borrows.
abbrev pub create : (ℕ → TcpSocket) → LfQueue ClientRequest → LfQueue ClientResponse → OrderServer
create sockets requests responses = record {
  sockets = sockets;
  cid_next_outgoing_seq_num = λ _. 1;
  cid_next_exp_seq_num = λ _. 1;
  cid_tcp_socket = λ _. none;
  cid_session_epoch = λ _. 0;
  cid_session_unknown = λ _. false;
  anonymous_sequences = λ _. none;
  socket_client = λ _. none;
  accepted_frames = 0;
  rejected_frames = 0;
  fifo_sequencer = record { pending = []; incoming_requests = requests };
  outgoing_responses = responses;
  accepting = true;
  quiesced = false;
}

-- `++` on a 64-bit number.
abbrev pub increment : ℕ → ℕ
increment n = (n + 1) % 2 ^ 64

abbrev pub is_none : RejectReason → Bool
is_none RejectReason.none_ = true
is_none _ = false

abbrev pub value_or : ℕ → Option ℕ → ℕ
value_or d none = d
value_or d (some n) = n

-- A pointer that is not null, and not the given one; a client that is bound, and not to this one.
abbrev pub is_other : ℕ → Option ℕ → Bool
is_other k none = false
is_other k (some o) = not (o == k)

abbrev pub is_set : Option ℕ → Bool
is_set none = false
is_set (some o) = true

-- `anonymous_sequences_.try_emplace(socket, 1)`
abbrev pub anonymous : OrderServer → ℕ → ℕ
anonymous s k = value_or 1 (s.anonymous_sequences k)

abbrev pub emplace_anonymous : OrderServer → ℕ → OrderServer
emplace_anonymous s k = record s {
  anonymous_sequences = update s.anonymous_sequences k (some (anonymous s k));
}

-- The client's connection is lost, and another one asks with a query of the same session.
abbrev pub may_take_over : OrderServer → ℕ → SequencedRequest → Bool
may_take_over s owner q =
    not (healthy (s.sockets owner))
    && is_query q.request.type
    && q.session_epoch == s.cid_session_epoch q.request.client_id

abbrev pub take_over : OrderServer → ℕ → SequencedRequest → OrderServer
take_over s k q =
    let c = q.request.client_id in
    record s {
      cid_tcp_socket = update s.cid_tcp_socket c (some k);
      socket_client = update s.socket_client k (some c);
      cid_session_unknown = update s.cid_session_unknown c true;
      cid_next_exp_seq_num = update s.cid_next_exp_seq_num c q.seq_num;
      cid_next_outgoing_seq_num = update s.cid_next_outgoing_seq_num c 1;
    }

-- The connection that has the client's identity now.
abbrev pub check_owner : OrderServer → ℕ → SequencedRequest → Option ℕ → RejectReason × OrderServer
check_owner s k q none = (RejectReason.none_, s)
check_owner s k q (some owner) =
    if owner == k
    then (RejectReason.none_, s)
    else if may_take_over s owner q
    then (RejectReason.none_, take_over s k q)
    else (RejectReason.identity, s)

-- The session and its sequence number.
abbrev pub session_reason : OrderServer → SequencedRequest → RejectReason
session_reason s q =
    let c = q.request.client_id in
    if is_set (s.cid_tcp_socket c) && not (q.session_epoch == s.cid_session_epoch c)
    then RejectReason.session
    else if q.session_epoch == 0
    then RejectReason.session
    else if not (q.seq_num == s.cid_next_exp_seq_num c)
    then RejectReason.sequence
    else if s.cid_session_unknown c && not (is_query q.request.type)
    then RejectReason.session
    else RejectReason.none_

abbrev pub with_session : SequencedRequest → RejectReason × OrderServer → RejectReason × OrderServer
with_session q (r, s) = if is_none r then (session_reason s q, s) else (r, s)

-- The checks of a frame that could be decoded; a query may take the connection over.
unfoldable pub check_client : OrderServer → ℕ → SequencedRequest → RejectReason × OrderServer
check_client s k q =
    let c = q.request.client_id in
    if leb max_num_clients c
    then (RejectReason.invalid_id, s)
    else if is_other c (s.socket_client k)
    then (RejectReason.identity, s)
    else with_session q (check_owner s k q (s.cid_tcp_socket c))

-- The first good frame of a client binds it to its connection.
abbrev pub bind_new : OrderServer → ℕ → SequencedRequest → OrderServer
bind_new s k q =
    let c = q.request.client_id in
    record (emplace_anonymous s k) {
      cid_tcp_socket = update s.cid_tcp_socket c (some k);
      cid_session_epoch = update s.cid_session_epoch c q.session_epoch;
      socket_client = update s.socket_client k (some c);
      cid_next_outgoing_seq_num = update s.cid_next_outgoing_seq_num c (anonymous s k);
    }

abbrev pub bind_first : OrderServer → ℕ → SequencedRequest → OrderServer
bind_first s k q = if is_set (s.cid_tcp_socket q.request.client_id) then s else bind_new s k q

abbrev pub expect_next : OrderServer → ℕ → OrderServer
expect_next s c = record s {
  cid_next_exp_seq_num = update s.cid_next_exp_seq_num c (increment (s.cid_next_exp_seq_num c));
}

-- The response of `reject`, and the number it gets; it never names a client that the connection is
-- not bound to.
abbrev pub rejection : OrderServer → ℕ → ClientRequest → RejectReason → ClientResponse
rejection s k r reason = record {
  type = ClientResponseType.rejected;
  client_id = value_or r.client_id (s.socket_client k);
  ticker_id = r.ticker_id;
  client_order_id = r.order_id;
  market_order_id = order_id_invalid;
  side = r.side;
  price = r.price;
  exec_qty = 0;
  leaves_qty = 0;
  reject_reason = reason;
  response_id = 0;
  position = pos 0;
}

abbrev pub reject_sequence : OrderServer → ℕ → Option ℕ → ℕ
reject_sequence s k none = anonymous s k
reject_sequence s k (some c) = s.cid_next_outgoing_seq_num c

abbrev pub reject_counted : OrderServer → ℕ → Option ℕ → OrderServer
reject_counted s k none = record s {
  anonymous_sequences = update s.anonymous_sequences k (some (increment (anonymous s k)));
  rejected_frames = s.rejected_frames + 1;
}
reject_counted s k (some c) = record s {
  cid_next_outgoing_seq_num =
      update s.cid_next_outgoing_seq_num c (increment (s.cid_next_outgoing_seq_num c));
  rejected_frames = s.rejected_frames + 1;
}

-- A reference to the anonymous number makes its entry.
abbrev pub reject_entry : OrderServer → ℕ → Option ℕ → OrderServer
reject_entry s k none = emplace_anonymous s k
reject_entry s k (some c) = s

abbrev pub set_socket : OrderServer → ℕ → TcpSocket → OrderServer
set_socket s k t = record s { sockets = update s.sockets k t }

abbrev pub reject_message : OrderServer → ℕ → SequencedRequest → RejectReason → SequencedResponse
reject_message s k q reason = record {
  seq_num = reject_sequence s k (s.socket_client k);
  response = rejection s k q.request reason;
  session_epoch = q.session_epoch;
}

-- The end of `reject`, by the answer of `send`.
abbrev pub rejected : OrderServer → ℕ → SendResult × TcpSocket → Outcome (Bool × OrderServer)
rejected s k (SendResult.accepted, t) =
    done (true, reject_counted (set_socket s k t) k (s.socket_client k))
rejected s k (SendResult.full, t) = done (false, s)
rejected s k (SendResult.invalid, t) = fault

-- `reject`
unfoldable pub reject :
    OrderServer → ℕ → SequencedRequest → RejectReason → Outcome (Bool × OrderServer)
reject s k q reason =
    rejected (reject_entry s k (s.socket_client k)) k
      (Tcp.send (s.sockets k) (encode_response (reject_message s k q reason)))

-- A frame with bad fields is answered, and uses up its number.
abbrev pub after_reject : ℕ → Bool × OrderServer → Bool × OrderServer
after_reject c (ok, s) = (ok, if ok then expect_next s c else s)

unfoldable pub refuse_fields :
    OrderServer → ℕ → SequencedRequest → RejectReason → Outcome (Bool × OrderServer)
unfolding reject
refuse_fields s k q reason =
    reject (bind_first s k q) k q reason >>= λ x. done (after_reject q.request.client_id x)

-- The end of the accepting branch: the request is in the sequencer.
abbrev pub accepted : OrderServer → ℕ → SequencedRequest → Sequencer → OrderServer
accepted s k q f =
    let b = bind_first (record s { fifo_sequencer = f }) k q in
    record (expect_next b q.request.client_id) { accepted_frames = s.accepted_frames + 1 }

unfoldable pub accept : OrderServer → ℕ → ℕ → SequencedRequest → Outcome (Bool × OrderServer)
accept s k rx_time q = if not (can_accept s.fifo_sequencer) then done (false, s) else do
  let added = add_client_request s.fifo_sequencer rx_time q.request
  assert added.0
  done (true, accepted s k q added.1)

-- The three branches for a frame with its reason; `true` says that the frame is dealt with, and
-- `false` that it stays in the buffer.
abbrev pub dispatch :
    ℕ → ℕ → SequencedRequest → RejectReason × OrderServer → Outcome (Bool × OrderServer)
dispatch k rx_time q (reason, s) =
    let invalid = validate q.request in
    if is_none reason && not (is_none invalid)
    then refuse_fields s k q invalid
    else if not (is_none reason)
    then reject s k q reason
    else accept s k rx_time q

-- The request as it is before it is decoded.
abbrev pub blank_request : SequencedRequest
blank_request = record {
  seq_num = 0;
  request = record {
    type = ClientRequestType.invalid;
    client_id = client_id_invalid;
    ticker_id = ticker_id_invalid;
    order_id = order_id_invalid;
    side = Side.invalid;
    price = price_invalid;
    qty = qty_invalid;
    session_epoch = 0;
    request_seq = 0;
  };
  session_epoch = 0;
}

abbrev pub process_decoded :
    OrderServer → ℕ → ℕ → Option SequencedRequest → Outcome (Bool × OrderServer)
process_decoded s k rx_time none = dispatch k rx_time blank_request (RejectReason.version, s)
process_decoded s k rx_time (some q) = dispatch k rx_time q (check_client s k q)

-- One frame of `recvCallback`.
unfoldable pub process_frame : OrderServer → ℕ → ℕ → List ℕ → Outcome (Bool × OrderServer)
unfolding check_client refuse_fields accept
process_frame s k rx_time frame = decode_request frame >>= process_decoded s k rx_time

-- The loop over the frames of the buffer, whose unread part is `input`.
unfoldable pub frames : ℕ → OrderServer → ℕ → ℕ → List ℕ → Outcome (OrderServer × List ℕ)
unfolding process_frame
frames zero s k rx_time input = out_of_fuel
frames (suc fuel) s k rx_time input =
    if ltb (length input) request_size then done (s, input) else do
      (ok, s) ← process_frame s k rx_time (take request_size input)
      if not ok then done (s, input) else frames fuel s k rx_time (drop request_size input)

-- `recvCallback`: what is left moves to the front of the buffer.
unfoldable pub recv_callback : OrderServer → ℕ → ℕ → Outcome OrderServer
unfolding frames
recv_callback s k rx_time = if not s.accepting then done s else do
  let input = (s.sockets k).inbound_data
  (s, rest) ← frames (suc (length input)) s k rx_time input
  done (set_socket s k (record (s.sockets k) { inbound_data = rest }))

-- The callback as `sendAndRecv` of the socket `k` makes it.
abbrev pub on_socket : ℕ → OrderServer → TcpSocket → ℕ → Outcome (OrderServer × TcpSocket)
on_socket k s t rx_time = recv_callback (set_socket s k t) k rx_time >>= λ u. done (u, u.sockets k)

-- `recvFinishedCallback`
abbrev pub recv_finished_callback : OrderServer → OrderServer
recv_finished_callback s = record s { fifo_sequencer = sequence_and_publish s.fifo_sequencer }
