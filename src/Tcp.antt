-- ===== src/Tcp.antt =====
-- common/tcp_socket.h and common/tcp_socket.cpp: a connection with its two buffers. What the kernel
-- answers is a parameter: `answer i n` is what its call number `i` of a round says to an offer of
-- `n` bytes. A buffer is a memory by position; `memmove` and `memcpy` write into it.
pub mod Buffer
pub mod Sending
pub mod Receiving
mod Tests
use trade_system.Common.{
  ℕ, zero, suc, ◌+◌, ◌-◌, ◌==◌, ◌||◌, not, ltb, if◌then◌else◌, Bool, true, false, List, [], ◌∷◌,
  ◌++◌, length, update, Outcome, done, ◌>>=◌,
}

-- `ConnectionState` and `SendResult`
pub data ConnectionState : Type 0 where
  connecting open_ peer_closed error : ConnectionState

pub data SendResult : Type 0 where
  accepted full invalid : SendResult

-- `TCPSocket`: `capacity` is the size of both buffers, and of the inbound one only the valid part
-- is kept.
pub record TcpSocket : Type 0 where
  pub has_fd : Bool
  pub capacity : ℕ
  pub outbound_data : ℕ → ℕ
  pub send_begin : ℕ
  pub next_send_valid_index : ℕ
  pub inbound_data : List ℕ
  pub state : ConnectionState
  pub last_error : ℕ
  pub sent_bytes : ℕ
  pub received_bytes : ℕ
  pub send_would_block : ℕ
  pub last_receive_time : ℕ

abbrev pub is_open : ConnectionState → Bool
is_open ConnectionState.open_ = true
is_open _ = false

-- `healthy` and `pending_bytes`
abbrev pub healthy : TcpSocket → Bool
healthy s = is_open s.state

abbrev pub pending_bytes : TcpSocket → ℕ
pending_bytes s = s.next_send_valid_index

-- `memmove` of `n` bytes to the front, and `memcpy` of some bytes.
abbrev pub move_front : (ℕ → ℕ) → ℕ → ℕ → ℕ → ℕ
move_front m begin n j = if ltb j n then m (begin + j) else m j

abbrev pub copy : (ℕ → ℕ) → ℕ → List ℕ → ℕ → ℕ
copy m at_ [] = m
copy m at_ (x ∷ xs) = copy (update m at_ x) (at_ + 1) xs

-- `n` bytes from a position on.
abbrev pub read : (ℕ → ℕ) → ℕ → ℕ → List ℕ
read m begin zero = []
read m begin (suc n) = m begin ∷ read m (begin + 1) n

-- The buffer is pushed to the front when the new bytes do not fit behind the old ones.
abbrev pub make_room : TcpSocket → ℕ → TcpSocket
make_room s n =
    if ltb s.capacity (s.send_begin + s.next_send_valid_index + n)
    then record s {
      outbound_data = move_front s.outbound_data s.send_begin s.next_send_valid_index;
      send_begin = 0;
    }
    else s

abbrev pub append : TcpSocket → List ℕ → TcpSocket
append s data_ = record s {
  outbound_data = copy s.outbound_data (s.send_begin + s.next_send_valid_index) data_;
  next_send_valid_index = s.next_send_valid_index + length data_;
}

-- `send`
unfoldable pub send : TcpSocket → List ℕ → SendResult × TcpSocket
send s data_ =
    if not (healthy s) || length data_ == 0
    then (SendResult.invalid, s)
    else if ltb (s.capacity - s.next_send_valid_index) (length data_)
    then (SendResult.full, s)
    else (SendResult.accepted, append (make_room s (length data_)) data_)

-- What `::send` says: so many bytes are written, or `EINTR`, `EAGAIN`, another error.
pub data SendAnswer : Type 0 where
  wrote : ℕ → SendAnswer
  interrupted would_block : SendAnswer
  failed : ℕ → SendAnswer

-- `EPIPE`
abbrev pub broken_pipe : ℕ
broken_pipe = 32

abbrev pub advance : TcpSocket → ℕ → TcpSocket
advance s n = record s {
  send_begin = s.send_begin + n;
  next_send_valid_index = s.next_send_valid_index - n;
  sent_bytes = s.sent_bytes + n;
}

abbrev pub fail : TcpSocket → ℕ → TcpSocket
fail s e = record s { last_error = e; state = ConnectionState.error }

-- What a round of sending comes to: whether it goes on, the socket, and the bytes that the kernel
-- took.
pub record Flushed : Type 0 where
  pub ok : Bool
  pub socket : TcpSocket
  pub taken : List ℕ

-- One round: `write n` is the rest of the loop after `n` bytes, and `again` the rest as it is.
abbrev pub on_answer : TcpSocket → (ℕ → Flushed) → Flushed → SendAnswer → Flushed
on_answer s write again (SendAnswer.wrote zero) = record {
  ok = false;
  socket = fail s broken_pipe;
  taken = [];
}
on_answer s write again (SendAnswer.wrote (suc n)) =
    let rest = write (suc n) in
    record {
      ok = rest.ok;
      socket = rest.socket;
      taken = read s.outbound_data s.send_begin (suc n) ++ rest.taken;
    }
on_answer s write again SendAnswer.interrupted = again
on_answer s write again SendAnswer.would_block = record {
  ok = true;
  socket = record s { send_would_block = s.send_would_block + 1 };
  taken = [];
}
on_answer s write again (SendAnswer.failed e) = record { ok = false; socket = fail s e; taken = [] }

-- An empty buffer starts at the front again.
abbrev pub rewind : TcpSocket → TcpSocket
rewind s = if s.next_send_valid_index == 0 then record s { send_begin = 0 } else s

module _ (answer : ℕ → ℕ → SendAnswer) where
  -- The loop of `flushSend` with `budget` attempts left.
  unfoldable pub flush_loop : ℕ → ℕ → TcpSocket → Flushed
  flush_loop zero call s = record { ok = true; socket = s; taken = [] }
  flush_loop (suc budget) call s =
      if s.next_send_valid_index == 0
      then record { ok = true; socket = s; taken = [] }
      else on_answer s (λ n. flush_loop budget (call + 1) (advance s n))
          (flush_loop budget (call + 1) s) (answer call s.next_send_valid_index)

  -- `flushSend`
  unfoldable pub flush_send : TcpSocket → Flushed
  unfolding flush_loop
  flush_send s =
      if not (healthy s) || not s.has_fd
      then record { ok = false; socket = s; taken = [] }
      else (let r = flush_loop 8 0 s in
          if r.ok
          then record { ok = healthy r.socket; socket = rewind r.socket; taken = r.taken }
          else r)

-- What `recvmsg` says: bytes with their time stamp, the end of the stream, or an error as above.
pub data ReceiveAnswer : Type 0 where
  got : List ℕ → ℕ → ReceiveAnswer
  closed interrupted would_block : ReceiveAnswer
  failed : ℕ → ReceiveAnswer

abbrev pub deliver : TcpSocket → List ℕ → ℕ → TcpSocket
deliver s bytes time = record s {
  inbound_data = s.inbound_data ++ bytes;
  received_bytes = s.received_bytes + length bytes;
  last_receive_time = time;
}

-- The receiving side calls back into a client with the state `A`, which takes bytes off the front
-- of the inbound buffer.
module _ {ℓ} {A : Type ℓ} (recv_callback : A → TcpSocket → ℕ → Outcome (A × TcpSocket))
    (receive : ℕ → ℕ → ReceiveAnswer) where
  -- One round, with the rest of the loop; `got [] t` is no answer of a kernel, since the end of
  -- the stream is `closed`.
  abbrev pub on_received :
      A
      → TcpSocket
      → (A × TcpSocket → Outcome (A × TcpSocket))
      → ReceiveAnswer
      → Outcome (A × TcpSocket)
  on_received a s next (ReceiveAnswer.got bytes time) =
      recv_callback a (deliver s bytes time) time >>= next
  on_received a s next ReceiveAnswer.closed =
      done (a, record s { state = ConnectionState.peer_closed })
  on_received a s next ReceiveAnswer.interrupted = next (a, s)
  on_received a s next ReceiveAnswer.would_block = done (a, s)
  on_received a s next (ReceiveAnswer.failed e) = done (a, fail s e)

  -- The loop over `recvmsg` with `budget` attempts left.
  unfoldable pub receive_loop : ℕ → ℕ → A × TcpSocket → Outcome (A × TcpSocket)
  receive_loop zero call (a, s) = done (a, s)
  receive_loop (suc budget) call (a, s) =
      if not (healthy s) || length s.inbound_data == s.capacity
      then done (a, s)
      else on_received a s (λ x. receive_loop budget (call + 1) x)
          (receive call (s.capacity - length s.inbound_data))

  -- What is in the buffer is tried again before anything new is received.
  abbrev pub retry : A → TcpSocket → Outcome (A × TcpSocket)
  retry a s =
      if length s.inbound_data == 0 then done (a, s) else recv_callback a s s.last_receive_time

  -- `sendAndRecv`
  unfoldable pub send_and_recv :
      (ℕ → ℕ → SendAnswer) → A → TcpSocket → Outcome (A × TcpSocket × List ℕ)
  unfolding flush_send receive_loop
  send_and_recv answer a s =
      let f = flush_send answer s in
      if not f.ok
      then done (a, f.socket, f.taken)
      else do (a, s) ← retry a f.socket; (a, s) ← receive_loop 8 0 (a, s); done (a, s, f.taken)
