-- ===== src/Multicast.antt =====
-- common/mcast_socket.h and common/mcast_socket.cpp: datagrams. What the kernel answers is a
-- parameter; an error that it does not expect ends the process.
pub mod Datagrams
use trade_system.Common.{
  ℕ, ◌+◌, ◌==◌, ◌||◌, not, ltb, if◌then◌else◌, Bool, true, false, List, [], ◌∷◌, ◌++◌, length,
  Outcome, done, fault, ◌>>=◌,
}

-- `MaxMcastDatagram` and `McastBufferSize`
abbrev pub max_datagram : ℕ
max_datagram = 1400

abbrev pub buffer_size : ℕ
buffer_size = 65536

-- `McastSocket`: the valid parts of its two buffers.
pub record McastSocket : Type 0 where
  pub has_fd : Bool
  pub outbound_data : List ℕ
  pub inbound_data : List ℕ
  pub receive_fault : Bool
  pub truncated_datagrams : ℕ
  pub send_retries : ℕ
  pub sent_bytes : ℕ
  pub received_bytes : ℕ

-- What `::send` says to a datagram: all of it is written, not now, or anything else.
pub data SendAnswer : Type 0 where
  all_sent not_now other : SendAnswer

-- What `recvmsg` says: no datagram, or one of the given length, cut or not, with the bytes that are
-- in the buffer.
pub data Receipt : Type 0 where
  nothing : Receipt
  datagram : List ℕ → ℕ → Bool → Receipt

-- What the kernel says in one call of `sendAndRecv`.
pub record Answers : Type 0 where
  pub sending : SendAnswer
  pub receiving : Receipt

-- The sending half of `sendAndRecv`, with the datagrams that went out.
unfoldable pub flush : SendAnswer → McastSocket → Outcome (McastSocket × List (List ℕ))
flush answer s = if length s.outbound_data == 0 then done (s, []) else elim answer [
  | SendAnswer.all_sent ↦ done (
    record s { sent_bytes = s.sent_bytes + length s.outbound_data; outbound_data = [] },
    s.outbound_data ∷ [],
  )
  | SendAnswer.not_now ↦ done (record s { send_retries = s.send_retries + 1 }, [])
  | SendAnswer.other ↦ fault
]

-- The receiving half: a datagram that is cut, or too long, is not passed on.
abbrev pub received : McastSocket → Receipt → Bool × McastSocket
received s Receipt.nothing = (false, s)
received s (Receipt.datagram bytes size cut) =
    if size == 0
    then (false, s)
    else if cut || ltb buffer_size size
    then (
      true,
      record s {
        receive_fault = true;
        inbound_data = [];
        truncated_datagrams = s.truncated_datagrams + 1;
      },
    )
    else (
      true,
      record s {
        receive_fault = false;
        inbound_data = bytes;
        received_bytes = s.received_bytes + size;
      },
    )

-- `sendAndRecv`: whether a datagram came in, the socket, and the datagrams that went out. The socket
-- that is given back with `true` is the one that the receive callback is called with; a socket that
-- sends has none.
unfoldable pub send_and_recv : Answers → McastSocket → Outcome (Bool × McastSocket × List (List ℕ))
unfolding flush
send_and_recv answers s = if not s.has_fd then done (false, s, []) else do
  (s, gone) ← flush answers.sending s
  let (came, s) = received s answers.receiving
  done (came, s, gone)

-- `send` of a socket without a receive callback, with the answers to the call of `sendAndRecv` that
-- it may make.
unfoldable pub send : Answers → McastSocket → List ℕ → Outcome (Bool × McastSocket × List (List ℕ))
unfolding send_and_recv
send answers s data_ =
    if length data_ == 0 || ltb max_datagram (length data_) then done (false, s, []) else do
      (_, s, gone) ←
          if ltb max_datagram (length s.outbound_data + length data_)
          then send_and_recv answers s
          else done (false, s, [])
      if ltb max_datagram (length s.outbound_data + length data_)
          then done (false, s, gone)
          else done (true, record s { outbound_data = s.outbound_data ++ data_ }, gone)
