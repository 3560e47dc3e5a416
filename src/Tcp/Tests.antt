-- ===== src/Tcp/Tests.antt =====
-- A small connection, and the theorems about connections at concrete inputs.
use trade_system.Common.{ℕ, ◌+◌, ◌≡◌, refl, arith, [], ◌∷◌, ◌++◌, true, false, if◌then◌else◌, ◌==◌}
use trade_system.Tcp.{TcpSocket, ConnectionState, SendAnswer, send, flush_send, flush_loop}
use trade_system.Tcp.Sending.{
  IsWithin, IsKernel, Sent, pending, has_room, is_accepted, send-pending, flush_send-Sent,
}

-- Room for four bytes, of which the last two are in use.
abbrev link : TcpSocket
link = record {
  has_fd = true;
  capacity = 4;
  outbound_data = λ i. i + 60;
  send_begin = 2;
  next_send_valid_index = 2;
  inbound_data = 7 ∷ [];
  state = ConnectionState.open_;
  last_error = 0;
  sent_bytes = 0;
  received_bytes = 1;
  send_would_block = 0;
  last_receive_time = 0;
}

-- A message that fits only at the front of the buffer, after the bytes in use.
link_moves : pending (send link (1 ∷ 2 ∷ [])).1 ≡ 62 ∷ 63 ∷ 1 ∷ 2 ∷ []
unfolding send
link_moves = refl

-- A kernel that takes one byte, and then no more.
abbrev slow : ℕ → ℕ → SendAnswer
slow i n = if n == 2 then SendAnswer.wrote 1 else SendAnswer.would_block

slow-IsKernel : IsKernel slow
slow-IsKernel i n m e = ground (arith, e)

link_flush : (flush_send slow link).taken ≡ 62 ∷ []
unfolding flush_send flush_loop
link_flush = refl

send-pending_example :
    IsWithin (send link (1 ∷ 2 ∷ [])).1
    × (is_accepted (send link (1 ∷ 2 ∷ [])).0 ≡ has_room link (1 ∷ 2 ∷ []))
    × (pending (send link (1 ∷ 2 ∷ [])).1
        ≡ pending link ++ (if has_room link (1 ∷ 2 ∷ []) then 1 ∷ 2 ∷ [] else []))
    × (has_room link (1 ∷ 2 ∷ []) ≡ false → (send link (1 ∷ 2 ∷ [])).1 ≡ link)
send-pending_example = send-pending link (1 ∷ 2 ∷ []) (omega arith)

flush_send-Sent_example : Sent link (flush_send slow link)
flush_send-Sent_example = flush_send-Sent slow slow-IsKernel link (omega arith)
