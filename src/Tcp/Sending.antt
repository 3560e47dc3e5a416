-- ===== src/Tcp/Sending.antt =====
-- The outbound buffer as a queue of bytes: `send` appends a message whole or not at all, and
-- `flushSend` takes bytes off the front.
use trade_system.Common.{
  ℕ, zero, suc, ◌+◌, ◌-◌, ◌≤◌, ◌≡◌, ◌∙◌, refl, ap, sym, List, [], ◌++◌, length, arith, ltb, leb,
  if◌then◌else◌, ◌==◌, ◌&&◌, ◌||◌, not, Bool, true, false, Bool-cases, inl, inr, append_assoc,
  append-nil, if_both, length-append,
}
use trade_system.Tcp.{
  TcpSocket, SendResult, SendAnswer, Flushed, healthy, send, append, make_room, read, flush_loop,
  flush_send, advance, rewind, on_answer,
}
use trade_system.Tcp.Buffer.{read-append, read-append_copy, read-move_front}

-- The bytes that wait to be sent.
abbrev pub pending : TcpSocket → List ℕ
pending s = read s.outbound_data s.send_begin s.next_send_valid_index

-- They lie within the buffer.
abbrev pub IsWithin : TcpSocket → Type 0
IsWithin s = s.send_begin + s.next_send_valid_index ≤ s.capacity

-- When a message is taken.
abbrev pub has_room : TcpSocket → List ℕ → Bool
has_room s data_ =
    healthy s && not (length data_ == 0) && leb (s.next_send_valid_index + length data_) s.capacity

abbrev pub is_accepted : SendResult → Bool
is_accepted SendResult.accepted = true
is_accepted _ = false

make_room_lem :
    (s : TcpSocket) (n : ℕ)
    → IsWithin s
    → s.next_send_valid_index + n ≤ s.capacity
    → ((make_room s n).send_begin + s.next_send_valid_index + n ≤ s.capacity)
      × (read (make_room s n).outbound_data (make_room s n).send_begin s.next_send_valid_index
          ≡ pending s)
      × ((make_room s n).next_send_valid_index ≡ s.next_send_valid_index)
      × ((make_room s n).capacity ≡ s.capacity)
make_room_lem s n w h =
    elim (Bool-cases (ltb s.capacity (s.send_begin + s.next_send_valid_index + n))) [
      | inl e ↦ rw (e) (
        omega (arith, h),
        read-move_front s.outbound_data s.send_begin s.next_send_valid_index,
        refl,
        refl,
      )
      | inr e ↦ rw (e) (ground (arith, e), refl, refl, refl)
    ]

placed :
    (s : TcpSocket) (data_ : List ℕ)
    → pending (append (make_room s (length data_)) data_)
      ≡ pending (make_room s (length data_)) ++ data_
placed s data_ =
    let r = make_room s (length data_) in
    read-append_copy r.outbound_data r.send_begin r.next_send_valid_index data_

-- `send` keeps the bytes within the buffer, takes a message exactly if the connection is open and
-- the message is not empty and fits beside what waits, then puts it behind that, and else changes
-- nothing.
pub send-pending :
    (s : TcpSocket) (data_ : List ℕ)
    → IsWithin s
    → IsWithin (send s data_).1
      × (is_accepted (send s data_).0 ≡ has_room s data_)
      × (pending (send s data_).1 ≡ pending s ++ (if has_room s data_ then data_ else []))
      × (has_room s data_ ≡ false → (send s data_).1 ≡ s)
unfolding send
send-pending s data_ w = elim (Bool-cases (not (healthy s) || length data_ == 0)) [
  | inl e ↦
      let no : has_room s data_ ≡ false = ground (arith, e) in
      rw (e, no) (w, refl, sym (append-nil (pending s)), λ _. refl)
  | inr e ↦ elim (Bool-cases (ltb (s.capacity - s.next_send_valid_index) (length data_))) [
    | inl f ↦
        let no : has_room s data_ ≡ false = ground (arith, e, f) in
        rw (e, f, no) (w, refl, sym (append-nil (pending s)), λ _. refl)
    | inr f ↦
        let yes : has_room s data_ ≡ true = ground (arith, e, f) in
        let (a, b, c, d) = make_room_lem s (length data_) w (ground (arith, w, f)) in
        rw (e, f, yes)
          (
            omega (arith, a, c, d),
            refl,
            placed s data_
                ∙ ap (λ xs. xs ++ data_)
                    (ap
                        (read (make_room s (length data_)).outbound_data
                          (make_room s (length data_)).send_begin)
                        c
                      ∙ b),
            λ x. cc,
          )
  ]
]

-- A kernel writes no more than it is offered.
abbrev pub IsKernel : (ℕ → ℕ → SendAnswer) → Type 0
IsKernel answer = (i n m : ℕ) → answer i n ≡ SendAnswer.wrote m → m ≤ n

-- What the kernel took, with what still waits, is what waited before; the count of sent bytes
-- has grown by the bytes taken.
pub record Sent (s : TcpSocket) (f : Flushed) : Type 0 where
  pub within : IsWithin f.socket
  pub kept : f.taken ++ pending f.socket ≡ pending s
  pub counted : f.socket.sent_bytes ≡ s.sent_bytes + length f.taken
  pub inbound : f.socket.inbound_data ≡ s.inbound_data
  pub same_capacity : f.socket.capacity ≡ s.capacity

taken_front :
    (s : TcpSocket) (n : ℕ)
    → n ≤ s.next_send_valid_index
    → read s.outbound_data s.send_begin n ++ pending (advance s n) ≡ pending s
taken_front s n h =
    let whole : s.next_send_valid_index ≡ n + (s.next_send_valid_index - n) = omega (arith, h) in
    sym (read-append s.outbound_data s.send_begin n (s.next_send_valid_index - n))
    ∙ ap (read s.outbound_data s.send_begin) (sym whole)

length-read : (m : ℕ → ℕ) (b n : ℕ) → length (read m b n) ≡ n
length-read m b zero = refl
length-read m b (suc n) = ap suc (length-read m (b + 1) n)

-- Nothing is taken, and nothing but states and counts changes.
idle :
    (s : TcpSocket) (ok : Bool) → IsWithin s → Sent s (record { ok = ok; socket = s; taken = [] })
idle s ok w = record {
  within = w;
  kept = refl;
  counted = omega arith;
  inbound = refl;
  same_capacity = refl;
}

on_answer-Sent :
    (s : TcpSocket) (write : ℕ → Flushed) (again : Flushed) (x : SendAnswer)
    → IsWithin s
    → ((n : ℕ) → x ≡ SendAnswer.wrote n → n ≤ s.next_send_valid_index)
    → ((n : ℕ) → n ≤ s.next_send_valid_index → Sent (advance s n) (write n))
    → Sent s again
    → Sent s (on_answer s write again x)
on_answer-Sent s write again (SendAnswer.wrote zero) w k r i = record {
  within = w;
  kept = refl;
  counted = omega arith;
  inbound = refl;
  same_capacity = refl;
}
on_answer-Sent s write again (SendAnswer.wrote (suc n)) w k r i =
    let small = k (suc n) refl in
    let rest = r (suc n) small in
    let front = read s.outbound_data s.send_begin (suc n) in
    record {
      within = rest.within;
      kept =
          append_assoc front (write (suc n)).taken (pending (write (suc n)).socket)
          ∙ ap (λ xs. front ++ xs) rest.kept
          ∙ taken_front s (suc n) small;
      counted = omega (
        arith,
        rest.counted,
        length-append front (write (suc n)).taken,
        length-read s.outbound_data s.send_begin (suc n),
      );
      inbound = rest.inbound;
      same_capacity = rest.same_capacity;
    }
on_answer-Sent s write again SendAnswer.interrupted w k r i = i
on_answer-Sent s write again SendAnswer.would_block w k r i = record {
  within = w;
  kept = refl;
  counted = omega arith;
  inbound = refl;
  same_capacity = refl;
}
on_answer-Sent s write again (SendAnswer.failed e) w k r i = record {
  within = w;
  kept = refl;
  counted = omega arith;
  inbound = refl;
  same_capacity = refl;
}

rewind_lem :
    (s : TcpSocket)
    → IsWithin s
    → IsWithin (rewind s)
      × (pending (rewind s) ≡ pending s)
      × ((rewind s).sent_bytes ≡ s.sent_bytes)
      × ((rewind s).inbound_data ≡ s.inbound_data)
      × ((rewind s).capacity ≡ s.capacity)
rewind_lem s w = elim (Bool-cases (s.next_send_valid_index == 0)) [
  | inl e ↦
      let none_left : s.next_send_valid_index ≡ 0 = ground (arith, e) in
      rw (e) (
        omega (arith, w),
        ap (read s.outbound_data 0) none_left
            ∙ sym (ap (read s.outbound_data s.send_begin) none_left),
        refl,
        refl,
        refl,
      )
  | inr e ↦ rw (e) (w, refl, refl, refl, refl)
]

module _ (answer : ℕ → ℕ → SendAnswer) (kernel : IsKernel answer) where
  flush_loop-Sent :
      (budget call : ℕ) (s : TcpSocket) → IsWithin s → Sent s (flush_loop answer budget call s)
  unfolding flush_loop
  flush_loop-Sent zero call s w = idle s true w
  flush_loop-Sent (suc budget) call s w =
      if_both (Sent s) (s.next_send_valid_index == 0) (idle s true w) (
        on_answer-Sent s (λ n. flush_loop answer budget (call + 1) (advance s n))
          (flush_loop answer budget (call + 1) s) (answer call s.next_send_valid_index) w
          (λ n e. kernel call s.next_send_valid_index n e)
          (λ n h. flush_loop-Sent budget (call + 1) (advance s n) (omega (arith, w, h)))
          (flush_loop-Sent budget (call + 1) s w))

  -- `flushSend`, whatever a kernel answers that writes no more than it is offered: the bytes that
  -- the kernel took and those that still wait are, in their order, the bytes that waited before;
  -- they stay within the buffer, the count of sent bytes grows by those taken, and what has been
  -- received is not touched.
  pub flush_send-Sent : (s : TcpSocket) → IsWithin s → Sent s (flush_send answer s)
  unfolding flush_send
  flush_send-Sent s w = if_both (Sent s) (not (healthy s) || not s.has_fd) (idle s false w) (
      let r = flush_loop-Sent 8 0 s w in
      let (a, b, c, d, f) = rewind_lem (flush_loop answer 8 0 s).socket r.within in
      if_both (Sent s) (flush_loop answer 8 0 s).ok
        (record {
          within = a;
          kept = ap (λ xs. (flush_loop answer 8 0 s).taken ++ xs) b ∙ r.kept;
          counted = c ∙ r.counted;
          inbound = d ∙ r.inbound;
          same_capacity = f ∙ r.same_capacity;
        })
        r)

-- A healthy socket takes a frame or has no room, and only its outbound side changes.
abbrev pub Sendable : TcpSocket → SendResult × TcpSocket → Type 0
Sendable t (SendResult.invalid, u) = ⊥
Sendable t (r, u) =
    (healthy u ≡ true) × (u.inbound_data ≡ t.inbound_data) × (u.capacity ≡ t.capacity)

pub send-Sendable :
    (t : TcpSocket) (frame : List ℕ)
    → healthy t ≡ true
    → (length frame == 0) ≡ false
    → Sendable t (send t frame)
unfolding send
send-Sendable t frame h n =
    rw (h, n)
      (if_both (Sendable t) (ltb (t.capacity - t.next_send_valid_index) (length frame))
        (h, refl, refl) (room t frame h))
  where
    room :
        (t : TcpSocket) (frame : List ℕ)
        → healthy t ≡ true
        → Sendable t (SendResult.accepted, append (make_room t (length frame)) frame)
    room t frame h =
        elim (Bool-cases (ltb t.capacity (t.send_begin + t.next_send_valid_index + length frame))) [
          | inl e ↦ rw (e) (h, refl, refl)
          | inr e ↦ rw (e) (h, refl, refl)
        ]

-- What `send` gave.
pub record Offered (t : TcpSocket) (frame : List ℕ) (x : SendResult × TcpSocket) : Type 0 where
  pub taken : is_accepted x.0 ≡ has_room t frame
  pub within : IsWithin x.1
  pub appended : pending x.1 ≡ pending t ++ (if has_room t frame then frame else [])
  pub sendable : Sendable t x

pub offer :
    (t : TcpSocket) (frame : List ℕ)
    → healthy t ≡ true
    → IsWithin t
    → (length frame == 0) ≡ false
    → Offered t frame (send t frame)
offer t frame h w n =
    let (a, b, c, d) = send-pending t frame w in
    record { taken = b; within = a; appended = c; sendable = send-Sendable t frame h n }
