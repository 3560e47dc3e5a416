-- ===== src/Tcp/Receiving.antt =====
-- `sendAndRecv` with a callback that keeps an invariant of its user: the bytes in the inbound buffer.
use trade_system.Common.{
  ℕ, zero, suc, ◌+◌, ◌-◌, ◌≤◌, ◌≡◌, refl, ap, length-append, arith, ◌==◌, ◌||◌, not, if_both, true,
  false, sym, ◌∙◌, Bool, Bool-cases, inl, inr, Outcome, Returns, Returns-bind, List, length,
}
use trade_system.Tcp.{
  TcpSocket, SendAnswer, ReceiveAnswer, healthy, deliver, on_received, receive_loop, retry,
  flush_send, flush_loop, send_and_recv,
}
use trade_system.Tcp.Sending.{IsWithin, IsKernel, flush_send-Sent}

abbrev pub IsBounded : TcpSocket → Type 0
IsBounded s = length s.inbound_data ≤ s.capacity

not_off : (b : Bool) → not b ≡ false → b ≡ true
not_off true h = refl
not_off false h = cc

-- A flush that goes well leaves the connection open.
flush_send-healthy :
    (answer : ℕ → ℕ → SendAnswer) (s : TcpSocket)
    → (flush_send answer s).ok ≡ true
    → healthy (flush_send answer s).socket ≡ true
unfolding flush_send
flush_send-healthy answer s h = elim (Bool-cases (not (healthy s) || not s.has_fd)) [
  | inl e ↦ let z : false ≡ true = (rw (e) at h) in cc
  | inr e ↦ elim (Bool-cases (flush_loop answer 8 0 s).ok) [
    | inl o ↦
        rw (e, o)
          (if_both (λ (t : TcpSocket). healthy t ≡ true)
            ((flush_loop answer 8 0 s).socket.next_send_valid_index == 0) (rw (e, o) at h)
            (rw (e, o) at h))
    | inr o ↦
        let taken : (flush_loop answer 8 0 s).ok ≡ true = (rw (e, o) at h) in
        let z : false ≡ true = sym o ∙ taken in cc
  ]
]

-- A user with the invariant `J`, whose callback on an open connection keeps it and leaves no more
-- bytes than the capacity.
module _ {ℓ} {A : Type ℓ} (J : A → Type 0)
    (recv_callback : A → TcpSocket → ℕ → Outcome (A × TcpSocket)) (receive : ℕ → ℕ → ReceiveAnswer)
    (takes : (a : A) (s : TcpSocket) (t : ℕ)
      → healthy s ≡ true
      → J a
      → IsBounded s
      → Returns (λ x. J x.0 × IsBounded x.1) (recv_callback a s t))
    (offers : (i n : ℕ) (bytes : List ℕ) (t : ℕ)
      → receive i n ≡ ReceiveAnswer.got bytes t
      → length bytes ≤ n) where
  abbrev Good : A × TcpSocket → Type 0
  Good x = J x.0 × IsBounded x.1

  on_received-Good :
      (a : A) (s : TcpSocket) (next : A × TcpSocket → Outcome (A × TcpSocket)) (r : ReceiveAnswer)
      → healthy s ≡ true
      → J a
      → IsBounded s
      → ((bytes : List ℕ) (t : ℕ)
          → r ≡ ReceiveAnswer.got bytes t
          → length bytes ≤ s.capacity - length s.inbound_data)
      → ((x : A × TcpSocket) → Good x → Returns Good (next x))
      → Returns Good (on_received recv_callback receive a s next r)
  on_received-Good a s next (ReceiveAnswer.got bytes time) o j b k n =
      Returns-bind Good Good (recv_callback a (deliver s bytes time) time) next
        (takes a (deliver s bytes time) time o j
          (omega (arith, b, k bytes time refl, length-append s.inbound_data bytes)))
        n
  on_received-Good a s next ReceiveAnswer.closed o j b k n = (j, b)
  on_received-Good a s next ReceiveAnswer.interrupted o j b k n = n (a, s) (j, b)
  on_received-Good a s next ReceiveAnswer.would_block o j b k n = (j, b)
  on_received-Good a s next (ReceiveAnswer.failed e) o j b k n = (j, b)

  receive_loop-Good :
      (budget call : ℕ) (x : A × TcpSocket)
      → Good x
      → Returns Good (receive_loop recv_callback receive budget call x)
  unfolding receive_loop
  receive_loop-Good zero call (a, s) g = g
  receive_loop-Good (suc budget) call (a, s) (j, b) =
      elim (Bool-cases (not (healthy s) || length s.inbound_data == s.capacity)) [
        | inl e ↦ rw (e) (j, b)
        | inr e ↦ rw (e) (
            on_received-Good a s (λ x. receive_loop recv_callback receive budget (call + 1) x)
              (receive call (s.capacity - length s.inbound_data)) (ground (arith, e)) j b
              (λ bytes t e. offers call (s.capacity - length s.inbound_data) bytes t e)
              (λ x g. receive_loop-Good budget (call + 1) x g))
      ]

  -- `sendAndRecv`, for a kernel that keeps to what it is offered.
  pub send_and_recv-Good :
      (answer : ℕ → ℕ → SendAnswer) (a : A) (s : TcpSocket)
      → IsKernel answer
      → IsWithin s
      → J a
      → IsBounded s
      → Returns (λ x. J x.0 × IsBounded x.1) (send_and_recv recv_callback receive answer a s)
  unfolding send_and_recv
  send_and_recv-Good answer a s kernel w j b =
      let sent = flush_send-Sent answer kernel s w in
      let f = flush_send answer s in
      let same : IsBounded f.socket =
        omega (arith, ap length sent.inbound, sent.same_capacity, b) in
      elim (Bool-cases (not f.ok)) [
        | inl e ↦ rw (e) (j, same)
        | inr e ↦ rw (e) (
            Returns-bind Good (λ x. J x.0 × IsBounded x.1) (retry recv_callback receive a f.socket)
              _
              (if_both (Returns Good) (length f.socket.inbound_data == 0) (j, same)
                (takes a f.socket f.socket.last_receive_time
                  (flush_send-healthy answer s (not_off f.ok e)) j same))
              (λ x g.
                Returns-bind Good (λ y. J y.0 × IsBounded y.1)
                  (receive_loop recv_callback receive 8 0 x) _ (receive_loop-Good 8 0 x g)
                  (λ y k. k)))
      ]
