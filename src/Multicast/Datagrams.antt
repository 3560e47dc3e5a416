-- ===== src/Multicast/Datagrams.antt =====
-- What goes out when a frame is offered to a multicast socket, and what waits then.
use trade_system.Common.{
  ℕ, ◌+◌, ◌≤◌, ◌≡◌, ◌∙◌, ◌⊎◌, subst, refl, ap, sym, ◌==◌, ◌||◌, not, ltb, if◌then◌else◌, Bool, true,
  false, List, [], ◌∷◌, ◌++◌, length, length-append, append-nil, append_assoc, done, Returns,
  Returns-bind, All, arith, Bool-cases, inl, inr, if_both,
}
use trade_system.Multicast.{
  McastSocket, SendAnswer, Receipt, Answers, flush, received, send_and_recv, send,
}

-- The bytes of some datagrams.
abbrev pub flatten : List (List ℕ) → List ℕ
flatten [] = []
flatten (d ∷ ds) = d ++ flatten ds

pub flatten-append : (ds es : List (List ℕ)) → flatten (ds ++ es) ≡ flatten ds ++ flatten es
flatten-append [] es = refl
flatten-append (d ∷ ds) es =
    ap (λ l. d ++ l) (flatten-append ds es) ∙ sym (append_assoc d (flatten ds) (flatten es))

abbrev pub IsShort : List ℕ → Type 0
IsShort d = length d ≤ 1400

-- A step that adds `new` to what waited, after it has sent what waited or nothing.
pub record Kept (s : McastSocket) (new : List ℕ) (t : McastSocket) (gone : List (List ℕ))
    : Type 0 where
  pub bytes : flatten gone ++ t.outbound_data ≡ s.outbound_data ++ new
  pub whole : (gone ≡ []) ⊎ (gone ≡ s.outbound_data ∷ [])
  pub short : All IsShort gone
  pub fits : IsShort t.outbound_data

-- The kernel either takes a datagram or asks to try again.
abbrev IsExpectedAnswer : SendAnswer → Type 0
IsExpectedAnswer SendAnswer.other = ⊥
IsExpectedAnswer _ = Unit {0}

abbrev pub IsExpected : Answers → Type 0
IsExpected answers = IsExpectedAnswer answers.sending

Kept-same : (s : McastSocket) → IsShort s.outbound_data → Kept s [] s []
Kept-same s h = record {
  bytes = sym (append-nil s.outbound_data);
  whole = inl refl;
  short = tt;
  fits = h;
}

abbrev Flushed : McastSocket → McastSocket × List (List ℕ) → Type 0
Flushed s x = Kept s [] x.0 x.1

flush-Flushed :
    (answer : SendAnswer) (s : McastSocket)
    → IsExpectedAnswer answer
    → IsShort s.outbound_data
    → Returns (Flushed s) (flush answer s)
unfolding flush
flush-Flushed SendAnswer.all_sent s e h =
    if_both (Returns (Flushed s)) (length s.outbound_data == 0) (Kept-same s h) (record {
      bytes = append-nil (s.outbound_data ++ []);
      whole = inr refl;
      short = (h, tt);
      fits = omega arith;
    })
flush-Flushed SendAnswer.not_now s e h =
    if_both (Returns (Flushed s)) (length s.outbound_data == 0) (Kept-same s h)
      (record { bytes = sym (append-nil s.outbound_data); whole = inl refl; short = tt; fits = h })
flush-Flushed SendAnswer.other s e h = absurd e

received-outbound :
    (s : McastSocket) (answer : Receipt) → (received s answer).1.outbound_data ≡ s.outbound_data
received-outbound s Receipt.nothing = refl
received-outbound s (Receipt.datagram bytes size cut) =
    let same : Bool × McastSocket → Type 0 = λ x. x.1.outbound_data ≡ s.outbound_data in
    if_both same (size == 0) refl (if_both same (cut || ltb 65536 size) refl refl)

abbrev Exchanged : McastSocket → Bool × McastSocket × List (List ℕ) → Type 0
Exchanged s x = Kept s [] x.1 x.2

send_and_recv-Exchanged :
    (answers : Answers) (s : McastSocket)
    → IsExpected answers
    → IsShort s.outbound_data
    → Returns (Exchanged s) (send_and_recv answers s)
unfolding send_and_recv
send_and_recv-Exchanged answers s e h =
    if_both (Returns (Exchanged s)) (not s.has_fd) (Kept-same s h) (
      Returns-bind (Flushed s) (Exchanged s) (flush answers.sending s) _
        (flush-Flushed answers.sending s e h)
        (λ x k.
          let same = received-outbound x.0 answers.receiving in
          record {
            bytes = ap (λ l. flatten x.1 ++ l) same ∙ k.bytes;
            whole = k.whole;
            short = k.short;
            fits = subst IsShort (sym same) k.fits;
          }))

-- The frame is added whole, or nothing is.
pub record Offered (s : McastSocket) (data_ : List ℕ) (x : Bool × McastSocket × List (List ℕ))
    : Type 0 where
  pub kept : Kept s (if x.0 then data_ else []) x.1 x.2
  pub possible : x.0 ≡ true → length data_ ≤ 1400

-- `send`, with a kernel that takes a datagram or asks to try again, whatever it has to receive, and
-- no more than 1400 bytes waiting: it returns, and what goes out is nothing, or all that waited in one datagram; the bytes that go out and that wait
-- then are, in their order, the bytes that waited before, with the new frame behind them if it is
-- accepted and nothing if not; and no datagram is longer than the limit.
pub send-Offered :
    (answers : Answers) (s : McastSocket) (data_ : List ℕ)
    → IsExpected answers
    → IsShort s.outbound_data
    → Returns (Offered s data_) (send answers s data_)
unfolding send
send-Offered answers s data_ e h =
    elim (Bool-cases (length data_ == 0 || ltb 1400 (length data_))) [
      | inl a ↦ rw (a) (record { kept = Kept-same s h; possible = λ z. cc })
      | inr a ↦ rw (a) (
          Returns-bind (Exchanged s) (Offered s data_)
            (if ltb 1400 (length s.outbound_data + length data_)
              then send_and_recv answers s
              else done (false, s, []))
            _
            (if_both (Returns (Exchanged s)) (ltb 1400 (length s.outbound_data + length data_))
              (send_and_recv-Exchanged answers s e h) (Kept-same s h))
            (λ x k. elim (Bool-cases (ltb 1400 (length x.1.outbound_data + length data_))) [
              | inl b ↦ rw (b) (record { kept = k; possible = λ z. cc })
              | inr b ↦ rw (b) (record {
                kept = record {
                  bytes =
                      sym (append_assoc (flatten x.2) x.1.outbound_data data_)
                      ∙ ap (λ l. l ++ data_) (k.bytes ∙ append-nil s.outbound_data);
                  whole = k.whole;
                  short = k.short;
                  fits = ground (arith, length-append x.1.outbound_data data_, b);
                };
                possible = λ z. ground (arith, a);
              })
            ]))
    ]
