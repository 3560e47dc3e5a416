-- ===== src/Sequencer/Sort.antt =====
-- The order in which a round is published.
use trade_system.Common.{
  ℕ, ◌≡◌, ◌∙◌, refl, ◌≤◌, ltb, ◌==◌, if◌then◌else◌, List, [], ◌∷◌, arith, All, Bool-cases, inl, inr,
}
use trade_system.Sequencer.{TimedRequest, insert, stable_sort}

abbrev pub IsSorted : List TimedRequest → Type 0
IsSorted [] = Unit
IsSorted (r ∷ rs) = All (λ s. r.recv_time ≤ s.recv_time) rs × IsSorted rs

-- The requests that were received at one moment, in the order of the list.
abbrev pub received_at : ℕ → List TimedRequest → List TimedRequest
received_at t [] = []
received_at t (r ∷ rs) = if r.recv_time == t then r ∷ received_at t rs else received_at t rs

All-insert :
    (P : TimedRequest → Type 0) (r : TimedRequest) (ss : List TimedRequest)
    → P r
    → All P ss
    → All P (insert r ss)
All-insert P r [] p a = (p, tt)
All-insert P r (s ∷ ss) p a = elim (Bool-cases (ltb s.recv_time r.recv_time)) [
  | inl e ↦ rw (e) (a.0, All-insert P r ss p a.1)
  | inr e ↦ rw (e) (p, a)
]

All-le :
    (a b : ℕ) (ss : List TimedRequest)
    → a ≤ b
    → All (λ (s : TimedRequest). b ≤ s.recv_time) ss
    → All (λ (s : TimedRequest). a ≤ s.recv_time) ss
All-le a b [] h k = tt
All-le a b (s ∷ ss) h k = (omega (arith, k.0), All-le a b ss h k.1)

insert-IsSorted : (r : TimedRequest) (ss : List TimedRequest) → IsSorted ss → IsSorted (insert r ss)
insert-IsSorted r [] h = (tt, tt)
insert-IsSorted r (s ∷ ss) h = elim (Bool-cases (ltb s.recv_time r.recv_time)) [
  | inl e ↦ rw (e) (
    All-insert (λ (x : TimedRequest). s.recv_time ≤ x.recv_time) r ss (ground (arith, e)) h.0,
    insert-IsSorted r ss h.1,
  )
  | inr e ↦
      let le : r.recv_time ≤ s.recv_time = ground (arith, e) in
      rw (e) ((le, All-le r.recv_time s.recv_time ss le h.0), h)
]

received_at-insert :
    (t : ℕ) (r : TimedRequest) (ss : List TimedRequest)
    → received_at t (insert r ss) ≡ received_at t (r ∷ ss)
received_at-insert t r [] = refl
received_at-insert t r (s ∷ ss) = elim (Bool-cases (ltb s.recv_time r.recv_time)) [
  | inl e ↦ rw (e) ground (arith, e, received_at-insert t r ss)
  | inr e ↦ rw (e) refl
]

-- `stable_sort`: the result is in the order of the times, and the requests of each moment are the
-- same ones as before, in the same order.
pub stable_sort_lem :
    (rs : List TimedRequest)
    → IsSorted (stable_sort rs) × ((t : ℕ) → received_at t (stable_sort rs) ≡ received_at t rs)
stable_sort_lem [] = (tt, λ t. refl)
stable_sort_lem (r ∷ rs) =
    let (sorted, same) = stable_sort_lem rs in
    (
      insert-IsSorted r (stable_sort rs) sorted,
      λ t. received_at-insert t r (stable_sort rs) ∙ ground (arith, same t),
    )
