-- ===== src/LfQueue/Take.antt =====
-- The consumer's side of the queue.
use trade_system.Common.{
  ℕ, zero, suc, ◌%◌, ◌≡◌, ◌∙◌, refl, ap, sym, subst, ◌==◌, true, false, List, [], ◌∷◌, none, some,
  done, fault, arith, inl, inr, ◌⊎◌,
}
use trade_system.LfQueue.{LfQueue, next, distance, peek, pop, try_pop}
use trade_system.LfQueue.Cursor.{distance_lem, ahead, ahead_next, next-below, used-ahead}
use trade_system.LfQueue.Refine.{IsValid, used, contents, window, tail_ahead}

used_cases : (n : ℕ) → (n ≡ 0) ⊎ ((m : ℕ) × (n ≡ suc m))
used_cases zero = inl refl
used_cases (suc n) = inr (n, refl)

module _ {ℓ} {T : Type ℓ} where
  -- What `peek`, `pop` and `try_pop` come to, when the queue holds these elements.
  abbrev pub Taken : LfQueue T → List T → Type ℓ
  Taken q [] = (peek q ≡ none) × (pop q ≡ fault) × (try_pop q ≡ none)
  Taken q (v ∷ vs) =
      (peek q ≡ some v)
      × ((r : LfQueue T) × (pop q ≡ done r)
          × (try_pop q ≡ some (v, r))
          × IsValid r
          × (contents r ≡ vs))

  abbrev popped : LfQueue T → LfQueue T
  popped q = record q { head = next q.capacity q.head }

  used-popped : (q : LfQueue T) (n : ℕ) → IsValid q → used q ≡ suc n → used (popped q) ≡ n
  used-popped q n h e =
      ap (λ t. distance q.capacity t (next q.capacity q.head))
        (tail_ahead q h
          ∙ ap (ahead q.capacity q.head) e
          ∙ sym (
              ahead_next q.capacity q.head n h.head_below
                (omega (arith, h.bounded, h.positive, e))))
      ∙ used-ahead q.capacity (next q.capacity q.head) n (next-below q.capacity q.head h.head_below)
          (omega (arith, h.bounded, h.positive, e))

  popped-IsValid : (q : LfQueue T) (n : ℕ) → IsValid q → used q ≡ suc n → IsValid (popped q)
  popped-IsValid q n h e = record {
    positive = h.positive;
    head_below = next-below q.capacity q.head h.head_below;
    tail_below = h.tail_below;
    bounded = omega (arith, used-popped q n h e, h.bounded, e);
  }

  contents-popped :
      (q : LfQueue T) (n : ℕ)
      → IsValid q
      → used q ≡ suc n
      → contents q ≡ q.store (q.head % q.capacity) ∷ contents (popped q)
  contents-popped q n h e =
      ap (window q.capacity q.store q.head) e
      ∙ ap
          (λ k.
            q.store (q.head % q.capacity) ∷ window q.capacity q.store (next q.capacity q.head) k)
          (sym (used-popped q n h e))

  empty_iff : (q : LfQueue T) → IsValid q → (q.head == q.tail) ≡ (used q == 0)
  empty_iff q h = ground (
    arith,
    distance_lem q.capacity q.tail q.head h.tail_below h.head_below,
    h.head_below,
    h.tail_below,
  )

  -- `peek`, `pop` and `try_pop`: an empty queue gives a null pointer, a failing ASSERT and `false`;
  -- otherwise all three are about the oldest element, and the two that remove it leave the others
  -- in their order.
  pub take_lem : (q : LfQueue T) → IsValid q → Taken q (contents q)
  unfolding peek pop try_pop
  take_lem q h = elim (used_cases (used q)) [
    | inl e ↦
        let b : (q.head == q.tail) ≡ true = empty_iff q h ∙ ap (λ n. n == 0) e in
        subst (Taken q) (sym (ap (window q.capacity q.store q.head) e)) (rw (b) (refl, refl, refl))
    | inr (n, e) ↦
        let b : (q.head == q.tail) ≡ false = empty_iff q h ∙ ground (arith, e) in
        subst (Taken q) (sym (contents-popped q n h e))
          (rw (b) (refl, (popped q, refl, refl, popped-IsValid q n h e, refl)))
  ]
