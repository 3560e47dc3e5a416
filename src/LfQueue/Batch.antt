-- ===== src/LfQueue/Batch.antt =====
-- The producer's batch.
use trade_system.Common.{
  ℕ, suc, ◌+◌, ◌-◌, ◌*◌, ◌%◌, ◌<◌, ◌≤◌, ◌≡◌, ◌∙◌, refl, ap, sym, subst, ltb, leb, if◌then◌else◌,
  true, false, List, [], ◌∷◌, ◌++◌, length, update, arith, Bool-cases, inl, inr, append_assoc,
  append-nil,
}
use trade_system.LfQueue.{LfQueue, next, distance, try_push_batch, write_all}
use trade_system.LfQueue.Cursor.{ahead, ahead-suc, ahead-below, used-ahead}
use trade_system.LfQueue.Refine.{
  IsValid, used, contents, window, tail_ahead, window-push, length-window,
}

module _ {ℓ} {T : Type ℓ} where
  -- Elements written from the cursor `t` on make a window of `m` elements.
  abbrev Written : ℕ → (ℕ → T) → ℕ → List T → List T → ℕ → ℕ → Type ℓ
  Written room store c xs vs t m =
      (window room (write_all room store t vs).0 c m ≡ xs)
      × ((write_all room store t vs).1 ≡ ahead room c m)

  write_all_lem :
      (room : ℕ) (store : ℕ → T) (c n : ℕ) (vs : List T)
      → c < room * 2
      → n + length vs ≤ room
      → (window room (write_all room store (ahead room c n) vs).0 c (n + length vs)
          ≡ window room store c n ++ vs)
        × ((write_all room store (ahead room c n) vs).1 ≡ ahead room c (n + length vs))
  unfolding write_all
  write_all_lem room store c n [] h k = (
    ap (window room store c) (omega arith) ∙ sym (append-nil (window room store c n)),
    ap (ahead room c) (omega arith),
  )
  write_all_lem room store c n (v ∷ vs) h k =
      let store' = update store (ahead room c n % room) v in
      let rest = write_all_lem room store' c (suc n) vs h (omega arith) in
      let count : n + suc (length vs) ≡ suc n + length vs = omega arith in
      let put =
        ap (λ l. l ++ vs) (window-push room store c n v h (omega arith))
        ∙ append_assoc (window room store c n) (v ∷ []) vs in
      subst
        (Written room store' c (window room store c n ++ v ∷ vs) vs (next room (ahead room c n)))
        (sym count)
        (subst
          (λ t. Written room store' c (window room store c n ++ v ∷ vs) vs t (suc n + length vs))
          (sym (ahead-suc room c n h (omega arith))) (rest.0 ∙ put, rest.1))

  abbrev batched : LfQueue T → List T → ℕ → LfQueue T
  batched q vs high = record q {
    store = (write_all q.capacity q.store q.tail vs).0;
    tail = (write_all q.capacity q.store q.tail vs).1;
    high_watermark = high;
  }

  module _ (q : LfQueue T) (vs : List T) (high : ℕ) (h : IsValid q)
      (k : used q + length vs ≤ q.capacity) where
    written :
        (window q.capacity (write_all q.capacity q.store q.tail vs).0 q.head (used q + length vs)
          ≡ contents q ++ vs)
        × ((write_all q.capacity q.store q.tail vs).1
            ≡ ahead q.capacity q.head (used q + length vs))
    written =
        subst
          (λ t.
            (window q.capacity (write_all q.capacity q.store t vs).0 q.head (used q + length vs)
              ≡ contents q ++ vs)
            × ((write_all q.capacity q.store t vs).1
                ≡ ahead q.capacity q.head (used q + length vs)))
          (sym (tail_ahead q h))
          (write_all_lem q.capacity q.store q.head (used q) vs h.head_below k)

    used-batched : used (batched q vs high) ≡ used q + length vs
    used-batched =
        ap (λ t. distance q.capacity t q.head) written.1
        ∙ used-ahead q.capacity q.head (used q + length vs) h.head_below
            (omega (arith, h.positive, k))

    batched-IsValid : IsValid (batched q vs high)
    batched-IsValid = record {
      positive = h.positive;
      head_below = h.head_below;
      tail_below =
          subst (λ t. t < q.capacity * 2) (sym written.1)
            (ahead-below q.capacity q.head (used q + length vs) h.head_below
              (omega (arith, h.positive, k)));
      bounded = omega (arith, used-batched, k);
    }

    contents-batched : contents (batched q vs high) ≡ contents q ++ vs
    contents-batched =
        ap (window q.capacity (write_all q.capacity q.store q.tail vs).0 q.head) used-batched
        ∙ written.0

  -- `try_push_batch`: all of the batch goes to the end of the queue in its order if there is room
  -- for all of it, and otherwise none of it.
  pub try_push_batch_lem :
      (q : LfQueue T) (vs : List T)
      → IsValid q
      → IsValid (try_push_batch q vs).1
        × ((try_push_batch q vs).0 ≡ leb (length (contents q) + length vs) q.capacity)
        × (contents (try_push_batch q vs).1 ≡ (
            if leb (length (contents q) + length vs) q.capacity
            then contents q ++ vs
            else contents q))
  unfolding try_push_batch
  try_push_batch_lem q [] h =
      let yes : leb (length (contents q) + 0) q.capacity ≡ true =
        ground (arith, h.bounded, length-window q.capacity q.store q.head (used q)) in
      rw (yes, append-nil (contents q)) (h, refl, refl)
  try_push_batch_lem q (v ∷ vs) h =
      elim (Bool-cases (ltb (q.capacity - used q) (length (v ∷ vs)))) [
        | inl full ↦
            let no : leb (length (contents q) + length (v ∷ vs)) q.capacity ≡ false =
              ground (arith, full, length-window q.capacity q.store q.head (used q)) in
            rw (full, no)
              (
                record {
                  positive = h.positive;
                  head_below = h.head_below;
                  tail_below = h.tail_below;
                  bounded = h.bounded;
                },
                refl,
                refl,
              )
        | inr free ↦
            let room : used q + length (v ∷ vs) ≤ q.capacity = ground (arith, free, h.bounded) in
            let yes : leb (length (contents q) + length (v ∷ vs)) q.capacity ≡ true =
              ground (arith, room, length-window q.capacity q.store q.head (used q)) in
            let high =
              if ltb q.high_watermark (used q + length (v ∷ vs))
              then used q + length (v ∷ vs)
              else q.high_watermark in
            rw (free, yes)
              (
                batched-IsValid q (v ∷ vs) high h room,
                refl,
                contents-batched q (v ∷ vs) high h room,
              )
      ]
