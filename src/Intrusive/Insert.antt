-- ===== src/Intrusive/Insert.antt =====
-- What `push_back` and `insert_before` do to a ring: the new node becomes the last before the
-- given one.
use trade_system.Common.{
  ℕ, ◌≡◌, ◌≢◌, ◌∙◌, ◌==◌, if◌then◌else◌, true, false, Option, some, done, arith, List, [], ◌∷◌,
  ◌++◌, mem, Distinct,
}
use trade_system.MemPool.{MemPool}
use trade_system.MemPool.Valid.{in_use}
use trade_system.Ring.{IsRing, last_of, Chain-prev, Chain-next, mem-last_of}
use trade_system.Ring.Change.{IsRing-insert}
use trade_system.Intrusive.{Node, push_back, insert_before}
use trade_system.Intrusive.Laws.{
  links, Relinked, Relinked-trans, Relinked-live, Writes, set_next_lem, set_prev_lem, get_prev_lem,
  next-live, prev-live,
}

module _ {T : Type 0} (n : Node T) where
  -- The pointers once `i` stands between `last` and `first`.
  abbrev pub next_inserted : MemPool T → ℕ → ℕ → ℕ → ℕ → Option ℕ
  next_inserted p first last i j =
      if i == j then some first else if last == j then some i else (links n p).next j

  abbrev pub prev_inserted : MemPool T → ℕ → ℕ → ℕ → ℕ → Option ℕ
  prev_inserted p first last i j =
      if first == j then some i else if i == j then some last else (links n p).prev j

  push_back_lem :
      (p : MemPool T) (first last i : ℕ)
      → (links n p).prev first ≡ some last
      → (links n p).next last ≡ some first
      → in_use (p.block i) ≡ true
      → i ≢ first
      → i ≢ last
      → (q : MemPool T) × (push_back n p first i ≡ done q)
        × Writes n p q (next_inserted p first last i) (prev_inserted p first last i)
  unfolding push_back
  push_back_lem p first last i h k live a b =
      let (p₁, e₁, w₁) = set_next_lem n p last (some i) (next-live n p last first k) in
      let (p₂, e₂, w₂) = set_prev_lem n p₁ i (some last) (Relinked-live n w₁.relinked i ∙ live) in
      let r₂ = Relinked-trans n w₁.relinked w₂.relinked in
      let (p₃, e₃, w₃) = set_next_lem n p₂ i (some first) (Relinked-live n r₂ i ∙ live) in
      let r₃ = Relinked-trans n r₂ w₃.relinked in
      let (q, e, w) =
        set_prev_lem n p₃ first (some i) (Relinked-live n r₃ first ∙ prev-live n p first last h) in
      (
        q,
        rw
            (
              get_prev_lem n p first last h,
              e₁,
              get_prev_lem n p₁ first last (w₁.prev first ∙ h),
              e₂,
              e₃,
            )
            e,
        record {
          relinked = Relinked-trans n r₃ w.relinked;
          next = λ j. ground (arith, w.next j, w₃.next j, w₂.next j, w₁.next j);
          prev = λ j. ground (arith, w.prev j, w₃.prev j, w₂.prev j, w₁.prev j);
        },
      )

  insert_before_lem :
      (p : MemPool T) (first last i : ℕ)
      → (links n p).prev first ≡ some last
      → (links n p).next last ≡ some first
      → in_use (p.block i) ≡ true
      → i ≢ first
      → i ≢ last
      → (q : MemPool T) × (insert_before n p first i ≡ done q)
        × Writes n p q (next_inserted p first last i) (prev_inserted p first last i)
  unfolding insert_before
  insert_before_lem p first last i h k live a b =
      let (p₁, e₁, w₁) = set_prev_lem n p i (some last) live in
      let (p₂, e₂, w₂) = set_next_lem n p₁ i (some first) (Relinked-live n w₁.relinked i ∙ live) in
      let r₂ = Relinked-trans n w₁.relinked w₂.relinked in
      let back : (links n p₂).prev first ≡ some last =
        ground (arith, w₂.prev first, w₁.prev first) in
      let (p₃, e₃, w₃) =
        set_next_lem n p₂ last (some i) (Relinked-live n r₂ last ∙ next-live n p last first k) in
      let r₃ = Relinked-trans n r₂ w₃.relinked in
      let (q, e, w) =
        set_prev_lem n p₃ first (some i) (Relinked-live n r₃ first ∙ prev-live n p first last h) in
      (
        q,
        rw (get_prev_lem n p first last h, e₁, e₂, get_prev_lem n p₂ first last back, e₃) e,
        record {
          relinked = Relinked-trans n r₃ w.relinked;
          next = λ j. ground (arith, w.next j, w₃.next j, w₂.next j, w₁.next j);
          prev = λ j. ground (arith, w.prev j, w₃.prev j, w₂.prev j, w₁.prev j);
        },
      )

  -- The ring with the new node at its end, and nothing else relinked.
  pub record Inserted (p q : MemPool T) (a : ℕ) (xs : List ℕ) (i : ℕ) : Type 0 where
    pub relinked : Relinked n p q
    pub ring : IsRing (links n q) (a ∷ xs ++ i ∷ [])
    pub elsewhere :
        (j : ℕ)
        → mem j (i ∷ a ∷ xs) ≡ false
        → ((links n q).next j ≡ (links n p).next j) × ((links n q).prev j ≡ (links n p).prev j)

  Writes-Inserted :
      (p q : MemPool T) (a : ℕ) (xs : List ℕ) (i : ℕ)
      → IsRing (links n p) (a ∷ xs)
      → Distinct (a ∷ xs)
      → mem i (a ∷ xs) ≡ false
      → Writes n p q (next_inserted p a (last_of a xs) i) (prev_inserted p a (last_of a xs) i)
      → Inserted p q a xs i
  Writes-Inserted p q a xs i r d new w =
      let last = last_of a xs in
      record {
        relinked = w.relinked;
        ring =
            IsRing-insert (links n p) (links n q) a xs i d new
              (λ j m ne. ground (arith, w.next j, new)) (λ j m. ground (arith, w.prev j, new, d.0))
              (ground (arith, w.next last, mem-last_of a xs, new)) (ground (arith, w.prev i, new))
              (ground (arith, w.next i)) (ground (arith, w.prev a)) r;
        elsewhere =
            λ j m. (ground (arith, w.next j, mem-last_of a xs, m), ground (arith, w.prev j, m));
      }

  -- `push_back` and `insert_before` in a ring: neither faults, and the new node is the last.
  pub push_back-Inserted :
      (p : MemPool T) (a : ℕ) (xs : List ℕ) (i : ℕ)
      → IsRing (links n p) (a ∷ xs)
      → Distinct (a ∷ xs)
      → mem i (a ∷ xs) ≡ false
      → in_use (p.block i) ≡ true
      → (q : MemPool T) × (push_back n p a i ≡ done q) × Inserted p q a xs i
  push_back-Inserted p a xs i r d new live =
      let (q, e, w) =
        push_back_lem p a (last_of a xs) i (Chain-prev (links n p) a xs a r)
          (Chain-next (links n p) a xs a r) live (λ h. ground (arith, new))
          (λ h. ground (arith, new, mem-last_of a xs)) in
      (q, e, Writes-Inserted p q a xs i r d new w)

  pub insert_before-Inserted :
      (p : MemPool T) (a : ℕ) (xs : List ℕ) (i : ℕ)
      → IsRing (links n p) (a ∷ xs)
      → Distinct (a ∷ xs)
      → mem i (a ∷ xs) ≡ false
      → in_use (p.block i) ≡ true
      → (q : MemPool T) × (insert_before n p a i ≡ done q) × Inserted p q a xs i
  insert_before-Inserted p a xs i r d new live =
      let (q, e, w) =
        insert_before_lem p a (last_of a xs) i (Chain-prev (links n p) a xs a r)
          (Chain-next (links n p) a xs a r) live (λ h. ground (arith, new))
          (λ h. ground (arith, new, mem-last_of a xs)) in
      (q, e, Writes-Inserted p q a xs i r d new w)
