-- ===== src/MemPool/Valid.antt =====
-- The pool's invariant: the free indices are distinct, in range, and exactly those not in use.
use trade_system.Common.{
  ℕ, zero, suc, ◌+◌, ◌≤◌, ◌<◌, ◌≡◌, refl, ◌⊎◌, fault, List, [], ◌∷◌, Option, none, some, done,
  length, update, if◌then◌else◌, ltb, Bool, true, false, not, ◌&&◌, arith, ap, mem, Distinct,
  Bool-cases, Option-cases, inl, inr,
}
use trade_system.MemPool.{MemPool, count_up, init, allocate, deallocate, store}

module _ {ℓ} {T : Type ℓ} where
  abbrev pub in_use : Option T → Bool
  in_use none = false
  in_use (some _) = true

  -- How many of the first `n` slots are in use.
  abbrev pub used_below : ℕ → (ℕ → Option T) → ℕ
  used_below zero block = 0
  used_below (suc n) block = (if in_use (block n) then 1 else 0) + used_below n block

  abbrev pub used : MemPool T → ℕ
  used p = used_below p.capacity p.block

  pub record IsValid (p : MemPool T) : Type ℓ where
    pub distinct : Distinct p.free
    pub exact : (i : ℕ) → mem i p.free ≡ (ltb i p.capacity && not (in_use (p.block i)))
    pub within : (i : ℕ) → in_use (p.block i) ≡ true → i < p.capacity
    pub conserved : length p.free + used p ≡ p.capacity

  used_below-update_ge :
      (n k : ℕ) (block : ℕ → Option T) (b : Option T)
      → n ≤ k
      → used_below n (update block k b) ≡ used_below n block
  used_below-update_ge zero k block b h = refl
  used_below-update_ge (suc n) k block b h = ground (arith, used_below-update_ge n k block b)

  used_below-update :
      (n k : ℕ) (block : ℕ → Option T) (b : Option T)
      → k < n
      → used_below n (update block k b) + (if in_use (block k) then 1 else 0)
        ≡ used_below n block + (if in_use b then 1 else 0)
  used_below-update zero k block b h = absurd (omega arith)
  used_below-update (suc n) k block b h =
      ground (arith, used_below-update n k block b, used_below-update_ge n k block b)

mem-count_up : (i j n : ℕ) → mem j (count_up i n) ≡ (not (ltb j i) && ltb j (i + n))
unfolding count_up
mem-count_up i j zero = ground arith
mem-count_up i j (suc n) = ground (arith, mem-count_up (suc i) j n)

Distinct-count_up : (i n : ℕ) → Distinct (count_up i n)
unfolding count_up
Distinct-count_up i zero = tt
Distinct-count_up i (suc n) = ground (arith, mem-count_up (suc i) i n, Distinct-count_up (suc i) n)

length-count_up : (i n : ℕ) → length (count_up i n) ≡ n
unfolding count_up
length-count_up i zero = refl
length-count_up i (suc n) = ap suc (length-count_up (suc i) n)

used_below-none {ℓ} : (T : Type ℓ) (n : ℕ) → used_below {T = T} n (λ _. none) ≡ 0
used_below-none T zero = refl
used_below-none T (suc n) = omega (arith, used_below-none T n)

module _ {ℓ} {T : Type ℓ} where
  -- A fresh pool is valid, with every slot free.
  pub init-IsValid : (n : ℕ) → IsValid {T = T} (init n)
  unfolding init
  init-IsValid n = record {
    distinct = Distinct-count_up 0 n;
    exact = λ i. ground (arith, mem-count_up 0 i n);
    within = λ i h. cc;
    conserved = omega (arith, length-count_up 0 n, used_below-none T n);
  }

  -- The pool with the top free slot `i` taken for the object.
  abbrev pub Took : MemPool T → T → ℕ → MemPool T → Type ℓ
  Took p object i q =
      IsValid q
      × (i < p.capacity)
      × (p.block i ≡ none)
      × (q.block ≡ update p.block i (some object))
      × (used q ≡ suc (used p))

  -- The pool with slot `i` given back.
  abbrev pub Returned : MemPool T → ℕ → MemPool T → Type ℓ
  Returned p i q =
      IsValid q
      × (i < p.capacity)
      × (in_use (p.block i) ≡ true)
      × (q.block ≡ update p.block i none)
      × (suc (used q) ≡ used p)

  pop_free-Took :
      (p : MemPool T) (object : T) (i : ℕ) (rest : List ℕ)
      → IsValid p
      → p.free ≡ i ∷ rest
      → Took p object i (record p { free = rest; block = update p.block i (some object) })
  pop_free-Took p object i rest v e =
      let head : mem i p.free ≡ true = rw e (ground arith) in
      let apart : mem i rest ≡ false = (rw e at v.distinct).0 in
      (
        record {
          distinct = (rw e at v.distinct).1;
          exact = λ j. ground (arith, v.exact j, e, apart);
          within = λ j h. ground (arith, v.within j, v.exact i, head);
          conserved = ground (
            arith,
            v.exact i,
            head,
            used_below-update p.capacity i p.block (some object),
            v.conserved,
            ap length e,
          );
        },
        ground (arith, v.exact i, head),
        ground (arith, v.exact i, head),
        refl,
        ground (arith, v.exact i, head, used_below-update p.capacity i p.block (some object)),
      )

  push_free-Returned :
      (p : MemPool T) (i : ℕ)
      → IsValid p
      → i < p.capacity
      → in_use (p.block i) ≡ true
      → Returned p i (record p { free = i ∷ p.free; block = update p.block i none })
  push_free-Returned p i v h u = (
    record {
      distinct = (ground (arith, v.exact i), v.distinct);
      exact = λ j. ground (arith, v.exact j);
      within = λ j u'. ground (arith, v.within j);
      conserved = ground (arith, used_below-update p.capacity i p.block none, v.conserved);
    },
    h,
    u,
    refl,
    ground (arith, used_below-update p.capacity i p.block none),
  )

  -- A write to a slot in use.
  pub used-store :
      (p : MemPool T) (i : ℕ) (object : T)
      → IsValid p
      → in_use (p.block i) ≡ true
      → used (store p i object) ≡ used p
  used-store p i object v u =
      ground (arith, used_below-update p.capacity i p.block (some object), v.within i u)

  pub store-IsValid :
      (p : MemPool T) (i : ℕ) (object : T)
      → IsValid p
      → in_use (p.block i) ≡ true
      → IsValid (store p i object)
  store-IsValid p i object v u = record {
    distinct = v.distinct;
    exact = λ j. ground (arith, v.exact j, v.exact i);
    within = λ j h. ground (arith, v.within j, v.within i);
    conserved = rw (used-store p i object v u) v.conserved;
  }

  -- In a valid pool `allocate` fails exactly when every slot is in use; otherwise it hands out an
  -- unused slot in range, which then holds the object, and changes no other slot.
  pub allocate_lem :
      (p : MemPool T) (object : T)
      → IsValid p
      → ((allocate p object ≡ none) × (used p ≡ p.capacity))
        ⊎ ((i : ℕ) × (q : MemPool T) × (allocate p object ≡ some (i, q))
            × (used p < p.capacity)
            × Took p object i q)
  unfolding allocate
  allocate_lem p object v = go p.free refl
    where
      go :
          (l : List ℕ)
          → p.free ≡ l
          → ((allocate p object ≡ none) × (used p ≡ p.capacity))
            ⊎ ((i : ℕ) × (q : MemPool T) × (allocate p object ≡ some (i, q))
                × (used p < p.capacity)
                × Took p object i q)
      go [] e = inl (rw (e, allocate), omega (arith, v.conserved, ap length e))
      go (i ∷ rest) e = inr (
        i,
        record p { free = rest; block = update p.block i (some object) },
        rw (e, allocate),
        omega (arith, v.conserved, ap length e),
        pop_free-Took p object i rest v e,
      )

  pub deallocate-Returned :
      (p : MemPool T) (i : ℕ)
      → IsValid p
      → in_use (p.block i) ≡ true
      → (q : MemPool T) × (deallocate p i ≡ done q) × Returned p i q
  unfolding deallocate
  deallocate-Returned p i v u =
      let h = v.within i u in
      (
        record p { free = i ∷ p.free; block = update p.block i none },
        ground arith,
        push_free-Returned p i v h u,
      )

  -- `deallocate` of a slot in use gives it back and changes no other; of any other pointer, it
  -- ends the process.
  pub deallocate_lem :
      (p : MemPool T) (i : ℕ)
      → IsValid p
      → ((deallocate p i ≡ fault) × ((i < p.capacity) × (in_use (p.block i) ≡ true) → ⊥))
        ⊎ ((q : MemPool T) × (deallocate p i ≡ done q) × Returned p i q)
  unfolding deallocate
  deallocate_lem p i v = elim (Bool-cases (ltb i p.capacity)) [
    | inr out ↦ inl (ground arith, λ h. ground arith)
    | inl within ↦ elim (Option-cases (p.block i)) [
      | inl idle ↦ inl (ground arith, λ h. ground arith)
      | inr (o, live) ↦ inr (
        record p { free = i ∷ p.free; block = update p.block i none },
        ground arith,
        push_free-Returned p i v (ground arith) (ground arith),
      )
    ]
  ]
