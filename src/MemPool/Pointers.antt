-- ===== src/MemPool/Pointers.antt =====
-- `deallocate` by addresses: a pointer into the pool that is the start of a slot in use, and any other.
use trade_system.Common.{
  ℕ, suc, refl, ◌+◌, ◌*◌, ◌-◌, ◌/◌, ◌%◌, ◌<◌, ◌≡◌, ◌∙◌, sym, ap, subst, ◌⊎◌, inl, inr, ◌==◌, ◌&&◌,
  ltb, leb, Bool, true, done, fault, arith, Bool-cases,
}
use native.Mathlib.Nat.{mul-lt-mul_of_pos_right, div-add-mod', mul-div_cancel, mul-mod_left}
use trade_system.MemPool.{MemPool, deallocate_pointer}
use trade_system.MemPool.Valid.{IsValid, Returned, in_use, deallocate_lem}

-- The test of an address, and the slot that it stands for.
abbrev is_slot : ℕ → ℕ → ℕ → ℕ → Bool
is_slot base size capacity address =
    leb base address && ltb address (base + capacity * size) && (address - base) % size == 0

address-is_slot :
    (base size capacity i : ℕ)
    → 0 < size
    → i < capacity
    → is_slot base size capacity (base + i * size) ≡ true
address-is_slot base size capacity i z h =
    let below : i * size < capacity * size = mul-lt-mul_of_pos_right h z in
    let offset : base + i * size - base ≡ i * size = omega arith in
    let exact : (base + i * size - base) % size ≡ 0 =
      ap (λ n. n % size) offset ∙ mul-mod_left i size in
    ground (arith, below, exact)

index-of : (base size i : ℕ) → 0 < size → (base + i * size - base) / size ≡ i
index-of base size i z =
    let offset : base + i * size - base ≡ i * size = omega arith in
    ap (λ n. n / size) offset ∙ mul-div_cancel i z

is_slot-address :
    (base size capacity address : ℕ)
    → is_slot base size capacity address ≡ true
    → address ≡ base + (address - base) / size * size
is_slot-address base size capacity address h =
    let whole = div-add-mod' (address - base) size in
    let exact : (address - base) % size ≡ 0 = ground (arith, h) in
    let above : (base < suc address) = ground (arith, h) in omega (arith, whole, exact, above)

module _ {ℓ} {T : Type ℓ} where
  -- The address of a slot in use.
  pub record PointsTo (base size : ℕ) (p : MemPool T) (address i : ℕ) : Type ℓ where
    pub address_of : address ≡ base + i * size
    pub within : i < p.capacity
    pub live : in_use (p.block i) ≡ true

  -- `deallocate` of any pointer, for a pool at any address with blocks of any size but 0: either it is
  -- the start of a slot in use, and that slot is given back and no other changes; or it is not, being
  -- foreign, in the middle of a slot or the start of a free one, and the process ends.
  pub deallocate_pointer_lem :
      (base size : ℕ) (p : MemPool T) (address : ℕ)
      → 0 < size
      → IsValid p
      → ((deallocate_pointer base size p address ≡ fault)
          × ((i : ℕ) → PointsTo base size p address i → ⊥))
        ⊎ ((i : ℕ) × (q : MemPool T) × PointsTo base size p address i
            × (deallocate_pointer base size p address ≡ done q)
            × Returned p i q)
  unfolding deallocate_pointer
  deallocate_pointer_lem base size p address z v =
      elim (Bool-cases (is_slot base size p.capacity address)) [
        | inr n ↦ inl (
          rw (n) refl,
          λ i a.
              let b : is_slot base size p.capacity address ≡ true =
                ap (is_slot base size p.capacity) a.address_of
                ∙ address-is_slot base size p.capacity i z a.within in
              ground (arith, n, b),
        )
        | inl s ↦ elim (deallocate_lem p ((address - base) / size) v) [
          | inl (e, no_slot) ↦ inl (
            rw (s) e,
            λ i a.
                let same : (address - base) / size ≡ i =
                  ap (λ k. (k - base) / size) a.address_of ∙ index-of base size i z in
                no_slot (
                  subst (λ j. (j < p.capacity) × (in_use (p.block j) ≡ true)) (sym same)
                    (a.within, a.live)),
          )
          | inr (q, e, r) ↦ inr (
            (address - base) / size,
            q,
            record {
              address_of = is_slot-address base size p.capacity address s;
              within = r.1;
              live = r.2;
            },
            rw (s) e,
            r,
          )
        ]
      ]
