-- ===== src/Intrusive/Laws.antt =====
-- The pointers of a pool of nodes as those of a ring, and what each read and write does to them.
use trade_system.Common.{
  ℕ, zero, suc, ◌≡◌, refl, ap, ◌∙◌, sym, true, Option, none, some, done, arith, Option-cases, inl,
  inr, update,
}
use trade_system.MemPool
use trade_system.MemPool.{MemPool}
use trade_system.MemPool.Valid.{IsValid, in_use, used, used_below}
use trade_system.Ring.{Pointers}
use trade_system.Intrusive.{Node, get_next, get_prev, set_next, set_prev}

-- Two pools with the same slots in use.
pub used_below-congr :
    {T : Type 0} (n : ℕ) (f g : ℕ → Option T)
    → ((i : ℕ) → in_use (f i) ≡ in_use (g i))
    → used_below n f ≡ used_below n g
used_below-congr zero f g h = refl
used_below-congr (suc n) f g h = ground (arith, h n, used_below-congr n f g h)

module _ {T : Type 0} (n : Node T) where
  abbrev via : (T → Option ℕ) → Option T → Option ℕ
  via f none = none
  via f (some o) = f o

  abbrev stripped : Option T → Option T
  stripped none = none
  stripped (some o) = some (n.bare o)

  abbrev pub links : MemPool T → Pointers
  links p = record { next = λ i. via n.next (p.block i); prev = λ i. via n.prev (p.block i) }

  -- The contents of the slots without the pointers.
  abbrev pub bare_of : MemPool T → ℕ → Option T
  bare_of p i = stripped (p.block i)

  -- Only pointers differ.
  pub record Relinked (p q : MemPool T) : Type 0 where
    pub capacity : q.capacity ≡ p.capacity
    pub free : q.free ≡ p.free
    pub bare : (i : ℕ) → bare_of q i ≡ bare_of p i

  in_use-stripped : (o : Option T) → in_use (stripped o) ≡ in_use o
  in_use-stripped none = refl
  in_use-stripped (some o) = refl

  pub Relinked-live :
      {p q : MemPool T} → Relinked p q → (i : ℕ) → in_use (q.block i) ≡ in_use (p.block i)
  Relinked-live {p} {q} r i =
      sym (in_use-stripped (q.block i)) ∙ ap in_use (r.bare i) ∙ in_use-stripped (p.block i)

  pub Relinked-refl : (p : MemPool T) → Relinked p p
  Relinked-refl p = record { capacity = refl; free = refl; bare = λ i. refl }

  pub Relinked-trans : {p q r : MemPool T} → Relinked p q → Relinked q r → Relinked p r
  Relinked-trans h k = record {
    capacity = k.capacity ∙ h.capacity;
    free = k.free ∙ h.free;
    bare = λ i. k.bare i ∙ h.bare i;
  }

  pub Relinked-used : {p q : MemPool T} → Relinked p q → used q ≡ used p
  Relinked-used {p} {q} r =
      rw r.capacity (used_below-congr p.capacity q.block p.block (Relinked-live r))

  pub Relinked-IsValid : {p q : MemPool T} → Relinked p q → IsValid p → IsValid q
  Relinked-IsValid {p} {q} r v = record {
    distinct = rw r.free v.distinct;
    exact = λ i. rw (r.free, r.capacity, Relinked-live r i) (v.exact i);
    within = λ i h. rw r.capacity (v.within i (sym (Relinked-live r i) ∙ h));
    conserved = rw (Relinked-used r, r.free, r.capacity) v.conserved;
  }

  -- Only pointers differ, and those of `q` are `f` and `g`.
  pub record Writes (p q : MemPool T) (f g : ℕ → Option ℕ) : Type 0 where
    pub relinked : Relinked p q
    pub next : (j : ℕ) → (links q).next j ≡ f j
    pub prev : (j : ℕ) → (links q).prev j ≡ g j

  stored-Writes-next :
      (p : MemPool T) (i : ℕ) (v : Option ℕ) (o : T)
      → p.block i ≡ some o
      → Writes p (MemPool.store p i (n.with_next o v)) (update (links p).next i v) (links p).prev
  stored-Writes-next p i v o e = record {
    relinked = record {
      capacity = refl;
      free = refl;
      bare = λ j. ground (arith, e, n.bare-with_next o v);
    };
    next = λ j. ground (arith, e, n.next-with_next o v);
    prev = λ j. ground (arith, e, n.prev-with_next o v);
  }

  stored-Writes-prev :
      (p : MemPool T) (i : ℕ) (v : Option ℕ) (o : T)
      → p.block i ≡ some o
      → Writes p (MemPool.store p i (n.with_prev o v)) (links p).next (update (links p).prev i v)
  stored-Writes-prev p i v o e = record {
    relinked = record {
      capacity = refl;
      free = refl;
      bare = λ j. ground (arith, e, n.bare-with_prev o v);
    };
    next = λ j. ground (arith, e, n.next-with_prev o v);
    prev = λ j. ground (arith, e, n.prev-with_prev o v);
  }

  -- What a write to a slot in use does.
  pub set_next_lem :
      (p : MemPool T) (i : ℕ) (v : Option ℕ)
      → in_use (p.block i) ≡ true
      → (q : MemPool T) × (set_next n p i v ≡ done q)
        × Writes p q (update (links p).next i v) (links p).prev
  unfolding set_next
  set_next_lem p i v live = elim (Option-cases (p.block i)) [
    | inl dead ↦ ground (arith, dead)
    | inr (o, e) ↦ (MemPool.store p i (n.with_next o v), rw e, stored-Writes-next p i v o e)
  ]

  pub set_prev_lem :
      (p : MemPool T) (i : ℕ) (v : Option ℕ)
      → in_use (p.block i) ≡ true
      → (q : MemPool T) × (set_prev n p i v ≡ done q)
        × Writes p q (links p).next (update (links p).prev i v)
  unfolding set_prev
  set_prev_lem p i v live = elim (Option-cases (p.block i)) [
    | inl dead ↦ ground (arith, dead)
    | inr (o, e) ↦ (MemPool.store p i (n.with_prev o v), rw e, stored-Writes-prev p i v o e)
  ]

  -- What a read gives.
  pub get_next_lem :
      (p : MemPool T) (i j : ℕ) → (links p).next i ≡ some j → get_next n p i ≡ done (some j)
  unfolding get_next
  get_next_lem p i j h = ground (arith, h)

  pub get_prev_lem :
      (p : MemPool T) (i j : ℕ) → (links p).prev i ≡ some j → get_prev n p i ≡ done (some j)
  unfolding get_prev
  get_prev_lem p i j h = ground (arith, h)

  -- A node with a pointer is in use.
  pub next-live : (p : MemPool T) (i j : ℕ) → (links p).next i ≡ some j → in_use (p.block i) ≡ true
  next-live p i j h = ground (arith, h)

  pub prev-live : (p : MemPool T) (i j : ℕ) → (links p).prev i ≡ some j → in_use (p.block i) ≡ true
  prev-live p i j h = ground (arith, h)
