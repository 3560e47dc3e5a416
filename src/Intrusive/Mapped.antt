-- ===== src/Intrusive/Mapped.antt =====
-- A ring of objects seen through a function that keeps the two pointers: the code of the rings does
-- the same on both sides.
use trade_system.Common.{
  ℕ, List, [], ◌∷◌, ◌≡◌, refl, ap, ◌∙◌, ltb, ◌==◌, Option, none, some, Outcome, done, fault,
  out_of_fuel, deref, ◌>>=◌, update, Option-cases, Bool-cases, inl, inr,
}
use trade_system.MemPool
use trade_system.MemPool.{MemPool}
use trade_system.Intrusive.{
  Node, get_next, get_prev, set_next, set_prev, push_back, insert_before, close_up, close_up_entry,
  clear_links,
}

-- A function on the objects of a pool, and on what a piece of code comes to.
abbrev pub map_some : {A B : Type 0} → (A → B) → Option A → Option B
map_some f none = none
map_some f (some a) = some (f a)

abbrev pub map_pool : {A B : Type 0} → (A → B) → MemPool A → MemPool B
map_pool f p = record { capacity = p.capacity; block = λ i. map_some f (p.block i); free = p.free }

abbrev pub map_done : {A B : Type 0} → (A → B) → Outcome A → Outcome B
map_done f (done a) = done (f a)
map_done f fault = fault
map_done f out_of_fuel = out_of_fuel

-- A step that comes to the same, and one whose result is seen through `f`.
pub bind_alike :
    {A C D : Type 0} (φ : C → D) (m' m : Outcome A) (g : A → Outcome D) (h : A → Outcome C)
    → m' ≡ m
    → ((a : A) → g a ≡ map_done φ (h a))
    → (m' >>= g) ≡ map_done φ (m >>= h)
bind_alike φ m' (done a) g h e k = rw (e) (k a)
bind_alike φ m' fault g h e k = rw (e) refl
bind_alike φ m' out_of_fuel g h e k = rw (e) refl

pub bind_along :
    {A B C D : Type 0} (f : A → B) (φ : C → D) (m' : Outcome B) (m : Outcome A) (g : B → Outcome D)
    (h : A → Outcome C)
    → m' ≡ map_done f m
    → ((a : A) → g (f a) ≡ map_done φ (h a))
    → (m' >>= g) ≡ map_done φ (m >>= h)
bind_along f φ m' (done a) g h e k = rw (e) (k a)
bind_along f φ m' fault g h e k = rw (e) refl
bind_along f φ m' out_of_fuel g h e k = rw (e) refl

pub deref-map_some :
    {A B : Type 0} (f : A → B) (o : Option A) → deref (map_some f o) ≡ map_done f (deref o)
deref-map_some f none = refl
deref-map_some f (some a) = refl

pub store-map_pool :
    {A B : Type 0} (f : A → B) (p : MemPool A) (i : ℕ) (a : A)
    → MemPool.store (map_pool f p) i (f a) ≡ map_pool f (MemPool.store p i a)
store-map_pool f p i a =
    λ k. record { capacity = p.capacity; block = λ j. pointwise j k; free = p.free }
  where
    pointwise :
        (j : ℕ)
        → update (map_pool f p).block i (some (f a)) j ≡ map_some f (update p.block i (some a) j)
    pointwise j = elim (Bool-cases (i == j)) [ inl e ↦ rw (e) refl | inr e ↦ rw (e) refl ]

pub deallocate-map_pool :
    {A B : Type 0} (f : A → B) (p : MemPool A) (i : ℕ)
    → MemPool.deallocate (map_pool f p) i ≡ map_done (map_pool f) (MemPool.deallocate p i)
unfolding MemPool.deallocate
deallocate-map_pool f p i = elim (Bool-cases (ltb i p.capacity)) [
  | inl e ↦ elim (Option-cases (p.block i)) [
    | inl n ↦ rw (e, n) refl
    | inr (a, s) ↦ rw (e, s) (ap done released)
  ]
  | inr e ↦ rw (e) refl
]
  where
    pointwise :
        (j : ℕ) → update (map_pool f p).block i none j ≡ map_some f (update p.block i none j)
    pointwise j = elim (Bool-cases (i == j)) [ inl e ↦ rw (e) refl | inr e ↦ rw (e) refl ]

    released :
        record (map_pool f p) { free = i ∷ p.free; block = update (map_pool f p).block i none }
        ≡ map_pool f (record p { free = i ∷ p.free; block = update p.block i none })
    released = λ k. record { capacity = p.capacity; block = λ j. pointwise j k; free = i ∷ p.free }

-- `f` keeps the pointers.
pub record Keeps {A B : Type 0} (n : Node A) (m : Node B) (f : A → B) : Type 0 where
  pub next : (o : A) → m.next (f o) ≡ n.next o
  pub prev : (o : A) → m.prev (f o) ≡ n.prev o
  pub with_next : (o : A) (v : Option ℕ) → m.with_next (f o) v ≡ f (n.with_next o v)
  pub with_prev : (o : A) (v : Option ℕ) → m.with_prev (f o) v ≡ f (n.with_prev o v)

module _ {A B : Type 0} (n : Node A) (m : Node B) (f : A → B) (keeps : Keeps n m f) where
  pub get_next-map_pool : (p : MemPool A) (i : ℕ) → get_next m (map_pool f p) i ≡ get_next n p i
  unfolding get_next
  get_next-map_pool p i = elim (Option-cases (p.block i)) [
    | inl e ↦ rw (e) refl
    | inr (o, e) ↦ rw (e) (ap done (keeps.next o))
  ]

  pub get_prev-map_pool : (p : MemPool A) (i : ℕ) → get_prev m (map_pool f p) i ≡ get_prev n p i
  unfolding get_prev
  get_prev-map_pool p i = elim (Option-cases (p.block i)) [
    | inl e ↦ rw (e) refl
    | inr (o, e) ↦ rw (e) (ap done (keeps.prev o))
  ]

  pub set_next-map_pool :
      (p : MemPool A) (i : ℕ) (v : Option ℕ)
      → set_next m (map_pool f p) i v ≡ map_done (map_pool f) (set_next n p i v)
  unfolding set_next
  set_next-map_pool p i v = elim (Option-cases (p.block i)) [
    | inl e ↦ rw (e) refl
    | inr (o, e) ↦ rw (e) (
        ap done (
          ap (MemPool.store (map_pool f p) i) (keeps.with_next o v)
          ∙ store-map_pool f p i (n.with_next o v)))
  ]

  pub set_prev-map_pool :
      (p : MemPool A) (i : ℕ) (v : Option ℕ)
      → set_prev m (map_pool f p) i v ≡ map_done (map_pool f) (set_prev n p i v)
  unfolding set_prev
  set_prev-map_pool p i v = elim (Option-cases (p.block i)) [
    | inl e ↦ rw (e) refl
    | inr (o, e) ↦ rw (e) (
        ap done (
          ap (MemPool.store (map_pool f p) i) (keeps.with_prev o v)
          ∙ store-map_pool f p i (n.with_prev o v)))
  ]

  pub clear_links-map_pool :
      (p : MemPool A) (i : ℕ)
      → clear_links m (map_pool f p) i ≡ map_done (map_pool f) (clear_links n p i)
  unfolding clear_links
  clear_links-map_pool p i =
      bind_along (map_pool f) (map_pool f) _ _ _ _ (set_next-map_pool p i none)
        (λ p₁. set_prev-map_pool p₁ i none)

  pub close_up-map_pool :
      (p : MemPool A) (i : ℕ) → close_up m (map_pool f p) i ≡ map_done (map_pool f) (close_up n p i)
  unfolding close_up
  close_up-map_pool p i = bind_alike (map_pool f) _ _ _ _ (get_prev-map_pool p i) (λ before_ptr.
      bind_alike (map_pool f) _ _ _ _ (get_next-map_pool p i) (λ after_ptr.
        bind_alike (map_pool f) _ _ _ _ refl (λ before.
          bind_along (map_pool f) (map_pool f) _ _ _ _ (set_next-map_pool p before after_ptr) (λ p₁.
            bind_alike (map_pool f) _ _ _ _ refl
              (λ after. set_prev-map_pool p₁ after before_ptr)))))

  pub close_up_entry-map_pool :
      (p : MemPool A) (i : ℕ)
      → close_up_entry m (map_pool f p) i ≡ map_done (map_pool f) (close_up_entry n p i)
  unfolding close_up_entry
  close_up_entry-map_pool p i =
      bind_alike (map_pool f) _ _ _ _ (get_prev-map_pool p i) (λ before_ptr.
        bind_alike (map_pool f) _ _ _ _ refl (λ before.
          bind_alike (map_pool f) _ _ _ _ (get_next-map_pool p i) (λ after_ptr.
            bind_along (map_pool f) (map_pool f) _ _ _ _ (set_next-map_pool p before after_ptr)
              (λ p₁. bind_alike (map_pool f) _ _ _ _ (get_next-map_pool p₁ i) (λ after_again.
                bind_alike (map_pool f) _ _ _ _ refl (λ after.
                  bind_alike (map_pool f) _ _ _ _ (get_prev-map_pool p₁ i)
                    (λ before_again. set_prev-map_pool p₁ after before_again)))))))

  pub push_back-map_pool :
      (p : MemPool A) (first i : ℕ)
      → push_back m (map_pool f p) first i ≡ map_done (map_pool f) (push_back n p first i)
  unfolding push_back
  push_back-map_pool p first i =
      bind_alike (map_pool f) _ _ _ _ (get_prev-map_pool p first) (λ last_ptr.
        bind_alike (map_pool f) _ _ _ _ refl (λ last.
          bind_along (map_pool f) (map_pool f) _ _ _ _ (set_next-map_pool p last (some i)) (λ p₁.
            bind_alike (map_pool f) _ _ _ _ (get_prev-map_pool p₁ first) (λ before.
              bind_along (map_pool f) (map_pool f) _ _ _ _ (set_prev-map_pool p₁ i before) (λ p₂.
                bind_along (map_pool f) (map_pool f) _ _ _ _ (set_next-map_pool p₂ i (some first))
                  (λ p₃. set_prev-map_pool p₃ first (some i)))))))

  pub insert_before-map_pool :
      (p : MemPool A) (target i : ℕ)
      → insert_before m (map_pool f p) target i ≡ map_done (map_pool f) (insert_before n p target i)
  unfolding insert_before
  insert_before-map_pool p target i =
      bind_alike (map_pool f) _ _ _ _ (get_prev-map_pool p target) (λ before.
        bind_along (map_pool f) (map_pool f) _ _ _ _ (set_prev-map_pool p i before) (λ p₁.
          bind_along (map_pool f) (map_pool f) _ _ _ _ (set_next-map_pool p₁ i (some target)) (λ p₂.
            bind_alike (map_pool f) _ _ _ _ (get_prev-map_pool p₂ target) (λ last_ptr.
              bind_alike (map_pool f) _ _ _ _ refl (λ last.
                bind_along (map_pool f) (map_pool f) _ _ _ _ (set_next-map_pool p₂ last (some i))
                  (λ p₃. set_prev-map_pool p₃ target (some i)))))))

-- A slot and the pool that it is taken from.
abbrev pub map_taken : {A B : Type 0} → (A → B) → ℕ × MemPool A → ℕ × MemPool B
map_taken f x = (x.0, map_pool f x.1)

pub allocate-map_pool :
    {A B : Type 0} (f : A → B) (p : MemPool A) (a : A)
    → deref (MemPool.allocate (map_pool f p) (f a))
      ≡ map_done (map_taken f) (deref (MemPool.allocate p a))
unfolding MemPool.allocate
allocate-map_pool f p a = by_free p.free
  where
    by_free :
        (free : List ℕ)
        → deref (MemPool.allocate (map_pool f (record p { free = free })) (f a))
          ≡ map_done (map_taken f) (deref (MemPool.allocate (record p { free = free }) a))
    by_free [] = refl
    by_free (i ∷ is) =
        ap (λ (q : MemPool _). done (i, q)) (store-map_pool f (record p { free = is }) i a)
