-- ===== src/Ring/Change.antt =====
-- What the changes of a ring do: a node linked in at the end, a node taken out at the front.
use trade_system.Common.{
  ℕ, ◌≡◌, ◌≢◌, ◌∙◌, List, [], ◌∷◌, ◌++◌, some, mem, Distinct, arith, true, false,
}
use trade_system.Ring.{Pointers, Chain, IsRing, last_of, last_of-ne, Chain-append}

-- The pointers of `q` are those of `p` on the nodes of a list.
abbrev pub Agree : Pointers → Pointers → List ℕ → Type 0
Agree p q xs = (j : ℕ) → mem j xs ≡ true → (q.next j ≡ p.next j) × (q.prev j ≡ p.prev j)

module _ (p q : Pointers) where
  -- A chain whose pointers are as before is a chain.
  pub Chain-congr :
      (a : ℕ) (xs : List ℕ) (z : ℕ)
      → Agree p q (a ∷ xs)
      → q.prev z ≡ p.prev z
      → Chain p a xs z
      → Chain q a xs z
  Chain-congr a [] z f g h = ((f a (ground arith)).0 ∙ h.0, g ∙ h.1)
  Chain-congr a (x ∷ xs) z f g h = (
    (f a (ground arith)).0 ∙ h.0,
    (f x (ground arith)).1 ∙ h.1,
    Chain-congr x xs z (λ j m. f j (ground arith)) g h.2,
  )

  pub IsRing-congr : (xs : List ℕ) → Agree p q xs → IsRing p xs → IsRing q xs
  IsRing-congr [] f h = tt
  IsRing-congr (x ∷ xs) f h = Chain-congr x xs x f (f x (ground arith)).1 h

  -- A chain redirected at its end: the last node now points to `w`, and `w` back to it.
  pub Chain-redirect :
      (a : ℕ) (xs : List ℕ) (z w : ℕ)
      → Distinct (a ∷ xs)
      → ((j : ℕ) → mem j (a ∷ xs) ≡ true → j ≢ last_of a xs → q.next j ≡ p.next j)
      → ((j : ℕ) → mem j xs ≡ true → q.prev j ≡ p.prev j)
      → q.next (last_of a xs) ≡ some w
      → q.prev w ≡ some (last_of a xs)
      → Chain p a xs z
      → Chain q a xs w
  Chain-redirect a [] z w d f g e k h = (e, k)
  Chain-redirect a (x ∷ xs) z w d f g e k h = (
    f a (ground arith) (last_of-ne a x xs d) ∙ h.0,
    g x (ground arith) ∙ h.1,
    Chain-redirect x xs z w d.1 (λ j m. f j (ground arith)) (λ j m. g j (ground arith)) e k h.2,
  )

  -- A new node linked in before the first: it becomes the last of the ring.
  pub IsRing-insert :
      (a : ℕ) (xs : List ℕ) (n : ℕ)
      → Distinct (a ∷ xs)
      → mem n (a ∷ xs) ≡ false
      → ((j : ℕ) → mem j (a ∷ xs) ≡ true → j ≢ last_of a xs → q.next j ≡ p.next j)
      → ((j : ℕ) → mem j xs ≡ true → q.prev j ≡ p.prev j)
      → q.next (last_of a xs) ≡ some n
      → q.prev n ≡ some (last_of a xs)
      → q.next n ≡ some a
      → q.prev a ≡ some n
      → IsRing p (a ∷ xs)
      → IsRing q (a ∷ xs ++ n ∷ [])
  IsRing-insert a xs n d m f g e k u v h =
      Chain-append q a xs n [] a (Chain-redirect a xs a n d f g e k h) (u, v)

  -- The first node taken out of a ring of several.
  pub IsRing-remove :
      (x y : ℕ) (ys : List ℕ)
      → Distinct (x ∷ y ∷ ys)
      → ((j : ℕ) → mem j (y ∷ ys) ≡ true → j ≢ last_of y ys → q.next j ≡ p.next j)
      → ((j : ℕ) → mem j ys ≡ true → q.prev j ≡ p.prev j)
      → q.next (last_of y ys) ≡ some y
      → q.prev y ≡ some (last_of y ys)
      → IsRing p (x ∷ y ∷ ys)
      → IsRing q (y ∷ ys)
  IsRing-remove x y ys d f g e k h = Chain-redirect y ys x y d.1 f g e k h.2
