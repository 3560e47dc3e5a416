-- ===== src/Ring.antt =====
-- Circular doubly linked lists, as the order books thread them through orders and price levels.
-- Nothing here is about one kind of node, so both rings of both books are instances.
pub mod Change
use trade_system.Common.{
  ℕ, ◌≡◌, ◌≢◌, Bool, true, List, [], ◌∷◌, ◌++◌, Option, some, none, mem, Distinct, arith,
  append-nil,
}

-- The two pointers of each node; `none` is a null pointer.
pub record Pointers : Type 0 where
  pub next : ℕ → Option ℕ
  pub prev : ℕ → Option ℕ

-- From `a` through `xs` to `z`, both ways round.
abbrev pub Chain : Pointers → ℕ → List ℕ → ℕ → Type 0
Chain p a [] z = (p.next a ≡ some z) × (p.prev z ≡ some a)
Chain p a (x ∷ xs) z = (p.next a ≡ some x) × (p.prev x ≡ some a) × Chain p x xs z

-- The nodes of a ring, from one of them on.
abbrev pub IsRing : Pointers → List ℕ → Type 0
IsRing p [] = Unit
IsRing p (x ∷ xs) = Chain p x xs x

-- The last of `a ∷ xs`.
abbrev pub last_of : ℕ → List ℕ → ℕ
last_of a [] = a
last_of a (x ∷ xs) = last_of x xs

pub mem-last_of : (a : ℕ) (xs : List ℕ) → mem (last_of a xs) (a ∷ xs) ≡ true
mem-last_of a [] = ground arith
mem-last_of a (x ∷ xs) = ground (arith, mem-last_of x xs)

-- In a chain without repetition only the last node is the last.
pub last_of-ne : (a x : ℕ) (xs : List ℕ) → Distinct (a ∷ x ∷ xs) → a ≢ last_of x xs
last_of-ne a x xs d e = ground (arith, mem-last_of x xs, d.0)

module _ (p : Pointers) where
  pub Chain-append :
      (a : ℕ) (xs : List ℕ) (y : ℕ) (ys : List ℕ) (z : ℕ)
      → Chain p a xs y
      → Chain p y ys z
      → Chain p a (xs ++ y ∷ ys) z
  Chain-append a [] y ys z h k = (h.0, h.1, k)
  Chain-append a (x ∷ xs) y ys z h k = (h.0, h.1, Chain-append x xs y ys z h.2 k)

  pub Chain-split :
      (a : ℕ) (xs : List ℕ) (y : ℕ) (ys : List ℕ) (z : ℕ)
      → Chain p a (xs ++ y ∷ ys) z
      → Chain p a xs y × Chain p y ys z
  Chain-split a [] y ys z h = ((h.0, h.1), h.2)
  Chain-split a (x ∷ xs) y ys z h =
      let rest = Chain-split x xs y ys z h.2 in ((h.0, h.1, rest.0), rest.1)

  -- A ring may be read from any of its nodes on.
  pub IsRing-rotate : (xs ys : List ℕ) → IsRing p (xs ++ ys) → IsRing p (ys ++ xs)
  IsRing-rotate [] ys h = rw (append-nil ys) h
  IsRing-rotate (x ∷ xs) [] h = rw (append-nil xs) at h
  IsRing-rotate (x ∷ xs) (y ∷ ys) h =
      let parts = Chain-split x xs y ys x h in Chain-append y ys x xs y parts.1 parts.0

  -- The pointers at the two ends of a chain.
  pub Chain-prev : (a : ℕ) (xs : List ℕ) (z : ℕ) → Chain p a xs z → p.prev z ≡ some (last_of a xs)
  Chain-prev a [] z h = h.1
  Chain-prev a (x ∷ xs) z h = Chain-prev x xs z h.2

  pub Chain-next : (a : ℕ) (xs : List ℕ) (z : ℕ) → Chain p a xs z → p.next (last_of a xs) ≡ some z
  Chain-next a [] z h = h.0
  Chain-next a (x ∷ xs) z h = Chain-next x xs z h.2
