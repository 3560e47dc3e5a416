-- ===== src/Common/Outcomes.antt =====
-- What a piece of code comes to: a value, a fault (an ASSERT that fails and ends the process, or a
-- read through a null or dangling pointer), or, for a loop on fuel, no more fuel.
use mathlib.Core.Path.{◌≡◌, refl}
use mathlib.Core.Option.{Option, none, some}
use mathlib.Core.Bool.{Bool, true, false}

pub data Outcome {ℓ} (A : Type ℓ) : Type ℓ where
  done : A → Outcome A
  fault : Outcome A
  out_of_fuel : Outcome A

infixl 5 ◌>>=◌ ◌>>◌
abbrev pub ◌>>=◌ {ℓ κ} : {A : Type ℓ} {B : Type κ} → Outcome A → (A → Outcome B) → Outcome B
done a >>= f = f a
fault >>= f = fault
out_of_fuel >>= f = out_of_fuel

abbrev pub ◌>>◌ {κ} : {B : Type κ} → Outcome (Unit {0}) → Outcome B → Outcome B
m >> k = m >>= λ _. k

-- `ASSERT(cond, …)`
abbrev pub assert : Bool → Outcome (Unit {0})
assert true = done tt
assert false = fault

-- A pointer that is followed.
abbrev pub deref {ℓ} : {A : Type ℓ} → Option A → Outcome A
deref none = fault
deref (some a) = done a

-- The successful outcomes satisfy `P`; a fault says nothing.
pub >>=-eq-done {ℓ κ} :
    {A : Type ℓ} {B : Type κ} (m : Outcome A) (f : A → Outcome B) {b : B}
    → (m >>= f) ≡ done b
    → (a : A) × (m ≡ done a) × (f a ≡ done b)
>>=-eq-done (done a) f h = (a, refl, h)
>>=-eq-done fault f h = cc
>>=-eq-done out_of_fuel f h = cc

-- The code returns, and its value satisfies `P`.
abbrev pub Returns {ℓ} : {A : Type ℓ} → (A → Type 0) → Outcome A → Type 0
Returns P (done a) = P a
Returns P fault = ⊥
Returns P out_of_fuel = ⊥

pub Returns-bind {ℓ κ} :
    {A : Type ℓ} {B : Type κ} (P : A → Type 0) (Q : B → Type 0) (m : Outcome A) (f : A → Outcome B)
    → Returns P m
    → ((a : A) → P a → Returns Q (f a))
    → Returns Q (m >>= f)
Returns-bind P Q (done a) f h k = k a h
Returns-bind P Q fault f h k = absurd h
Returns-bind P Q out_of_fuel f h k = absurd h

-- The code returns a value, which is the one that it is.
pub returned :
    {A : Type 0} (P : A → Type 0) (m : Outcome A) → Returns P m → Returns (λ a. m ≡ done a) m
returned P (done a) h = refl
returned P fault h = absurd h
returned P out_of_fuel h = absurd h

pub Returns-map {ℓ} :
    {A : Type ℓ} (P Q : A → Type 0) (m : Outcome A)
    → ((a : A) → P a → Q a)
    → Returns P m
    → Returns Q m
Returns-map P Q (done a) f h = f a h
Returns-map P Q fault f h = h
Returns-map P Q out_of_fuel f h = h

-- If the code returns, its value satisfies `P`.
abbrev pub OnDone {ℓ} : {A : Type ℓ} → (A → Type 0) → Outcome A → Type 0
OnDone P (done a) = P a
OnDone P fault = Unit {0}
OnDone P out_of_fuel = Unit {0}

pub OnDone-bind {ℓ κ} :
    {A : Type ℓ} {B : Type κ} (P : A → Type 0) (Q : B → Type 0) (m : Outcome A) (f : A → Outcome B)
    → OnDone P m
    → ((a : A) → P a → OnDone Q (f a))
    → OnDone Q (m >>= f)
OnDone-bind P Q (done a) f h k = k a h
OnDone-bind P Q fault f h k = tt
OnDone-bind P Q out_of_fuel f h k = tt

pub Returns-OnDone {ℓ} :
    {A : Type ℓ} (P Q : A → Type 0) (m : Outcome A)
    → Returns P m
    → OnDone Q m
    → Returns (λ a. P a × Q a) m
Returns-OnDone P Q (done a) h k = (h, k)
Returns-OnDone P Q fault h k = h
Returns-OnDone P Q out_of_fuel h k = h

pub OnDone-map {ℓ} :
    {A : Type ℓ} (P Q : A → Type 0) (m : Outcome A)
    → ((a : A) → P a → Q a)
    → OnDone P m
    → OnDone Q m
OnDone-map P Q (done a) f h = f a h
OnDone-map P Q fault f h = h
OnDone-map P Q out_of_fuel f h = h
