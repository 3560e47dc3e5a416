-- ===== src/Matcher/Prices.antt =====
-- The levels of a side by price: the order of prices, and the level that a price finds.
use trade_system.Common.{
  ℕ, ◌≡◌, refl, ◌∙◌, Bool, true, false, not, if◌then◌else◌, List, [], ◌∷◌, ◌++◌, Option, none, some,
  All, All-split, All-drop, All-join, arith, Bool-cases, inl, inr,
}
use trade_system.Common.Int.{ℤ}
use trade_system.Types.{Side}
use trade_system.Matcher.Book.{Book, price_eq, update_price}
use trade_system.Matcher.Levels.{better, best_of, set_best}
use trade_system.Matcher.Shape.{Level, IsSorted, find_level, side_of}

pub better-ne : (buy : Bool) (a b : ℤ) → better buy a b ≡ true → price_eq a b ≡ false
better-ne true a b h = ground arith
better-ne false a b h = ground arith

pub price_eq_sym : (a b : ℤ) → price_eq a b ≡ price_eq b a
price_eq_sym a b = ground arith

pub price_eq_refl : (a : ℤ) → price_eq a a ≡ true
price_eq_refl a = ground arith

pub price_eq→eq : (a b : ℤ) → price_eq a b ≡ true → a ≡ b
price_eq→eq a b h = ground arith

pub better_trans :
    (buy : Bool) (a b c : ℤ) → better buy a b ≡ true → better buy b c ≡ true → better buy a c ≡ true
better_trans true a b c h k = ground arith
better_trans false a b c h k = ground arith

-- Of two different prices one is the better.
pub better-total :
    (buy : Bool) (a b : ℤ) → price_eq a b ≡ false → better buy a b ≡ false → better buy b a ≡ true
better-total true a b h k = ground arith
better-total false a b h k = ground arith

pub IsSorted-drop :
    (buy : Bool) (ls : List Level) (l : Level) (ms : List Level)
    → IsSorted buy (ls ++ l ∷ ms)
    → IsSorted buy (ls ++ ms)
IsSorted-drop buy [] l ms s = s.1
IsSorted-drop buy (x ∷ ls) l ms s = (All-drop _ ls l ms s.0, IsSorted-drop buy ls l ms s.1)

-- A level may be replaced by one of the same price.
pub IsSorted-replace :
    (buy : Bool) (ls : List Level) (l k : Level) (ms : List Level)
    → k.price ≡ l.price
    → IsSorted buy (ls ++ l ∷ ms)
    → IsSorted buy (ls ++ k ∷ ms)
IsSorted-replace buy [] l k ms e s = (rw e s.0, s.1)
IsSorted-replace buy (x ∷ ls) l k ms e s =
    let (a, b, c) = All-split (λ m. better buy x.price m.price ≡ true) ls l ms s.0 in
    (
      All-join (λ m. better buy x.price m.price ≡ true) ls k ms a (rw e b) c,
      IsSorted-replace buy ls l k ms e s.1,
    )

find_level-none :
    (buy : Bool) (p : ℤ) (ls : List Level)
    → All (λ m. better buy p m.price ≡ true) ls
    → find_level p ls ≡ none
find_level-none buy p [] h = refl
find_level-none buy p (l ∷ ls) h =
    ground
      (arith, better-ne buy p l.price h.0, price_eq_sym p l.price, find_level-none buy p ls h.1)

-- The price of a level finds it.
pub find_level-cut :
    (buy : Bool) (ls : List Level) (l : Level) (ms : List Level)
    → IsSorted buy (ls ++ l ∷ ms)
    → find_level l.price (ls ++ l ∷ ms) ≡ some l.slot
find_level-cut buy [] l ms s = rw (price_eq_refl l.price)
find_level-cut buy (x ∷ ls) l ms s =
    let (a, b, c) = All-split (λ m. better buy x.price m.price ≡ true) ls l ms s.0 in
    rw (better-ne buy x.price l.price b) (find_level-cut buy ls l ms s.1)

-- Without the level its price finds nothing, and any other price what it found before.
pub find_level-drop :
    (buy : Bool) (p : ℤ) (ls : List Level) (l : Level) (ms : List Level)
    → IsSorted buy (ls ++ l ∷ ms)
    → find_level p (ls ++ ms) ≡ (if price_eq l.price p then none else find_level p (ls ++ l ∷ ms))
find_level-drop buy p [] l ms s = elim (Bool-cases (price_eq l.price p)) [
  | inl e ↦ rw e (find_level-none buy p ms (rw (← price_eq→eq l.price p e) s.0))
  | inr e ↦ rw e refl
]
find_level-drop buy p (x ∷ ls) l ms s =
    let (a, b, c) = All-split (λ m. better buy x.price m.price ≡ true) ls l ms s.0 in
    elim (Bool-cases (price_eq x.price p)) [
      | inl e ↦
          let apart : price_eq l.price p ≡ false =
            rw (← price_eq→eq x.price p e)
              (price_eq_sym l.price x.price ∙ better-ne buy x.price l.price b) in
          rw (e, apart) refl
      | inr e ↦ rw e (find_level-drop buy p ls l ms s.1)
    ]

pub find_level-replace :
    (p : ℤ) (ls : List Level) (l k : Level) (ms : List Level)
    → k.price ≡ l.price
    → k.slot ≡ l.slot
    → find_level p (ls ++ k ∷ ms) ≡ find_level p (ls ++ l ∷ ms)
find_level-replace p [] l k ms e f = rw (e, f)
find_level-replace p (x ∷ ls) l k ms e f = rw (find_level-replace p ls l k ms e f)

-- The two sides do not meet: not in the best levels, nor in the map of prices.
pub best_of-set_best : (b : Book) (buy : Bool) (p : Option ℕ) → best_of (set_best b buy p) buy ≡ p
best_of-set_best b true p = refl
best_of-set_best b false p = refl

pub best_of-set_best-not :
    (b : Book) (buy : Bool) (p : Option ℕ)
    → best_of (set_best b buy p) (not buy) ≡ best_of b (not buy)
best_of-set_best-not b true p = refl
best_of-set_best-not b false p = refl

pub prices-set_best :
    (b : Book) (buy : Bool) (p : Option ℕ)
    → (set_best b buy p).price_orders_at_price ≡ b.price_orders_at_price
prices-set_best b true p = refl
prices-set_best b false p = refl

pub update_price_self :
    (m : Side → ℤ → Option ℕ) (buy : Bool) (q p : ℤ) (v : Option ℕ)
    → update_price m (side_of buy) q v (side_of buy) p
      ≡ (if price_eq q p then v else m (side_of buy) p)
update_price_self m true q p v = refl
update_price_self m false q p v = refl

pub update_price-not :
    (m : Side → ℤ → Option ℕ) (buy : Bool) (q p : ℤ) (v : Option ℕ)
    → update_price m (side_of buy) q v (side_of (not buy)) p ≡ m (side_of (not buy)) p
update_price-not m true q p v = refl
update_price-not m false q p v = refl
