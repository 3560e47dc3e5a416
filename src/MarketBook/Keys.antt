-- ===== src/MarketBook/Keys.antt =====
-- The map of price levels, as a function of its keys.
use trade_system.Common.{
  ℕ, ◌≡◌, refl, sym, ap, ◌∙◌, Bool, true, false, ◌&&◌, List, [], ◌∷◌, none, some, Bool-cases, inl,
  inr, ==_iff, arith, if_true, if_false,
}
use trade_system.Common.Int.{ℤ}
use trade_system.Types.{Side, side_eq}
use trade_system.Matcher.Book.{price_eq, update_price}
use trade_system.Matcher.Prices.{price_eq_refl, price_eq→eq}
use trade_system.MarketBook.{PriceEntry, has_key, key_before, find_price, set_price, erase_price}

side_eq→eq : (a b : Side) → side_eq a b ≡ true → a ≡ b
side_eq→eq Side.invalid Side.invalid h = refl
side_eq→eq Side.invalid Side.buy h = cc
side_eq→eq Side.invalid Side.sell h = cc
side_eq→eq Side.invalid Side.max h = cc
side_eq→eq Side.invalid (Side.other j) h = cc
side_eq→eq Side.buy Side.invalid h = cc
side_eq→eq Side.buy Side.buy h = refl
side_eq→eq Side.buy Side.sell h = cc
side_eq→eq Side.buy Side.max h = cc
side_eq→eq Side.buy (Side.other j) h = cc
side_eq→eq Side.sell Side.invalid h = cc
side_eq→eq Side.sell Side.buy h = cc
side_eq→eq Side.sell Side.sell h = refl
side_eq→eq Side.sell Side.max h = cc
side_eq→eq Side.sell (Side.other j) h = cc
side_eq→eq Side.max Side.invalid h = cc
side_eq→eq Side.max Side.buy h = cc
side_eq→eq Side.max Side.sell h = cc
side_eq→eq Side.max Side.max h = refl
side_eq→eq Side.max (Side.other j) h = cc
side_eq→eq (Side.other i) Side.invalid h = cc
side_eq→eq (Side.other i) Side.buy h = cc
side_eq→eq (Side.other i) Side.sell h = cc
side_eq→eq (Side.other i) Side.max h = cc
side_eq→eq (Side.other i) (Side.other j) h = ap Side.other ((==_iff i j).0 h)

side_eq_refl : (a : Side) → side_eq a a ≡ true
side_eq_refl Side.invalid = refl
side_eq_refl Side.buy = refl
side_eq_refl Side.sell = refl
side_eq_refl Side.max = refl
side_eq_refl (Side.other i) = (==_iff i i).1 refl

-- Two keys are the same.
abbrev same_key : Side → ℤ → Side → ℤ → Bool
same_key a x b y = side_eq a b && price_eq x y

same_key→eq : (a b : Side) (x y : ℤ) → same_key a x b y ≡ true → (a ≡ b) × (x ≡ y)
same_key→eq a b x y h = (side_eq→eq a b (ground (arith, h)), price_eq→eq x y (ground (arith, h)))

same_key_refl : (a : Side) (x : ℤ) → same_key a x a x ≡ true
same_key_refl a x = rw (side_eq_refl a, price_eq_refl x) refl

-- A key that is the same as another one is the same as just the keys that this one is.
same_key_trans :
    (a b c : Side) (x y z : ℤ) → same_key a x b y ≡ true → same_key a x c z ≡ same_key b y c z
same_key_trans a b c x y z h =
    let (e, f) = same_key→eq a b x y h in
    ap (λ d. same_key d x c z) e ∙ ap (λ w. same_key b w c z) f

-- If the second of two keys is the same as the third but the first is not, then the first two differ.
same_key_apart :
    (a b c : Side) (x y z : ℤ)
    → same_key a x b y ≡ false
    → same_key a x c z ≡ true
    → same_key b y c z ≡ false
same_key_apart a b c x y z n h = elim (Bool-cases (same_key b y c z)) [
  | inl e ↦
      let (p, q) = same_key→eq b c y z e in
      let same : same_key a x b y ≡ true =
        ap (λ d. same_key a x d y) p ∙ ap (λ w. same_key a x c w) q ∙ h in
      cc
  | inr e ↦ e
]

pub find_price-erase_price :
    (m : List PriceEntry) (side : Side) (price : ℤ) (s : Side) (p : ℤ)
    → update_price (find_price m) side price none s p ≡ find_price (erase_price m side price) s p
find_price-erase_price [] side price s p = elim (Bool-cases (same_key side price s p)) [
  | inl t ↦ rw (t) refl
  | inr t ↦ rw (t) refl
]
find_price-erase_price (e ∷ m) side price s p =
    let rest = find_price-erase_price m side price s p in
    elim (Bool-cases (has_key e side price)) [
      | inl h ↦ elim (Bool-cases (same_key side price s p)) [
        | inl t ↦
            rw (h, t) (sym (if_true (same_key side price s p) none (find_price m s p) t) ∙ rest)
        | inr t ↦
            let other = same_key_trans e.side side s e.price price p h ∙ t in
            rw (h, t, other)
              (sym (if_false (same_key side price s p) none (find_price m s p) t) ∙ rest)
      ]
      | inr h ↦ elim (Bool-cases (has_key e s p)) [
        | inl k ↦ let t = same_key_apart e.side side s e.price price p h k in rw (h, k, t) refl
        | inr k ↦ rw (h, k) rest
      ]
    ]

pub find_price-set_price :
    (m : List PriceEntry) (side : Side) (price : ℤ) (level : ℕ) (s : Side) (p : ℤ)
    → update_price (find_price m) side price (some level) s p
      ≡ find_price (set_price m side price level) s p
find_price-set_price [] side price level s p = refl
find_price-set_price (e ∷ m) side price level s p =
    let rest = find_price-set_price m side price level s p in
    elim (Bool-cases (has_key e side price)) [
      | inl h ↦ elim (Bool-cases (same_key side price s p)) [
        | inl t ↦ rw (h, t) refl
        | inr t ↦
            let other = same_key_trans e.side side s e.price price p h ∙ t in rw (h, t, other) refl
      ]
      | inr h ↦ elim (Bool-cases (key_before side price e)) [
        | inl f ↦ rw (h, f) refl
        | inr f ↦ elim (Bool-cases (has_key e s p)) [
          | inl k ↦ let t = same_key_apart e.side side s e.price price p h k in rw (h, f, k, t) refl
          | inr k ↦ rw (h, f, k) rest
        ]
      ]
    ]
