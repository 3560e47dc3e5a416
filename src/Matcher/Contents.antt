-- ===== src/Matcher/Contents.antt =====
-- The orders that a list of slots holds, as a list.
use trade_system.Common.{
  ℕ, ◌≡◌, ◌≢◌, ◌∙◌, refl, ap, subst, Bool, true, false, ◌==◌, List, [], ◌∷◌, ◌++◌, Option, some,
  mem, Distinct, Distinct-left, arith, append-nil, ◌-◌, min, Bool-cases, inl, inr,
}
use trade_system.Common.Int.{ℤ}
use trade_system.Intrusive.Laws.{bare_of}
use trade_system.Matcher.Book.{Order, order_node}
use trade_system.Matcher.Fill.{Taker, outside}
use trade_system.Matcher.Removal.{shrink}
use trade_system.Matcher.Shape.{Level, Orders, orders_of}
use trade_system.Matcher.Spec.{contents, one_more, fills, fill_events}
use trade_system.Matcher.MatchOrder.{after_fill}

pub contents_cons :
    (p : Orders) (i : ℕ) (xs : List ℕ) (o : Order)
    → bare_of order_node p i ≡ some o
    → contents p (i ∷ xs) ≡ o ∷ contents p xs
contents_cons p i xs o e = rw (e) refl

pub contents-congr :
    (p q : Orders) (i : ℕ) (xs : List ℕ)
    → ((j : ℕ) → i ≢ j → bare_of order_node q j ≡ bare_of order_node p j)
    → mem i xs ≡ false
    → contents q xs ≡ contents p xs
contents-congr p q i [] h m = refl
contents-congr p q i (x ∷ xs) h m =
    let same = h x (λ e. ground (arith, m, e)) in
    let rest = contents-congr p q i xs h (ground (arith, m)) in
    ap (λ (x : Option Order). one_more x (contents q xs)) same
    ∙ ap (one_more (bare_of order_node p x)) rest

pub orders_of-shrink :
    (l : Level) (q : List ℕ) (ls : List Level) → orders_of (shrink l q ls) ≡ q ++ orders_of ls
orders_of-shrink l [] ls = refl
orders_of-shrink l (x ∷ q) ls = refl

pub orders_of_first :
    (l : Level) (i : ℕ) (q : List ℕ) (ls : List Level)
    → l.queue ≡ i ∷ q
    → orders_of (l ∷ ls) ≡ i ∷ (q ++ orders_of ls)
orders_of_first l i q ls e = ap (λ (x : List ℕ). x ++ orders_of ls) e

-- The first order stands in no other place.
pub first_once :
    (l : Level) (i : ℕ) (q : List ℕ) (ls ms : List Level)
    → l.queue ≡ i ∷ q
    → Distinct (orders_of (l ∷ ls) ++ orders_of ms)
    → mem i (q ++ orders_of ls) ≡ false
first_once l i q ls ms e d =
    (subst Distinct (orders_of_first l i q ls e)
      (Distinct-left (orders_of (l ∷ ls)) (orders_of ms) d)).0

-- Nothing left, or nobody there: nothing trades.
pub fills_none :
    (t : Taker) (buy : Bool) (limit : ℤ) (leaves : ℕ)
    → fills t buy limit leaves [] ≡ record { resting = []; leaves = leaves; events = [] }
unfolding fills
fills_none t buy limit leaves = refl

pub fills_done :
    (t : Taker) (buy : Bool) (limit : ℤ) (leaves : ℕ) (os : List Order)
    → (leaves == 0) ≡ true
    → fills t buy limit leaves os ≡ record { resting = os; leaves = leaves; events = [] }
unfolding fills
fills_done t buy limit leaves [] e = refl
fills_done t buy limit leaves (o ∷ os) e = rw (e) refl

module _ (t : Taker) (buy : Bool) (limit : ℤ) (leaves : ℕ) (o : Order) (os : List Order)
    (some_left : (leaves == 0) ≡ false) where
  pub fills-outside :
      outside buy limit o.price ≡ true
      → fills t buy limit leaves (o ∷ os)
        ≡ record { resting = o ∷ os; leaves = leaves; events = [] }
  unfolding fills
  fills-outside g = rw (some_left, g) refl

  pub fills_used :
      outside buy limit o.price ≡ false
      → (o.qty - min leaves o.qty == 0) ≡ true
      → let f = fills t buy limit (leaves - min leaves o.qty) os in
        fills t buy limit leaves (o ∷ os) ≡ record {
          resting = f.resting;
          leaves = f.leaves;
          events = fill_events t o leaves ++ f.events;
        }
  unfolding fills
  fills_used g z = rw (some_left, g, z) refl

  pub fills_kept :
      outside buy limit o.price ≡ false
      → (o.qty - min leaves o.qty == 0) ≡ false
      → fills t buy limit leaves (o ∷ os) ≡ record {
        resting = record o { qty = o.qty - min leaves o.qty } ∷ os;
        leaves = leaves - min leaves o.qty;
        events = fill_events t o leaves;
      }
  unfolding fills
  fills_kept g z = rw (some_left, g, z) refl

  -- One round of the specification, with what is left of the first order seen again.
  pub fills_round :
      (after : List Order)
      → outside buy limit o.price ≡ false
      → ((o.qty - min leaves o.qty == 0) ≡ true → after ≡ os)
      → ((o.qty - min leaves o.qty == 0) ≡ false
          → after ≡ record o { qty = o.qty - min leaves o.qty } ∷ os)
      → let f = fills t buy limit (leaves - min leaves o.qty) after in
        fills t buy limit leaves (o ∷ os) ≡ record {
          resting = f.resting;
          leaves = f.leaves;
          events = fill_events t o leaves ++ f.events;
        }
  fills_round after g used kept = elim (Bool-cases (o.qty - min leaves o.qty == 0)) [
    | inl z ↦ rw (used z) (fills_used g z)
    | inr z ↦
        let nothing : (leaves - min leaves o.qty == 0) ≡ true = ground (arith, z) in
        rw
          (
            kept z,
            fills_done t buy limit (leaves - min leaves o.qty)
                (record o { qty = o.qty - min leaves o.qty } ∷ os) nothing,
            append-nil (fill_events t o leaves),
          )
          (fills_kept g z)
  ]

module _ (p p' : Orders) (l : Level) (i : ℕ) (q : List ℕ) (ls : List Level) (o : Order)
    (first : l.queue ≡ i ∷ q) (once : mem i (q ++ orders_of ls) ≡ false)
    (others : (j : ℕ) → i ≢ j → bare_of order_node p' j ≡ bare_of order_node p j) where
  pub contents_used :
      (left : ℕ)
      → (left == 0) ≡ true
      → contents p' (orders_of (after_fill l q ls left)) ≡ contents p (q ++ orders_of ls)
  contents_used left z =
      rw (z, orders_of-shrink l q ls) (contents-congr p p' i (q ++ orders_of ls) others once)

  pub contents_kept :
      (left : ℕ)
      → (left == 0) ≡ false
      → bare_of order_node p' i ≡ some o
      → contents p' (orders_of (after_fill l q ls left)) ≡ o ∷ contents p (q ++ orders_of ls)
  contents_kept left z e = rw (z) (
      ap (contents p') (orders_of_first l i q ls first)
      ∙ contents_cons p' i (q ++ orders_of ls) o e
      ∙ ap (λ os. o ∷ os) (contents-congr p p' i (q ++ orders_of ls) others once))
