-- ===== src/Matcher/Trades.antt =====
-- What trading conserves, and at which prices it happens.
use trade_system.Common.{
  ℕ, ◌+◌, ◌-◌, ◌≡◌, ◌∙◌, ap, Bool, false, not, ◌==◌, min, List, [], ◌∷◌, ◌++◌, Outcome, done, All,
  All-append, arith, Bool-cases, inl, inr,
}
use trade_system.Common.Int.{ℤ}
use trade_system.Messages.{MarketUpdate, MarketUpdateType}
use trade_system.Matcher.Book.{Book, Order, Event, response, market}
use trade_system.Matcher.Fill.{Taker, outside, check_for_match}
use trade_system.Matcher.Shape.{Level, Rep, orders_of, side_of}
use trade_system.Matcher.Spec.{Filled, contents, fills, fill_events}
use trade_system.Matcher.Contents.{fills_none, fills_done, fills-outside, fills_used, fills_kept}
use trade_system.Matcher.Loop.{check_for_match-Matched}

-- The quantity of all trades among some messages, and of some orders.
abbrev pub trade_qty : MarketUpdate → ℕ
trade_qty u = elim u.type [ MarketUpdateType.trade ↦ u.qty | _ ↦ 0 ]

abbrev pub traded : List Event → ℕ
traded [] = 0
traded (response r ∷ es) = traded es
traded (market u ∷ es) = trade_qty u + traded es

abbrev pub resting_qty : List Order → ℕ
resting_qty [] = 0
resting_qty (o ∷ os) = o.qty + resting_qty os

-- Every trade is at a price within the limit.
abbrev pub IsWithin : Bool → ℤ → Event → Type 0
IsWithin buy limit (response r) = Unit {0}
IsWithin buy limit (market u) = elim u.type [
  | MarketUpdateType.trade ↦ outside buy limit u.price ≡ false
  | _ ↦ Unit {0}
]

traded-append : (es fs : List Event) → traded (es ++ fs) ≡ traded es + traded fs
traded-append [] fs = omega arith
traded-append (response r ∷ es) fs = traded-append es fs
traded-append (market u ∷ es) fs = omega (arith, traded-append es fs)

module _ (t : Taker) (buy : Bool) (limit : ℤ) where
  traded-fill_events : (o : Order) (leaves : ℕ) → traded (fill_events t o leaves) ≡ min leaves o.qty
  traded-fill_events o leaves = elim (Bool-cases (o.qty - min leaves o.qty == 0)) [
    | inl e ↦ rw (e) (omega arith)
    | inr e ↦ rw (e) (omega arith)
  ]

  fill_events-IsWithin :
      (o : Order) (leaves : ℕ)
      → outside buy limit o.price ≡ false
      → All (IsWithin buy limit) (fill_events t o leaves)
  fill_events-IsWithin o leaves g = elim (Bool-cases (o.qty - min leaves o.qty == 0)) [
    | inl e ↦ rw (e) (tt, (tt, (g, (tt, tt))))
    | inr e ↦ rw (e) (tt, (tt, (g, (tt, tt))))
  ]

  abbrev Conserves : ℕ → List Order → Filled → Type 0
  Conserves leaves os f =
      (f.leaves + traded f.events ≡ leaves)
      × (resting_qty f.resting + traded f.events ≡ resting_qty os)
      × All (IsWithin buy limit) f.events

  untouched :
      (leaves : ℕ) (os : List Order)
      → Conserves leaves os (record { resting = os; leaves = leaves; events = [] })
  untouched leaves os = (omega arith, omega arith, tt)

  fills-Conserves :
      (leaves : ℕ) (os : List Order) → Conserves leaves os (fills t buy limit leaves os)
  fills-Conserves leaves [] = rw (fills_none t buy limit leaves) (untouched leaves [])
  fills-Conserves leaves (o ∷ os) = elim (Bool-cases (leaves == 0)) [
    | inl e ↦ rw (fills_done t buy limit leaves (o ∷ os) e) (untouched leaves (o ∷ os))
    | inr e ↦ elim (Bool-cases (outside buy limit o.price)) [
      | inl g ↦ rw (fills-outside t buy limit leaves o os e g) (untouched leaves (o ∷ os))
      | inr g ↦ elim (Bool-cases (o.qty - min leaves o.qty == 0)) [
        | inl z ↦
            let (a, b, w) = fills-Conserves (leaves - min leaves o.qty) os in
            let f = fills t buy limit (leaves - min leaves o.qty) os in
            let es = fill_events t o leaves in
            let used : o.qty ≡ min leaves o.qty = ground (arith, z) in
            let sum = traded-append es f.events in
            let here = traded-fill_events o leaves in
            rw (fills_used t buy limit leaves o os e g z) (
              omega (arith, sum, here, a),
              omega (arith, sum, here, b, used),
              All-append (IsWithin buy limit) es f.events (fill_events-IsWithin o leaves g) w,
            )
        | inr z ↦
            let here = traded-fill_events o leaves in
            rw (fills_kept t buy limit leaves o os e g z)
              (omega (arith, here), omega (arith, here), fill_events-IsWithin o leaves g)
      ]
    ]
  ]

-- The account of a run of the loop: what is left of the incoming order and what has traded make up
-- its quantity, the other side has lost just what has traded, and all at prices within the limit.
pub record Account (b : Book) (buy : Bool) (limit : ℤ) (qty : ℕ) (ls ms : List Level)
    (run : Outcome (Book × ℕ)) : Type 0 where
  pub after : Book
  pub left : ℕ
  pub levels : List Level
  pub sent : List Event
  pub ran : run ≡ done (after, left)
  pub rep : Rep after (not buy) levels ms
  pub emitted : after.emitted ≡ b.emitted ++ sent
  pub incoming : left + traded sent ≡ qty
  pub resting :
      resting_qty (contents after.order_pool (orders_of levels)) + traded sent
      ≡ resting_qty (contents b.order_pool (orders_of ls))
  pub within : All (IsWithin buy limit) sent

-- `checkForMatch` on a valid book ends in a valid book, and no quantity is made or lost: the traded
-- quantities and what is left of the incoming order add up to its quantity, the other side has lost
-- exactly the traded quantities, and every trade is at a price within the limit.
pub check_for_match-conserves :
    (b : Book) (t : Taker) (buy : Bool) (limit : ℤ) (qty : ℕ) (ls ms : List Level)
    → t.side ≡ side_of buy
    → Rep b (not buy) ls ms
    → Account b buy limit qty ls ms (check_for_match b t limit qty)
check_for_match-conserves b t buy limit qty ls ms e r =
    let m = check_for_match-Matched b t buy limit qty ls ms e r in
    let f = fills t buy limit qty (contents b.order_pool (orders_of ls)) in
    let (x, y, w) = fills-Conserves t buy limit qty (contents b.order_pool (orders_of ls)) in
    record {
      after = m.after;
      left = m.left;
      levels = m.levels;
      sent = f.events;
      ran = m.ran;
      rep = m.rep;
      emitted = m.events;
      incoming = omega (arith, x, m.leaves);
      resting = ap (λ rs. resting_qty rs + traded f.events) m.resting ∙ y;
      within = w;
    }
