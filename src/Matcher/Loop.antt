-- ===== src/Matcher/Loop.antt =====
-- `checkForMatch`: the loop ends, and it ends where it should.
use trade_system.Common.{
  ℕ, zero, suc, ◌<◌, ◌≡◌, ◌≢◌, ◌∙◌, ◌++◌, append-nil, append_assoc, refl, ap, sym, subst, Bool,
  true, false, not, none, some, Outcome, done, arith, List, [], ◌∷◌, length, length-append, min,
  ◌-◌, ◌==◌, Bool-cases, inl, inr, ◌⊎◌, mem,
}
use trade_system.Common.Int.{ℤ}
use trade_system.Matcher.Book.{Book, Order, Event, order_node}
use trade_system.Matcher.Fill.{
  Taker, match_order, best_opposite, outside, match_loop, check_for_match,
}
use trade_system.Matcher.BestOrder.{first_of, first_of-none, best_opposite-first_of, Best, best_lem}
use trade_system.Matcher.Shape.{Level, Rep, orders_of, side_of}
use trade_system.Matcher.Removal.{shrink}
use trade_system.Matcher.MatchOrder.{after_fill, match_order_step}
use trade_system.Matcher.Spec.{Filled, contents, fills, fill_events}
use trade_system.Matcher.Contents.{
  fills_none, fills_done, fills-outside, fills_round, contents_used, contents_kept, contents_cons,
  first_once, orders_of_first,
}

-- Nothing is left of the incoming order, or no level of the other side is within its limit.
abbrev pub Settled : Bool → ℤ → ℕ → List Level → Type 0
Settled buy limit left [] = Unit {0}
Settled buy limit left (l ∷ ls) = (left ≡ 0) ⊎ (outside buy limit l.price ≡ true)

-- What the loop comes to: the book after it, what is left of the order, the levels of the other
-- side.
pub record Matched (b : Book) (t : Taker) (buy : Bool) (limit : ℤ) (qty : ℕ) (ls ms : List Level)
    (run : Outcome (Book × ℕ)) : Type 0 where
  pub after : Book
  pub left : ℕ
  pub levels : List Level
  pub ran : run ≡ done (after, left)
  pub rep : Rep after (not buy) levels ms
  pub settled : Settled buy limit left levels
  pub resting :
      contents after.order_pool (orders_of levels)
      ≡ (fills t buy limit qty (contents b.order_pool (orders_of ls))).resting
  pub leaves : left ≡ (fills t buy limit qty (contents b.order_pool (orders_of ls))).leaves
  pub events :
      after.emitted
      ≡ b.emitted ++ (fills t buy limit qty (contents b.order_pool (orders_of ls))).events

length-shrink :
    (l : Level) (i : ℕ) (q : List ℕ) (ls : List Level)
    → l.queue ≡ i ∷ q
    → length (orders_of (l ∷ ls)) ≡ suc (length (orders_of (shrink l q ls)))
length-shrink l i [] ls e = rw (e) refl
length-shrink l i (x ∷ q) ls e = rw (e) refl

-- A fill uses up the resting order or the incoming one.
fewer_left :
    (l : Level) (i : ℕ) (q : List ℕ) (ls : List Level) (leaves qty fuel : ℕ)
    → l.queue ≡ i ∷ q
    → length (orders_of (l ∷ ls)) < suc fuel
    → leaves - min leaves qty ≢ 0
    → length (orders_of (after_fill l q ls (qty - min leaves qty))) < fuel
fewer_left l i q ls leaves qty fuel e h ne = elim (Bool-cases (qty - min leaves qty == 0)) [
  | inl z ↦ rw (z) (omega (arith, length-shrink l i q ls e, h))
  | inr z ↦ absurd (ne (ground (arith, z)))
]

module _ (t : Taker) (buy : Bool) (limit : ℤ) (ms : List Level) where
  -- The specification stops at once.
  abbrev Stops : Book → List Level → ℕ → Type 0
  Stops b ls left =
      let os = contents b.order_pool (orders_of ls) in
      fills t buy limit left os ≡ record { resting = os; leaves = left; events = [] }

  stop :
      (b : Book) (ls : List Level) (left : ℕ) (run : Outcome (Book × ℕ))
      → run ≡ done (b, left)
      → Rep b (not buy) ls ms
      → Settled buy limit left ls
      → Stops b ls left
      → Matched b t buy limit left ls ms run
  stop b ls left run e r s f = record {
    after = b;
    left = left;
    levels = ls;
    ran = e;
    rep = r;
    settled = s;
    resting = sym (ap (λ (x : Filled). x.resting) f);
    leaves = sym (ap (λ (x : Filled). x.leaves) f);
    events =
        sym (append-nil b.emitted)
        ∙ ap (λ es. b.emitted ++ es) (sym (ap (λ (x : Filled). x.events) f));
  }

  nothing_left : (ls : List Level) → Settled buy limit 0 ls
  nothing_left [] = tt
  nothing_left (l ∷ ls) = inl refl

  module _ (fuel : ℕ) (b : Book) (leaves : ℕ) where
    round_done :
        (leaves == 0) ≡ true → match_loop (suc fuel) b t buy limit leaves ≡ done (b, leaves)
    unfolding match_loop
    round_done e = rw (e) refl

    round_empty :
        (leaves == 0) ≡ false
        → best_opposite b buy ≡ done none
        → match_loop (suc fuel) b t buy limit leaves ≡ done (b, leaves)
    unfolding match_loop
    round_empty e f = rw (e, f) refl

    module _ (i : ℕ) (o : Order) (e : (leaves == 0) ≡ false)
        (f : best_opposite b buy ≡ done (some i)) (live : b.order_pool.block i ≡ some o) where
      round_outside :
          outside buy limit o.price ≡ true
          → match_loop (suc fuel) b t buy limit leaves ≡ done (b, leaves)
      unfolding match_loop
      round_outside g = rw (e, f, live, g) refl

      round_match :
          (c : Book) (left : ℕ)
          → outside buy limit o.price ≡ false
          → match_order b t i leaves ≡ done (c, left)
          → match_loop (suc fuel) b t buy limit leaves ≡ match_loop fuel c t buy limit left
      unfolding match_loop
      round_match c left g m = rw (e, f, live, g, m) refl

  -- A round of the loop, and one of the specification.
  again :
      (run run' : Outcome (Book × ℕ)) (b c : Book) (ls ks : List Level) (qty left : ℕ)
      (es : List Event)
      → run ≡ run'
      → Matched c t buy limit left ks ms run'
      → c.emitted ≡ b.emitted ++ es
      → (let f = fills t buy limit left (contents c.order_pool (orders_of ks)) in
          fills t buy limit qty (contents b.order_pool (orders_of ls))
          ≡ record { resting = f.resting; leaves = f.leaves; events = es ++ f.events })
      → Matched b t buy limit qty ls ms run
  again run run' b c ls ks qty left es e m sent f = record {
    after = m.after;
    left = m.left;
    levels = m.levels;
    ran = e ∙ m.ran;
    rep = m.rep;
    settled = m.settled;
    resting = m.resting ∙ sym (ap (λ (x : Filled). x.resting) f);
    leaves = m.leaves ∙ sym (ap (λ (x : Filled). x.leaves) f);
    events =
        m.events
        ∙ ap
            (λ (x : List Event).
              x ++ (fills t buy limit left (contents c.order_pool (orders_of ks))).events)
            sent
        ∙ append_assoc b.emitted es
            (fills t buy limit left (contents c.order_pool (orders_of ks))).events
        ∙ ap (λ x. b.emitted ++ x) (sym (ap (λ (x : Filled). x.events) f));
  }

  -- The rest of the loop, on this much fuel.
  abbrev Continues : ℕ → Type 0
  Continues fuel =
      (c : Book) (ks : List Level) (left : ℕ)
      → Rep c (not buy) ks ms
      → 0 < fuel
      → (left ≢ 0 → length (orders_of ks) < fuel)
      → Matched c t buy limit left ks ms (match_loop fuel c t buy limit left)

  at_levels :
      (fuel : ℕ) (b : Book) (ls : List Level) (leaves : ℕ)
      → Continues fuel
      → Rep b (not buy) ls ms
      → length (orders_of ls) < suc fuel
      → (leaves == 0) ≡ false
      → Matched b t buy limit leaves ls ms (match_loop (suc fuel) b t buy limit leaves)
  at_levels fuel b [] leaves go_on r h e =
      stop b [] leaves _
        (round_empty fuel b leaves e
          (best_opposite-first_of b buy ∙ ap (first_of b) r.this_side.best_first ∙ first_of-none b))
        r tt (fills_none t buy limit leaves)
  at_levels fuel b (l ∷ ls) leaves go_on r h e =
      let x = best_lem b buy l ls ms r in
      elim (Bool-cases (outside buy limit x.order.price)) [
        | inl g ↦
            stop b (l ∷ ls) leaves _
              (round_outside fuel b leaves x.slot x.order e x.found x.block g) r
              (inr (ap (outside buy limit) (sym x.at_price) ∙ g))
              (ap (fills t buy limit leaves) (whole x)
                ∙ fills-outside t buy limit leaves _ _ e g
                ∙ ap (λ os. record { resting = os; leaves = leaves; events = [] }) (sym (whole x)))
        | inr g ↦
            let (c, ran, sent, rep, kept) =
              match_order_step b t (not buy) l ls ms x.slot x.rest x.order leaves r x.queue
                x.block in
            let left = leaves - min leaves x.order.qty in
            let fewer = length-shrink l x.slot x.rest ls x.queue in
            let ks = after_fill l x.rest ls (x.order.qty - min leaves x.order.qty) in
            again _ _ b c (l ∷ ls) ks leaves left (fill_events t x.order leaves)
              (round_match fuel b leaves x.slot x.order e x.found x.block c left g ran)
              (go_on c ks left rep (omega (arith, fewer, h))
                (fewer_left l x.slot x.rest ls leaves x.order.qty fuel x.queue h))
              sent
              (ap (fills t buy limit leaves) (whole x)
                ∙ fills_round t buy limit leaves (order_node.bare x.order)
                    (contents b.order_pool (x.rest ++ orders_of ls)) e
                    (contents c.order_pool (orders_of ks)) g
                    (contents_used b.order_pool c.order_pool l x.slot x.rest ls
                      (order_node.bare x.order) x.queue (once x) kept.others _)
                    (λ z.
                      contents_kept b.order_pool c.order_pool l x.slot x.rest ls _ x.queue (once x)
                        kept.others _ z (kept.itself z)))
      ]
    where
      once : (x : Best b buy l) → mem x.slot (x.rest ++ orders_of ls) ≡ false
      once x = first_once l x.slot x.rest ls ms x.queue r.orders_distinct

      whole :
          (x : Best b buy l)
          → contents b.order_pool (orders_of (l ∷ ls))
            ≡ order_node.bare x.order ∷ contents b.order_pool (x.rest ++ orders_of ls)
      whole x =
          ap (contents b.order_pool) (orders_of_first l x.slot x.rest ls x.queue)
          ∙ contents_cons b.order_pool x.slot (x.rest ++ orders_of ls) (order_node.bare x.order)
              (ground (arith, x.block))

  match_loop_lem :
      (fuel : ℕ) (b : Book) (ls : List Level) (leaves : ℕ)
      → Rep b (not buy) ls ms
      → 0 < fuel
      → (leaves ≢ 0 → length (orders_of ls) < fuel)
      → Matched b t buy limit leaves ls ms (match_loop fuel b t buy limit leaves)
  match_loop_lem zero b ls leaves r p h = absurd (omega (arith, p))
  match_loop_lem (suc fuel) b ls leaves r p h = elim (Bool-cases (leaves == 0)) [
    | inl e ↦
        let none_left : leaves ≡ 0 = ground (arith, e) in
        stop b ls leaves _ (round_done fuel b leaves e) r
          (subst (λ n. Settled buy limit n ls) (sym none_left) (nothing_left ls))
          (fills_done t buy limit leaves _ e)
    | inr e ↦
        at_levels fuel b ls leaves (λ c ks left. match_loop_lem fuel c ks left) r
          (h (ground (arith, e))) e
  ]

check_for_match-side :
    (b : Book) (t : Taker) (buy : Bool) (limit : ℤ) (qty : ℕ)
    → t.side ≡ side_of buy
    → check_for_match b t limit qty ≡ match_loop (suc b.order_pool.capacity) b t buy limit qty
unfolding check_for_match
check_for_match-side b t true limit qty e = rw (e) refl
check_for_match-side b t false limit qty e = rw (e) refl

-- `checkForMatch` for a buyer or a seller, on a valid book with the levels `ls` on the other side
-- and `ms` on the incoming order's own: it ends within its fuel and without a fault, in a valid
-- book that still has `ms`, and what is left of the incoming order, the resting orders and the
-- messages are exactly those of `fills`, which takes the resting orders in the order of their
-- priority. It stops only when nothing is left of the incoming order, the other side is empty, or
-- its best price is outside the limit.
pub check_for_match-Matched :
    (b : Book) (t : Taker) (buy : Bool) (limit : ℤ) (qty : ℕ) (ls ms : List Level)
    → t.side ≡ side_of buy
    → Rep b (not buy) ls ms
    → Matched b t buy limit qty ls ms (check_for_match b t limit qty)
check_for_match-Matched b t buy limit qty ls ms e r =
    let enough : length (orders_of ls) < suc b.order_pool.capacity = omega (
      arith,
      length-append (orders_of ls) (orders_of ms),
      r.orders_counted,
      r.orders_valid.conserved,
    ) in
    subst (Matched b t buy limit qty ls ms) (sym (check_for_match-side b t buy limit qty e)) (
      match_loop_lem t buy limit ms (suc b.order_pool.capacity) b ls qty r (omega arith)
        (λ _. enough))
