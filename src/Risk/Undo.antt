-- ===== src/Risk/Undo.antt =====
-- A reservation that is undone, and what a reserved request leaves.
use trade_system.Common.{
  ℕ, ◌≡◌, refl, sym, subst, true, false, arith, Bool-cases, inl, inr, if◌then◌else◌, if_true,
  if_false,
}
use trade_system.Types.{is_buy}
use trade_system.Messages.{ClientRequest}
use trade_system.Risk.{RiskManager, is_allowed, is_new, is_key, reserve, rollback}
use trade_system.Risk.Pending.{IsBalanced}
use trade_system.Risk.Limits.{
  WithinLimits, reservation, with_reservation, Made, reserve_new, IsSmall, reserve-WithinLimits,
  reserve-IsBalanced,
}

-- Two managers with the same reservations and pending quantities.
pub record Agree (m n : RiskManager) : Type 0 where
  pub reservations : n.reservations ≡ m.reservations
  pub buys : (t : ℕ) → n.pending_buy t ≡ m.pending_buy t
  pub sells : (t : ℕ) → n.pending_sell t ≡ m.pending_sell t

own_key : (q : ClientRequest) → is_key q.ticker_id q.order_id (reservation q) ≡ true
own_key q = ground arith

-- `rollback` undoes what `reserve` did.
pub rollback-with_reservation :
    (m : RiskManager) (q : ClientRequest)
    → is_new q.type ≡ true
    → IsSmall m q
    → Agree m (rollback (with_reservation m q) q)
unfolding rollback
rollback-with_reservation m q n small =
    let t = q.ticker_id in
    elim (Bool-cases (is_buy q.side)) [
      | inl b ↦
          rw (n, b, own_key q, b)
            (record {
              reservations = rw (own_key q) refl;
              buys = λ j. ground (arith, small.0);
              sells = λ j. refl;
            })
      | inr b ↦
          rw (n, b, own_key q, b)
            (record {
              reservations = rw (own_key q) refl;
              buys = λ j. refl;
              sells = λ j. ground (arith, small.1);
            })
    ]

-- A request that is no new order changes nothing.
reserve_old : (m : RiskManager) (q : ClientRequest) → is_new q.type ≡ false → (reserve m q).1 ≡ m
unfolding reserve
reserve_old m q n = rw (n) refl

rollback_old :
    (m : RiskManager) (q : ClientRequest) → is_new q.type ≡ false → Agree m (rollback m q)
unfolding rollback
rollback_old m q n = rw (n) (record { reservations = refl; buys = λ t. refl; sells = λ t. refl })

-- What an allowed request of any kind comes to.
pub record Allowed (m : RiskManager) (q : ClientRequest) (n : RiskManager) : Type 0 where
  pub balanced : IsBalanced n
  pub undone : Agree m (rollback n q)
  pub within : is_new q.type ≡ true → WithinLimits n q.ticker_id

pub reserve-Allowed :
    (m : RiskManager) (q : ClientRequest)
    → IsSmall m q
    → IsBalanced m
    → (is_allowed (reserve m q).0 ≡ true → Allowed m q (reserve m q).1)
      × (is_allowed (reserve m q).0 ≡ false → (reserve m q).1 ≡ m)
reserve-Allowed m q small h = elim (Bool-cases (is_new q.type)) [
  | inl n ↦
      let (taken, kept) = reserve-WithinLimits m q n small in
      (
        λ a.
            let d : Made m q (reserve m q) = (rw (a) at (reserve_new m q n)) in
            record {
              balanced = reserve-IsBalanced m q n small h;
              undone =
                  subst (λ x. Agree m (rollback x q)) (sym d.made)
                    (rollback-with_reservation m q n small);
              within = λ z. (taken a).1;
            },
        kept,
      )
  | inr n ↦ (
    λ a. record {
      balanced = subst IsBalanced (sym (reserve_old m q n)) h;
      undone = subst (λ x. Agree m (rollback x q)) (sym (reserve_old m q n)) (rollback_old m q n);
      within = λ z. cc;
    },
    λ a. reserve_old m q n,
  )
]

-- A request of any kind that `reserve` allows and that is not sent after all: `rollback` gives back
-- exactly what it had reserved, so that the reservations and the pending quantities of every ticker
-- are those from before `reserve`; and a request that `reserve` does not allow has reserved nothing.
-- The pending quantities are the sums of the reservations and, with that of the request, stay below
-- 2^63.
pub rollback-reserve :
    (m : RiskManager) (q : ClientRequest)
    → IsSmall m q
    → IsBalanced m
    → Agree m (if is_allowed (reserve m q).0 then rollback (reserve m q).1 q else (reserve m q).1)
rollback-reserve m q small h =
    let (taken, kept) = reserve-Allowed m q small h in
    elim (Bool-cases (is_allowed (reserve m q).0)) [
      | inl a ↦ subst (Agree m) (sym (if_true (is_allowed (reserve m q).0) _ _ a)) (taken a).undone
      | inr a ↦ subst (Agree m) (sym (if_false (is_allowed (reserve m q).0) _ _ a)) (
          subst (Agree m) (sym (kept a))
            (record { reservations = refl; buys = λ t. refl; sells = λ t. refl }))
    ]
