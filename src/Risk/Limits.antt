-- ===== src/Risk/Limits.antt =====
-- What `reserve` lets through, and what it does to the pending quantities.
use trade_system.Common.{
  ℕ, ◌+◌, ◌%◌, ◌^◌, ◌<◌, ◌≡◌, ◌∙◌, refl, ap, sym, subst, leb, if◌then◌else◌, true, false, ◌∷◌, none,
  update_self, arith, Bool-cases, Option-cases, inl, inr,
}
use trade_system.Common.Int.{pos, ◌≤ℤ◌, ◌+ℤ◌, ◌-ℤ◌}
use trade_system.Types.{Side, is_buy, is_sell, max_tickers}
use trade_system.Messages.{ClientRequest}
use trade_system.Risk.{
  RiskManager, RiskInfo, RiskCheckResult, Reservation, is_allowed, is_new, check_info, exceeds,
  as_int64, check_pre_trade_risk, find_reservation, add_pending, reserve,
}
use trade_system.Risk.Pending.{IsBalanced}

-- With all that is pending done, the position of a ticker is within its limit.
abbrev pub WithinLimits : RiskManager → ℕ → Type 0
WithinLimits m t =
    let i = m.ticker_risk t in
    (i.position +ℤ pos (m.pending_buy t) ≤ℤ pos i.max_position)
    × (pos 0 -ℤ pos i.max_position ≤ℤ i.position -ℤ pos (m.pending_sell t))

-- The reservation of a request, and the manager with it.
abbrev pub reservation : ClientRequest → Reservation
reservation q = record {
  ticker_id = q.ticker_id;
  order_id = q.order_id;
  side = q.side;
  qty = q.qty;
  price = q.price;
}

abbrev pub with_reservation : RiskManager → ClientRequest → RiskManager
with_reservation m q =
    add_pending (record m { reservations = reservation q ∷ m.reservations }) q.side q.ticker_id
      q.qty

-- `reserve` on a new order either changes nothing, or makes the reservation of an order that no
-- reservation had yet and that passes the check.
pub record Made (m : RiskManager) (q : ClientRequest) (x : RiskCheckResult × RiskManager)
    : Type 0 where
  pub allowed : is_allowed x.0 ≡ true
  pub fresh : find_reservation m.reservations q.ticker_id q.order_id ≡ none
  pub passed : is_allowed (check_pre_trade_risk m q.ticker_id q.side q.qty) ≡ true
  pub made : x.1 ≡ with_reservation m q

abbrev pub Reserved : RiskManager → ClientRequest → RiskCheckResult × RiskManager → Type 0
Reserved m q x = if is_allowed x.0 then Made m q x else (x.1 ≡ m)

pub reserve_new :
    (m : RiskManager) (q : ClientRequest) → is_new q.type ≡ true → Reserved m q (reserve m q)
unfolding reserve
reserve_new m q n = elim (Option-cases (find_reservation m.reservations q.ticker_id q.order_id)) [
  | inl e ↦ elim (Bool-cases (is_allowed (check_pre_trade_risk m q.ticker_id q.side q.qty))) [
    | inl f ↦ rw (n, e, f) (rw (f) (record { allowed = f; fresh = e; passed = f; made = refl }))
    | inr f ↦ rw (n, e, f) (rw (f) refl)
  ]
  | inr (v, e) ↦ rw (n, e) refl
]

-- The check passes only within the limits.
passed-within :
    (m : RiskManager) (t qty : ℕ) (side : Side)
    → is_allowed (check_pre_trade_risk m t side qty) ≡ true
    → exceeds
        (m.ticker_risk t)
        ((m.pending_buy t + (if is_buy side then qty else 0)) % 2 ^ 64)
        ((m.pending_sell t + (if is_sell side then qty else 0)) % 2 ^ 64)
      ≡ false
unfolding check_pre_trade_risk
passed-within m t qty side h =
    let buys = (m.pending_buy t + (if is_buy side then qty else 0)) % 2 ^ 64 in
    let sells = (m.pending_sell t + (if is_sell side then qty else 0)) % 2 ^ 64 in
    elim (Bool-cases (leb max_tickers t)) [
      | inl a ↦ let z : is_allowed RiskCheckResult.invalid ≡ true = (rw (a) at h) in cc
      | inr a ↦ elim (Bool-cases (is_allowed (check_info (m.ticker_risk t) side qty))) [
        | inl b ↦ elim (Bool-cases (exceeds (m.ticker_risk t) buys sells)) [
          | inl c ↦
              let z : is_allowed RiskCheckResult.position_too_large ≡ true = (rw (a, b, c) at h) in
              cc
          | inr c ↦ c
        ]
        | inr b ↦
            let z : is_allowed (check_info (m.ticker_risk t) side qty) ≡ true = (rw (a, b) at h) in
            cc
      ]
    ]

-- The pending quantities stay below the largest signed number of 64 bits.
abbrev pub IsSmall : RiskManager → ClientRequest → Type 0
IsSmall m q =
    (m.pending_buy q.ticker_id + q.qty < 2 ^ 63) × (m.pending_sell q.ticker_id + q.qty < 2 ^ 63)

one_side : (side : Side) → is_buy side ≡ true → is_sell side ≡ false
one_side Side.buy h = refl
one_side Side.sell h = cc
one_side Side.invalid h = cc
one_side Side.max h = cc
one_side (Side.other b) h = cc

as_int64_small : (n : ℕ) → n < 2 ^ 63 → as_int64 n ≡ pos n
as_int64_small n h = ground (arith, h)

exceeds_lem :
    (i : RiskInfo) (buys sells : ℕ)
    → buys < 2 ^ 63
    → sells < 2 ^ 63
    → exceeds i buys sells ≡ false
    → (i.position +ℤ pos buys ≤ℤ pos i.max_position)
      × (pos 0 -ℤ pos i.max_position ≤ℤ i.position -ℤ pos sells)
exceeds_lem i buys sells b s h =
    let k = rw (as_int64_small buys b, as_int64_small sells s) at h in
    (ground (arith, k), ground (arith, k))

-- An order that passes is for one of the two sides.
passed-side :
    (m : RiskManager) (t qty : ℕ) (side : Side)
    → is_allowed (check_pre_trade_risk m t side qty) ≡ true
    → is_buy side ≡ false
    → is_sell side ≡ true
unfolding check_pre_trade_risk check_info
passed-side m t qty side h b = elim (Bool-cases (is_sell side)) [
  | inl e ↦ e
  | inr e ↦ elim (Bool-cases (leb max_tickers t)) [
    | inl a ↦ let z : is_allowed RiskCheckResult.invalid ≡ true = (rw (a) at h) in cc
    | inr a ↦ let z : is_allowed RiskCheckResult.invalid ≡ true = (rw (a, b, e) at h) in cc
  ]
]

with_reservation-WithinLimits :
    (m : RiskManager) (q : ClientRequest)
    → IsSmall m q
    → is_allowed (check_pre_trade_risk m q.ticker_id q.side q.qty) ≡ true
    → WithinLimits (with_reservation m q) q.ticker_id
with_reservation-WithinLimits m q small h =
    let t = q.ticker_id in
    let within = passed-within m t q.qty q.side h in
    elim (Bool-cases (is_buy q.side)) [
      | inl b ↦
          let s = one_side q.side b in
          let n = update_self m.pending_buy t ((m.pending_buy t + q.qty) % 2 ^ 64) in
          let same : (m.pending_sell t + 0) % 2 ^ 64 ≡ m.pending_sell t = omega (arith, small.1) in
          let (x, y) =
            exceeds_lem (m.ticker_risk t) ((m.pending_buy t + q.qty) % 2 ^ 64) (m.pending_sell t)
              (omega (arith, small.0)) (omega (arith, small.1))
              (ap (λ k. exceeds (m.ticker_risk t) ((m.pending_buy t + q.qty) % 2 ^ 64) k) (sym same)
                ∙ (rw (b, s) at within)) in
          rw (b) (rw (n) x, y)
      | inr b ↦
          let s = passed-side m t q.qty q.side h b in
          let n = update_self m.pending_sell t ((m.pending_sell t + q.qty) % 2 ^ 64) in
          let same : (m.pending_buy t + 0) % 2 ^ 64 ≡ m.pending_buy t = omega (arith, small.0) in
          let (x, y) =
            exceeds_lem (m.ticker_risk t) (m.pending_buy t) ((m.pending_sell t + q.qty) % 2 ^ 64)
              (omega (arith, small.0)) (omega (arith, small.1))
              (ap (λ k. exceeds (m.ticker_risk t) k ((m.pending_sell t + q.qty) % 2 ^ 64))
                  (sym same)
                ∙ (rw (b, s) at within)) in
          rw (b) (x, rw (n) y)
    ]

-- `reserve` on a new order, with pending quantities that with its own stay below 2^63: when it is allowed, no reservation had its key, and with it the ticker
-- is within its limits even if all that is pending trades; and when it is not, nothing changes.
pub reserve-WithinLimits :
    (m : RiskManager) (q : ClientRequest)
    → is_new q.type ≡ true
    → IsSmall m q
    → (is_allowed (reserve m q).0 ≡ true
        → (find_reservation m.reservations q.ticker_id q.order_id ≡ none)
          × WithinLimits (reserve m q).1 q.ticker_id)
      × (is_allowed (reserve m q).0 ≡ false → (reserve m q).1 ≡ m)
reserve-WithinLimits m q n small = elim (Bool-cases (is_allowed (reserve m q).0)) [
  | inl e ↦
      let d : Made m q (reserve m q) = (rw (e) at (reserve_new m q n)) in
      (
        λ f. (
          d.fresh,
          subst (λ u. WithinLimits u q.ticker_id) (sym d.made)
              (with_reservation-WithinLimits m q small d.passed),
        ),
        λ f. cc,
      )
  | inr e ↦ (λ f. cc, λ f. (rw (e) at (reserve_new m q n)))
]

with_reservation-IsBalanced :
    (m : RiskManager) (q : ClientRequest)
    → IsSmall m q
    → IsBalanced m
    → IsBalanced (with_reservation m q)
with_reservation-IsBalanced m q small h =
    let t = q.ticker_id in
    elim (Bool-cases (is_buy q.side)) [
      | inl b ↦ rw (b) (record {
        buys = λ j. (rw (b) (ground (arith, small.0, h.buys j, h.buys t)));
        sells = λ j. (rw (b) (ground (arith, h.sells j)));
        buys_fit = λ j. ground (arith, small.0, h.buys_fit j);
        sells_fit = h.sells_fit;
      })
      | inr b ↦ rw (b) (record {
        buys = λ j. (rw (b) (ground (arith, h.buys j)));
        sells = λ j. (rw (b) (ground (arith, small.1, h.sells j, h.sells t)));
        buys_fit = h.buys_fit;
        sells_fit = λ j. ground (arith, small.1, h.sells_fit j);
      })
    ]

-- `reserve` keeps the pending quantities the sums of the reservations.
pub reserve-IsBalanced :
    (m : RiskManager) (q : ClientRequest)
    → is_new q.type ≡ true
    → IsSmall m q
    → IsBalanced m
    → IsBalanced (reserve m q).1
reserve-IsBalanced m q n small h = elim (Bool-cases (is_allowed (reserve m q).0)) [
  | inl e ↦
      let d : Made m q (reserve m q) = (rw (e) at (reserve_new m q n)) in
      subst IsBalanced (sym d.made) (with_reservation-IsBalanced m q small h)
  | inr e ↦
      let d : (reserve m q).1 ≡ m = (rw (e) at (reserve_new m q n)) in subst IsBalanced (sym d) h
]
