-- ===== src/Risk/Pending.antt =====
-- The pending quantities are the sums of what the reservations still hold.
use trade_system.Common.{
  ℕ, ◌+◌, ◌-◌, ◌%◌, ◌^◌, ◌<◌, ◌≤◌, ◌≡◌, ◌∙◌, ap, ◌==◌, ◌&&◌, not, if◌then◌else◌, Bool, true, false,
  List, [], ◌∷◌, Option, none, some, arith, Bool-cases, inl, inr,
}
use trade_system.Types.{is_buy}
use trade_system.Risk.{
  RiskManager, Reservation, is_key, find_reservation, erase_reservation, set_reserved, sub_pending,
}

-- What the reservations of a ticker hold on one side.
abbrev pub reserved : Bool → ℕ → List Reservation → ℕ
reserved buy ticker [] = 0
reserved buy ticker (r ∷ rs) =
    (if r.ticker_id == ticker && (if is_buy r.side then buy else not buy) then r.qty else 0)
    + reserved buy ticker rs

abbrev pub holds : Bool → ℕ → ℕ → Reservation → ℕ
holds buy t ticker v = if ticker == t && (if is_buy v.side then buy else not buy) then v.qty else 0

first_key :
    (buy : Bool) (t ticker order : ℕ) (r v : Reservation)
    → is_key ticker order r ≡ true
    → some r ≡ some v
    → holds buy t (r.ticker_id) r ≡ holds buy t ticker v
first_key buy t ticker order r v e h =
    let same : r ≡ v = ap (λ (o : Option Reservation). elim o [ none ↦ r | some x ↦ x ]) h in
    let key : r.ticker_id ≡ ticker = ground (arith, e) in
    ap (λ k. holds buy t k r) key ∙ ap (λ x. holds buy t ticker x) same

-- One entry of the map gives up all it holds.
pub reserved-erase :
    (buy : Bool) (t ticker order : ℕ) (rs : List Reservation) (v : Reservation)
    → find_reservation rs ticker order ≡ some v
    → reserved buy t rs ≡ holds buy t ticker v + reserved buy t (erase_reservation rs ticker order)
reserved-erase buy t ticker order [] v h = cc
reserved-erase buy t ticker order (r ∷ rs) v h = elim (Bool-cases (is_key ticker order r)) [
  | inl e ↦
      rw (e) (ap (λ n. n + reserved buy t rs) (first_key buy t ticker order r v e (rw (e) at h)))
  | inr e ↦ rw (e) (omega (arith, reserved-erase buy t ticker order rs v (rw (e) at h)))
]

-- One entry of the map is cut down to `qty`.
pub reserved-set :
    (buy : Bool) (t ticker order qty : ℕ) (rs : List Reservation) (v : Reservation)
    → find_reservation rs ticker order ≡ some v
    → reserved buy t (set_reserved rs ticker order qty) + holds buy t ticker v
      ≡ holds buy t ticker (record v { qty = qty }) + reserved buy t rs
reserved-set buy t ticker order qty [] v h = cc
reserved-set buy t ticker order qty (r ∷ rs) v h = elim (Bool-cases (is_key ticker order r)) [
  | inl e ↦
      let k : some r ≡ some v = rw (e) at h in
      let one = first_key buy t ticker order r v e k in
      let two =
        first_key buy t ticker order (record r { qty = qty }) (record v { qty = qty }) e
          (ap
            (λ (o : Option Reservation). elim o [
              | none ↦ none
              | some x ↦ some (record x { qty = qty })
            ])
            k) in
      rw (e) (omega (arith, one, two))
  | inr e ↦ rw (e) (omega (arith, reserved-set buy t ticker order qty rs v (rw (e) at h)))
]

-- Both sums, for every ticker, and no sum is beyond 64 bits.
pub record IsBalanced (m : RiskManager) : Type 0 where
  pub buys : (t : ℕ) → m.pending_buy t ≡ reserved true t m.reservations
  pub sells : (t : ℕ) → m.pending_sell t ≡ reserved false t m.reservations
  pub buys_fit : (t : ℕ) → m.pending_buy t < 2 ^ 64
  pub sells_fit : (t : ℕ) → m.pending_sell t < 2 ^ 64

sub_fits : (p q : ℕ) → q ≤ p → p < 2 ^ 64 → (p + 2 ^ 64 - q) % 2 ^ 64 ≡ p - q
sub_fits p q h k = omega (arith, h, k)

-- `qty` is taken from the pending quantity and from the reservations alike.
pub sub_pending-IsBalanced :
    (m : RiskManager) (v : Reservation) (ticker qty : ℕ) (left : List Reservation)
    → IsBalanced m
    → ((buy : Bool) (t : ℕ)
        → reserved buy t m.reservations
          ≡ holds buy t ticker (record v { qty = qty }) + reserved buy t left)
    → IsBalanced (record (sub_pending m v.side ticker qty) { reservations = left })
sub_pending-IsBalanced m v ticker qty left h taken = elim (Bool-cases (is_buy v.side)) [
  | inl e ↦
      let less =
        sub_fits (m.pending_buy ticker) qty (ground (arith, h.buys ticker, taken true ticker, e))
          (h.buys_fit ticker) in
      rw (e) (record {
        buys = λ t. ground (arith, less, h.buys t, taken true t, e);
        sells = λ t. ground (arith, h.sells t, taken false t, e);
        buys_fit = λ t. ground (arith, less, h.buys_fit t);
        sells_fit = h.sells_fit;
      })
  | inr e ↦
      let less =
        sub_fits (m.pending_sell ticker) qty (ground (arith, h.sells ticker, taken false ticker, e))
          (h.sells_fit ticker) in
      rw (e) (record {
        buys = λ t. ground (arith, h.buys t, taken true t, e);
        sells = λ t. ground (arith, less, h.sells t, taken false t, e);
        buys_fit = h.buys_fit;
        sells_fit = λ t. ground (arith, less, h.sells_fit t);
      })
]
