-- ===== src/Risk/Responses.antt =====
-- Responses keep the pending quantities and the reservations in balance.
use trade_system.Common.{
  ◌+◌, ◌≡◌, refl, ◌==◌, ◌||◌, not, ltb, leb, Bool, some, arith, Bool-cases, Option-cases, inl, inr,
  if_both,
}
use trade_system.Types.{side_eq, max_tickers}
use trade_system.Messages.{ClientResponse, ClientResponseType}
use trade_system.Risk.{
  RiskManager, Reservation, find_reservation, erase_reservation, is_duplicate, on_fill, release,
  on_reserved, on_response,
}
use trade_system.Risk.Pending.{IsBalanced, reserved-erase, reserved-set, sub_pending-IsBalanced}

module _ (m : RiskManager) (v : Reservation) (r : ClientResponse) (h : IsBalanced m)
    (f : find_reservation m.reservations r.ticker_id r.client_order_id ≡ some v) where
  release-IsBalanced : IsBalanced (release m v r)
  release-IsBalanced =
      sub_pending-IsBalanced m v r.ticker_id v.qty
        (erase_reservation m.reservations r.ticker_id r.client_order_id) h
        (λ buy t. reserved-erase buy t r.ticker_id r.client_order_id m.reservations v f)

  on_fill-IsBalanced : IsBalanced (on_fill m v r).1
  on_fill-IsBalanced =
      elim (Bool-cases (
        not (side_eq r.side v.side)
        || r.exec_qty == 0
        || ltb v.qty r.exec_qty
        || not (r.exec_qty + r.leaves_qty == v.qty))) [
          | inl e ↦ rw (e) h
          | inr e ↦
              let adds : r.exec_qty + r.leaves_qty ≡ v.qty = ground (arith, e) in
              rw (e) (
                sub_pending-IsBalanced m v r.ticker_id r.exec_qty _ h (λ buy t.
                  elim (Bool-cases (r.leaves_qty == 0)) [
                    | inl z ↦ rw (z) (
                        ground (
                          arith,
                          z,
                          adds,
                          reserved-erase buy t r.ticker_id r.client_order_id m.reservations v f,
                        ))
                    | inr z ↦ rw (z) (
                        ground (
                          arith,
                          adds,
                          reserved-set buy t r.ticker_id r.client_order_id r.leaves_qty
                              m.reservations v f,
                        ))
                  ]))
        ]

  on_reserved-IsBalanced : IsBalanced (on_reserved m v r).1
  on_reserved-IsBalanced = go r.type refl
    where
      go : (k : ClientResponseType) → r.type ≡ k → IsBalanced (on_reserved m v r).1
      go ClientResponseType.filled e = rw (on_reserved, e) on_fill-IsBalanced
      go ClientResponseType.rejected e =
          rw (on_reserved, e)
            (if_both (λ (x : Bool × RiskManager). IsBalanced x.1) (is_duplicate r.reject_reason) h
              release-IsBalanced)
      go ClientResponseType.canceled e = rw (on_reserved, e) release-IsBalanced
      go ClientResponseType.cancel_rejected e = rw (on_reserved, e) h
      go ClientResponseType.invalid e = rw (on_reserved, e) h
      go ClientResponseType.accepted e = rw (on_reserved, e) h
      go ClientResponseType.state e = rw (on_reserved, e) h
      go (ClientResponseType.other b) e = rw (on_reserved, e) h

-- `onResponse`: whatever response arrives, the pending quantity of each ticker and side stays the
-- sum of what its reservations still hold.
pub on_response-IsBalanced :
    (m : RiskManager) (r : ClientResponse) → IsBalanced m → IsBalanced (on_response m r).1
unfolding on_response
on_response-IsBalanced m r h =
    if_both (λ (x : Bool × RiskManager). IsBalanced x.1) (leb max_tickers r.ticker_id) h
      (elim (Option-cases (find_reservation m.reservations r.ticker_id r.client_order_id)) [
        | inl e ↦ rw (e) h
        | inr (v, e) ↦ rw (e) (on_reserved-IsBalanced m v r h e)
      ])
