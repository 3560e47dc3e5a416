-- ===== src/Risk.antt =====
-- trading/strategy/risk_manager.h: what a client may still order. Profit and loss are doubles and
-- come in as two answers of a check on them: whether the loss is beyond its limit, and whether it
-- is a finite number.
pub mod Pending
pub mod Limits
pub mod Undo
pub mod Responses
mod Tests
use trade_system.Common.{
  ℕ, ◌+◌, ◌-◌, ◌%◌, ◌^◌, ◌==◌, ◌&&◌, ◌||◌, not, ltb, leb, if◌then◌else◌, Bool, true, false, List,
  [], ◌∷◌, Option, none, some, update,
}
use trade_system.Common.Int.{ℤ, pos, ltb_ℤ, ◌+ℤ◌, ◌-ℤ◌, ◌*ℤ◌, abs}
use trade_system.Types.{Side, is_buy, is_sell, side_eq, side_to_value, int32_max, max_tickers}
use trade_system.Messages.{
  ClientRequest, ClientRequestType, ClientResponse, ClientResponseType, RejectReason,
}

-- `RiskCheckResult`
pub data RiskCheckResult : Type 0 where
  invalid order_too_large position_too_large loss_too_large allowed : RiskCheckResult

-- `RiskInfo`: the position with the limits of one ticker.
pub record RiskInfo : Type 0 where
  pub position : ℤ
  pub loss_too_large : Bool
  pub pnl_is_finite : Bool
  pub max_order_size : ℕ
  pub max_position : ℕ

-- `Reservation`, with its key in the map.
pub record Reservation : Type 0 where
  pub ticker_id : ℕ
  pub order_id : ℕ
  pub side : Side
  pub qty : ℕ
  pub price : ℤ

-- `RiskManager`
pub record RiskManager : Type 0 where
  pub ticker_risk : ℕ → RiskInfo
  pub reservations : List Reservation
  pub pending_buy : ℕ → ℕ
  pub pending_sell : ℕ → ℕ

abbrev pub is_allowed : RiskCheckResult → Bool
is_allowed RiskCheckResult.allowed = true
is_allowed _ = false

-- `RiskInfo::checkPreTradeRisk`
unfoldable pub check_info : RiskInfo → Side → ℕ → RiskCheckResult
check_info i side qty =
    if not (is_buy side) && not (is_sell side) || qty == 0 || ltb int32_max qty
    then RiskCheckResult.invalid
    else if ltb i.max_order_size qty
    then RiskCheckResult.order_too_large
    else if ltb_ℤ (pos i.max_position) (abs (i.position +ℤ side_to_value side *ℤ pos qty))
    then RiskCheckResult.position_too_large
    else if i.loss_too_large
    then RiskCheckResult.loss_too_large
    else RiskCheckResult.allowed

-- `int64_t(n)` of a 64-bit number.
abbrev pub as_int64 : ℕ → ℤ
as_int64 n = if ltb n (2 ^ 63) then pos n else pos n -ℤ pos (2 ^ 64)

-- What is pending already counts as done.
abbrev pub exceeds : RiskInfo → ℕ → ℕ → Bool
exceeds i buys sells =
    ltb_ℤ (pos i.max_position) (i.position +ℤ as_int64 buys)
    || ltb_ℤ (i.position -ℤ as_int64 sells) (pos 0 -ℤ pos i.max_position)

-- `RiskManager::checkPreTradeRisk`
unfoldable pub check_pre_trade_risk : RiskManager → ℕ → Side → ℕ → RiskCheckResult
unfolding check_info
check_pre_trade_risk m ticker side qty =
    let i = m.ticker_risk ticker in
    let result = check_info i side qty in
    let buys = (m.pending_buy ticker + (if is_buy side then qty else 0)) % 2 ^ 64 in
    let sells = (m.pending_sell ticker + (if is_sell side then qty else 0)) % 2 ^ 64 in
    if leb max_tickers ticker
    then RiskCheckResult.invalid
    else if not (is_allowed result)
    then result
    else if exceeds i buys sells
    then RiskCheckResult.position_too_large
    else if not i.pnl_is_finite
    then RiskCheckResult.loss_too_large
    else RiskCheckResult.allowed

abbrev pub is_key : ℕ → ℕ → Reservation → Bool
is_key ticker order r = r.ticker_id == ticker && r.order_id == order

-- `find`, `erase`, and the change of what is left of a reservation.
abbrev pub find_reservation : List Reservation → ℕ → ℕ → Option Reservation
find_reservation [] ticker order = none
find_reservation (r ∷ rs) ticker order =
    if is_key ticker order r then some r else find_reservation rs ticker order

abbrev pub erase_reservation : List Reservation → ℕ → ℕ → List Reservation
erase_reservation [] ticker order = []
erase_reservation (r ∷ rs) ticker order =
    if is_key ticker order r then rs else r ∷ erase_reservation rs ticker order

abbrev pub set_reserved : List Reservation → ℕ → ℕ → ℕ → List Reservation
set_reserved [] ticker order qty = []
set_reserved (r ∷ rs) ticker order qty =
    if is_key ticker order r
    then record r { qty = qty } ∷ rs
    else r ∷ set_reserved rs ticker order qty

-- `+=` and `-=` on the array of the side.
abbrev pub add_pending : RiskManager → Side → ℕ → ℕ → RiskManager
add_pending m side ticker qty =
    if is_buy side
    then record m {
      pending_buy = update m.pending_buy ticker ((m.pending_buy ticker + qty) % 2 ^ 64);
    }
    else record m {
      pending_sell = update m.pending_sell ticker ((m.pending_sell ticker + qty) % 2 ^ 64);
    }

abbrev pub sub_pending : RiskManager → Side → ℕ → ℕ → RiskManager
sub_pending m side ticker qty =
    if is_buy side
    then record m {
      pending_buy = update m.pending_buy ticker ((m.pending_buy ticker + 2 ^ 64 - qty) % 2 ^ 64);
    }
    else record m {
      pending_sell = update m.pending_sell ticker ((m.pending_sell ticker + 2 ^ 64 - qty) % 2 ^ 64);
    }

abbrev pub is_new : ClientRequestType → Bool
is_new ClientRequestType.new = true
is_new _ = false

-- `reserve`
unfoldable pub reserve : RiskManager → ClientRequest → RiskCheckResult × RiskManager
unfolding check_pre_trade_risk
reserve m q =
    if not (is_new q.type)
    then (RiskCheckResult.allowed, m)
    else elim (find_reservation m.reservations q.ticker_id q.order_id) [
      | some _ ↦ (RiskCheckResult.invalid, m)
      | none ↦
          let result = check_pre_trade_risk m q.ticker_id q.side q.qty in
          if not (is_allowed result)
          then (result, m)
          else (let r : Reservation = record {
            ticker_id = q.ticker_id;
            order_id = q.order_id;
            side = q.side;
            qty = q.qty;
            price = q.price;
          } in
              (
                result,
                add_pending (record m { reservations = r ∷ m.reservations }) q.side q.ticker_id
                    q.qty,
              ))
    ]

-- `rollback`
unfoldable pub rollback : RiskManager → ClientRequest → RiskManager
rollback m q =
    if not (is_new q.type)
    then m
    else elim (find_reservation m.reservations q.ticker_id q.order_id) [
      | none ↦ m
      | some r ↦ record (sub_pending m r.side q.ticker_id r.qty) {
        reservations = erase_reservation m.reservations q.ticker_id q.order_id;
      }
    ]

-- A fill uses up a part of the reservation, and its numbers must add up.
abbrev pub on_fill : RiskManager → Reservation → ClientResponse → Bool × RiskManager
on_fill m v r =
    if not (side_eq r.side v.side)
      || r.exec_qty == 0
      || ltb v.qty r.exec_qty
      || not (r.exec_qty + r.leaves_qty == v.qty)
    then (false, m)
    else (
      true,
      record (sub_pending m v.side r.ticker_id r.exec_qty) {
        reservations =
            if r.leaves_qty == 0
            then erase_reservation m.reservations r.ticker_id r.client_order_id
            else set_reserved m.reservations r.ticker_id r.client_order_id r.leaves_qty;
      },
    )

-- The reservation ends, with all that is left of it.
abbrev pub release : RiskManager → Reservation → ClientResponse → RiskManager
release m v r = record (sub_pending m v.side r.ticker_id v.qty) {
  reservations = erase_reservation m.reservations r.ticker_id r.client_order_id;
}

abbrev pub is_duplicate : RejectReason → Bool
is_duplicate RejectReason.duplicate_id = true
is_duplicate _ = false

abbrev pub on_reserved : RiskManager → Reservation → ClientResponse → Bool × RiskManager
on_reserved m v r = elim r.type [
  | ClientResponseType.filled ↦ on_fill m v r
  | ClientResponseType.cancel_rejected ↦ (r.leaves_qty == v.qty, m)
  | ClientResponseType.rejected ↦
      if is_duplicate r.reject_reason then (false, m) else (true, release m v r)
  | ClientResponseType.canceled ↦ (true, release m v r)
  | _ ↦ (true, m)
]

abbrev pub is_fill : ClientResponseType → Bool
is_fill ClientResponseType.filled = true
is_fill _ = false

-- `onResponse`
unfoldable pub on_response : RiskManager → ClientResponse → Bool × RiskManager
on_response m r =
    if leb max_tickers r.ticker_id
    then (false, m)
    else elim (find_reservation m.reservations r.ticker_id r.client_order_id) [
      | none ↦ (not (is_fill r.type), m)
      | some v ↦ on_reserved m v r
    ]

-- `pending`
abbrev pub pending : RiskManager → ℕ → Side → ℕ
pending m ticker side = if is_buy side then m.pending_buy ticker else m.pending_sell ticker

-- `cancellations`
abbrev pub cancellations : ℕ → List Reservation → List ClientRequest
cancellations client [] = []
cancellations client (r ∷ rs) =
    record {
      type = ClientRequestType.cancel;
      client_id = client;
      ticker_id = r.ticker_id;
      order_id = r.order_id;
      side = r.side;
      price = r.price;
      qty = r.qty;
      session_epoch = 0;
      request_seq = 0;
    }
    ∷ cancellations client rs
