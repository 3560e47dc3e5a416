-- ===== src/Wire/Validate.antt =====
-- common/order_protocol.h: `validate`.
use trade_system.Common.{◌==◌, ltb, leb, ◌&&◌, ◌||◌, not, if◌then◌else◌, Bool, true, false}
use trade_system.Common.Int.{pos, ltb_ℤ}
use trade_system.Types.{
  is_buy, is_sell, max_num_clients, max_tickers, max_order_ids, price_invalid, qty_invalid,
  int32_max,
}
use trade_system.Messages.{ClientRequest, ClientRequestType, RejectReason}
use trade_system.Matcher.Book.{price_eq}

abbrev pub is_query : ClientRequestType → Bool
is_query ClientRequestType.query = true
is_query _ = false

abbrev pub is_new : ClientRequestType → Bool
is_new ClientRequestType.new = true
is_new _ = false

abbrev pub is_cancel : ClientRequestType → Bool
is_cancel ClientRequestType.cancel = true
is_cancel _ = false

unfoldable pub validate : ClientRequest → RejectReason
validate r =
    if leb max_num_clients r.client_id
      || leb max_tickers r.ticker_id
      || leb max_order_ids r.order_id
    then RejectReason.invalid_id
    else if is_query r.type
    then RejectReason.none_
    else if not (is_new r.type) && not (is_cancel r.type)
    then RejectReason.invalid_type
    else if r.order_id == 0
    then RejectReason.invalid_id
    else if is_cancel r.type
    then RejectReason.none_
    else if not (is_buy r.side) && not (is_sell r.side)
    then RejectReason.invalid_side
    else if not (ltb_ℤ (pos 0) r.price) || price_eq r.price price_invalid
    then RejectReason.invalid_price
    else if r.qty == 0 || r.qty == qty_invalid || ltb int32_max r.qty
    then RejectReason.invalid_qty
    else RejectReason.none_
