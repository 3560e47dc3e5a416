-- ===== src/Wire/OrderTrips.antt =====
-- A message of the order protocol that is written and read again.
use trade_system.Common.{ℕ, ◌^◌, ◌<◌, ◌≡◌, ◌∙◌, refl, ap, List, some, done, ◌>>=◌, arith, length}
use trade_system.Messages.{SequencedRequest, SequencedResponse}
use trade_system.Wire.Bytes.{put, ◌▸◌, get-put_bind, length-▸}
use trade_system.Wire.EnumLaws.{
  SideFits, IntFits, RequestTypeFits, ResponseTypeFits, ReasonFits, side_trip, int_trip,
  request_type_trip, response_type_trip, reason_trip,
}
use trade_system.Wire.Orders.{
  put_header, header_fields, request_fields, response_fields, get_magic, get_header, encode_request,
  decode_request, encode_response, decode_response,
}

pub get_magic-put :
    (kind : ℕ) (rest : List ℕ)
    → kind < 256
    → get_magic kind (put 1 84 ▸ put 1 83 ▸ put 1 1 ▸ put 1 kind ▸ rest) ≡ done (some rest)
unfolding get_magic
get_magic-put kind rest h =
    get-put_bind 1 _ (omega arith)
    ∙ get-put_bind 1 _ (omega arith)
    ∙ get-put_bind 1 _ (omega arith)
    ∙ get-put_bind 1 _ h
    ∙ ground arith

get_header-put :
    (kind sequence epoch : ℕ) (rest : List ℕ)
    → kind < 256
    → sequence < 256 ^ 8
    → epoch < 256 ^ 8
    → get_header kind (put_header kind sequence epoch rest) ≡ done (some (sequence, epoch, rest))
unfolding get_header
get_header-put kind sequence epoch rest h k l =
    ap (λ m. m >>= header_fields) (get_magic-put kind (put 8 sequence ▸ put 8 epoch ▸ rest) h)
    ∙ get-put_bind 8 _ k
    ∙ get-put_bind 8 _ l

-- Each field fits its width on the wire.
pub record RequestFits (m : SequencedRequest) : Type 0 where
  pub seq_num : m.seq_num < 256 ^ 8
  pub session_epoch : m.session_epoch < 256 ^ 8
  pub type : RequestTypeFits m.request.type
  pub client_id : m.request.client_id < 256 ^ 4
  pub ticker_id : m.request.ticker_id < 256 ^ 4
  pub order_id : m.request.order_id < 256 ^ 8
  pub side : SideFits m.request.side
  pub price : IntFits m.request.price
  pub qty : m.request.qty < 256 ^ 4

-- The frame's number and epoch are put into the request as well.
abbrev pub stamped : SequencedRequest → SequencedRequest
stamped m = record m {
  request = record (m.request) { session_epoch = m.session_epoch; request_seq = m.seq_num };
}

-- A request whose fields fit their widths comes back from its frame of 50 bytes, stamped with the
-- frame's session epoch and sequence number.
pub decode_request-encode_request :
    (m : SequencedRequest)
    → RequestFits m
    → (decode_request (encode_request m) ≡ done (some (stamped m)))
      × (length (encode_request m) ≡ 50)
unfolding decode_request encode_request
decode_request-encode_request m f =
    let type = request_type_trip m.request.type f.type in
    let side = side_trip m.request.side f.side in
    let price = int_trip m.request.price f.price in
    let trip =
      ap (λ h. h >>= request_fields)
        (get_header-put 1 m.seq_num m.session_epoch _ (omega arith) f.seq_num f.session_epoch)
      ∙ get-put_bind 1 _ type.1
      ∙ get-put_bind 4 _ f.client_id
      ∙ get-put_bind 4 _ f.ticker_id
      ∙ get-put_bind 8 _ f.order_id
      ∙ get-put_bind 1 _ side.1
      ∙ get-put_bind 8 _ price.1
      ∙ get-put_bind 4 _ f.qty in
    (trip ∙ rw (type.0, side.0, price.0) refl, simp length-▸)

-- Each field fits its width on the wire.
pub record ResponseFits (m : SequencedResponse) : Type 0 where
  pub seq_num : m.seq_num < 256 ^ 8
  pub session_epoch : m.session_epoch < 256 ^ 8
  pub type : ResponseTypeFits m.response.type
  pub client_id : m.response.client_id < 256 ^ 4
  pub ticker_id : m.response.ticker_id < 256 ^ 4
  pub client_order_id : m.response.client_order_id < 256 ^ 8
  pub market_order_id : m.response.market_order_id < 256 ^ 8
  pub side : SideFits m.response.side
  pub price : IntFits m.response.price
  pub exec_qty : m.response.exec_qty < 256 ^ 4
  pub leaves_qty : m.response.leaves_qty < 256 ^ 4
  pub reject_reason : ReasonFits m.response.reject_reason
  pub response_id : m.response.response_id < 256 ^ 8
  pub position : IntFits m.response.position

-- A response whose fields fit their widths comes back from its frame of 79 bytes unchanged.
pub decode_response-encode_response :
    (m : SequencedResponse)
    → ResponseFits m
    → (decode_response (encode_response m) ≡ done (some m)) × (length (encode_response m) ≡ 79)
unfolding decode_response encode_response
decode_response-encode_response m f =
    let type = response_type_trip m.response.type f.type in
    let side = side_trip m.response.side f.side in
    let price = int_trip m.response.price f.price in
    let reason = reason_trip m.response.reject_reason f.reject_reason in
    let position = int_trip m.response.position f.position in
    let trip =
      ap (λ h. h >>= response_fields)
        (get_header-put 2 m.seq_num m.session_epoch _ (omega arith) f.seq_num f.session_epoch)
      ∙ get-put_bind 1 _ type.1
      ∙ get-put_bind 4 _ f.client_id
      ∙ get-put_bind 4 _ f.ticker_id
      ∙ get-put_bind 8 _ f.client_order_id
      ∙ get-put_bind 8 _ f.market_order_id
      ∙ get-put_bind 1 _ side.1
      ∙ get-put_bind 8 _ price.1
      ∙ get-put_bind 4 _ f.exec_qty
      ∙ get-put_bind 4 _ f.leaves_qty
      ∙ get-put_bind 1 _ reason.1
      ∙ get-put_bind 8 _ f.response_id
      ∙ get-put_bind 8 _ position.1 in
    (trip ∙ rw (type.0, side.0, price.0, reason.0, position.0) refl, simp length-▸)
