-- ===== src/Wire/Orders.antt =====
-- common/order_protocol.h: the header and the two messages of the order protocol. `decode` gives
-- `none` for the frame it refuses; a frame that is too short is a fault.
use trade_system.Common.{
  ℕ, ◌==◌, not, if◌then◌else◌, List, [], Option, none, some, Outcome, done, ◌>>=◌,
}
use trade_system.Messages.{SequencedRequest, SequencedResponse}
use trade_system.Wire.Bytes.{put, get, ◌▸◌}
use trade_system.Wire.Enums.{
  side_bits, side_from, int_bits, int_from, request_type_bits, request_type_from,
  response_type_bits, response_type_from, reason_bits, reason_from,
}

abbrev pub version : ℕ
version = 1

-- The writing `header`: the bytes 'T' and 'S', the version, the kind, then the two numbers.
abbrev pub put_header : ℕ → ℕ → ℕ → List ℕ → List ℕ
put_header kind sequence epoch rest =
    put 1 84 ▸ put 1 83 ▸ put 1 version ▸ put 1 kind ▸ put 8 sequence ▸ put 8 epoch ▸ rest

-- The four bytes that both protocols begin with. Evaluation of the test stops at the first byte
-- that differs.
unfoldable pub get_magic : ℕ → List ℕ → Outcome (Option (List ℕ))
get_magic kind p = do
  (t, p) ← get 1 p
  if not (t == 84) then done none else do
    (s, p) ← get 1 p
    if not (s == 83) then done none else do
      (v, p) ← get 1 p
      if not (v == version)
          then done none
          else do (k, p) ← get 1 p; if not (k == kind) then done none else done (some p)

-- The reading `header`: its two numbers, after the magic.
abbrev pub header_fields : Option (List ℕ) → Outcome (Option (ℕ × ℕ × List ℕ))
header_fields none = done none
header_fields (some p) = do
  (sequence, p) ← get 8 p
  (epoch, p) ← get 8 p
  done (some (sequence, epoch, p))

unfoldable pub get_header : ℕ → List ℕ → Outcome (Option (ℕ × ℕ × List ℕ))
get_header kind p = get_magic kind p >>= header_fields

-- `encode` of a request
unfoldable pub encode_request : SequencedRequest → List ℕ
encode_request m =
    let r = m.request in
    put_header 1 m.seq_num m.session_epoch (
      put 1 (request_type_bits r.type)
      ▸ put 4 r.client_id
      ▸ put 4 r.ticker_id
      ▸ put 8 r.order_id
      ▸ put 1 (side_bits r.side)
      ▸ put 8 (int_bits r.price)
      ▸ put 4 r.qty
      ▸ [])

-- `decode` of a request: the fields after the header, and the whole.
abbrev pub request_fields : Option (ℕ × ℕ × List ℕ) → Outcome (Option SequencedRequest)
request_fields none = done none
request_fields (some (sequence, epoch, p)) = do
  (type, p) ← get 1 p
  (client_id, p) ← get 4 p
  (ticker_id, p) ← get 4 p
  (order_id, p) ← get 8 p
  (side, p) ← get 1 p
  (price, p) ← get 8 p
  (qty, p) ← get 4 p
  done (
      some (record {
        seq_num = sequence;
        session_epoch = epoch;
        request = record {
          type = request_type_from type;
          client_id = client_id;
          ticker_id = ticker_id;
          order_id = order_id;
          side = side_from side;
          price = int_from price;
          qty = qty;
          session_epoch = epoch;
          request_seq = sequence;
        };
      }))

unfoldable pub decode_request : List ℕ → Outcome (Option SequencedRequest)
decode_request p = get_header 1 p >>= request_fields

-- `encode` of a response
unfoldable pub encode_response : SequencedResponse → List ℕ
encode_response m =
    let r = m.response in
    put_header 2 m.seq_num m.session_epoch (
      put 1 (response_type_bits r.type)
      ▸ put 4 r.client_id
      ▸ put 4 r.ticker_id
      ▸ put 8 r.client_order_id
      ▸ put 8 r.market_order_id
      ▸ put 1 (side_bits r.side)
      ▸ put 8 (int_bits r.price)
      ▸ put 4 r.exec_qty
      ▸ put 4 r.leaves_qty
      ▸ put 1 (reason_bits r.reject_reason)
      ▸ put 8 r.response_id
      ▸ put 8 (int_bits r.position)
      ▸ [])

-- `decode` of a response: the fields after the header, and the whole.
abbrev pub response_fields : Option (ℕ × ℕ × List ℕ) → Outcome (Option SequencedResponse)
response_fields none = done none
response_fields (some (sequence, epoch, p)) = do
  (type, p) ← get 1 p
  (client_id, p) ← get 4 p
  (ticker_id, p) ← get 4 p
  (client_order_id, p) ← get 8 p
  (market_order_id, p) ← get 8 p
  (side, p) ← get 1 p
  (price, p) ← get 8 p
  (exec_qty, p) ← get 4 p
  (leaves_qty, p) ← get 4 p
  (reason, p) ← get 1 p
  (response_id, p) ← get 8 p
  (position, p) ← get 8 p
  done (
      some (record {
        seq_num = sequence;
        session_epoch = epoch;
        response = record {
          type = response_type_from type;
          client_id = client_id;
          ticker_id = ticker_id;
          client_order_id = client_order_id;
          market_order_id = market_order_id;
          side = side_from side;
          price = int_from price;
          exec_qty = exec_qty;
          leaves_qty = leaves_qty;
          reject_reason = reason_from reason;
          response_id = response_id;
          position = int_from position;
        };
      }))

unfoldable pub decode_response : List ℕ → Outcome (Option SequencedResponse)
decode_response p = get_header 2 p >>= response_fields
