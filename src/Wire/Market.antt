-- ===== src/Wire/Market.antt =====
-- common/market_protocol.h: the market data frame.
use trade_system.Common.{
  ℕ, leb, ◌&&◌, if◌then◌else◌, List, [], Option, none, some, Outcome, done, ◌>>=◌,
}
use trade_system.Messages.{SequencedUpdate}
use trade_system.Wire.Bytes.{put, get, ◌▸◌}
use trade_system.Wire.Enums.{
  side_bits, side_from, int_bits, int_from, update_type_bits, update_type_from,
}
use trade_system.Wire.Orders.{version, get_magic}

-- `encode`
unfoldable pub encode_update : SequencedUpdate → List ℕ
encode_update m =
    let r = m.update in
    put 1 84
    ▸ put 1 83
    ▸ put 1 version
    ▸ put 1 3
    ▸ put 8 m.seq_num
    ▸ put 8 m.snapshot_cycle
    ▸ put 8 m.watermark
    ▸ put 8 m.state_hash
    ▸ put 1 (update_type_bits r.type)
    ▸ put 8 r.order_id
    ▸ put 4 r.ticker_id
    ▸ put 1 (side_bits r.side)
    ▸ put 8 (int_bits r.price)
    ▸ put 4 r.qty
    ▸ put 8 r.priority
    ▸ []

-- `decode`: the fields after the magic, and the whole. A type outside CLEAR to SNAPSHOT_END is
-- refused.
abbrev pub update_fields : Option (List ℕ) → Outcome (Option SequencedUpdate)
update_fields none = done none
update_fields (some p) = do
  (seq_num, p) ← get 8 p
  (snapshot_cycle, p) ← get 8 p
  (watermark, p) ← get 8 p
  (state_hash, p) ← get 8 p
  (type, p) ← get 1 p
  (order_id, p) ← get 8 p
  (ticker_id, p) ← get 4 p
  (side, p) ← get 1 p
  (price, p) ← get 8 p
  (qty, p) ← get 4 p
  (priority, p) ← get 8 p
  if leb 1 type && leb type 7
      then done (
          some (record {
            seq_num = seq_num;
            snapshot_cycle = snapshot_cycle;
            watermark = watermark;
            state_hash = state_hash;
            update = record {
              type = update_type_from type;
              order_id = order_id;
              ticker_id = ticker_id;
              side = side_from side;
              price = int_from price;
              qty = qty;
              priority = priority;
            };
          }))
      else done none

unfoldable pub decode_update : List ℕ → Outcome (Option SequencedUpdate)
decode_update p = get_magic 3 p >>= update_fields
