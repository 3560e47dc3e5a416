-- ===== src/Wire/MarketTrips.antt =====
-- A market data message that is written and read again.
use trade_system.Common.{
  ◌^◌, ◌<◌, ◌≡◌, ◌∙◌, refl, ap, length, none, some, done, ◌>>=◌, arith, leb, ◌&&◌, if◌then◌else◌,
  Bool, true, false,
}
use trade_system.Messages.{SequencedUpdate}
use trade_system.Wire.Bytes.{get-put_bind, length-▸}
use trade_system.Wire.Enums.{update_type_bits}
use trade_system.Wire.EnumLaws.{
  SideFits, IntFits, UpdateTypeFits, side_trip, int_trip, update_type_trip,
}
use trade_system.Wire.OrderTrips.{get_magic-put}
use trade_system.Wire.Market.{update_fields, encode_update, decode_update}

-- Each field fits its width on the wire.
pub record UpdateFits (m : SequencedUpdate) : Type 0 where
  pub seq_num : m.seq_num < 256 ^ 8
  pub snapshot_cycle : m.snapshot_cycle < 256 ^ 8
  pub watermark : m.watermark < 256 ^ 8
  pub state_hash : m.state_hash < 256 ^ 8
  pub type : UpdateTypeFits m.update.type
  pub order_id : m.update.order_id < 256 ^ 8
  pub ticker_id : m.update.ticker_id < 256 ^ 4
  pub side : SideFits m.update.side
  pub price : IntFits m.update.price
  pub qty : m.update.qty < 256 ^ 4
  pub priority : m.update.priority < 256 ^ 8

-- The types that may travel: CLEAR to SNAPSHOT_END.
abbrev pub is_public : SequencedUpdate → Bool
is_public m = let b = update_type_bits m.update.type in leb 1 b && leb b 7

-- A market data message whose fields fit their widths comes back from its frame of 70 bytes
-- unchanged if its type is one of those that may travel, and otherwise the frame is refused.
pub decode_update-encode_update :
    (m : SequencedUpdate)
    → UpdateFits m
    → (decode_update (encode_update m) ≡ done (if is_public m then some m else none))
      × (length (encode_update m) ≡ 70)
unfolding decode_update encode_update
decode_update-encode_update m f =
    let type = update_type_trip m.update.type f.type in
    let side = side_trip m.update.side f.side in
    let price = int_trip m.update.price f.price in
    let trip =
      ap (λ h. h >>= update_fields) (get_magic-put 3 _ (omega arith))
      ∙ get-put_bind 8 _ f.seq_num
      ∙ get-put_bind 8 _ f.snapshot_cycle
      ∙ get-put_bind 8 _ f.watermark
      ∙ get-put_bind 8 _ f.state_hash
      ∙ get-put_bind 1 _ type.1
      ∙ get-put_bind 8 _ f.order_id
      ∙ get-put_bind 4 _ f.ticker_id
      ∙ get-put_bind 1 _ side.1
      ∙ get-put_bind 8 _ price.1
      ∙ get-put_bind 4 _ f.qty
      ∙ get-put_bind 8 _ f.priority in
    (trip ∙ rw (type.0, side.0, price.0) (pick (is_public m) m), simp length-▸)
  where
    pick :
        (b : Bool) (m : SequencedUpdate)
        → (if b then done (some m) else done none) ≡ done (if b then some m else none)
    pick true m = refl
    pick false m = refl
