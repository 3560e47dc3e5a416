-- ===== src/Wire/EnumLaws.antt =====
-- The enumerations and the signed fields come back from their bits.
use trade_system.Common.{◌^◌, ◌<◌, ◌≡◌, refl, arith}
use trade_system.Common.Int.{ℤ, pos, negsuc}
use trade_system.Types.{Side}
use trade_system.Messages.{ClientRequestType, ClientResponseType, RejectReason, MarketUpdateType}
use trade_system.Wire.Enums.{
  side_bits, side_from, int_bits, int_from, request_type_bits, request_type_from,
  response_type_bits, response_type_from, reason_bits, reason_from, update_type_bits,
  update_type_from,
}

-- A byte that is kept as `other` names no enumerator.
abbrev pub SideFits : Side → Type 0
SideFits (Side.other b) = (2 < b) × (b < 255)
SideFits _ = Unit {0}

pub side_trip : (x : Side) → SideFits x → (side_from (side_bits x) ≡ x) × (side_bits x < 256 ^ 1)
unfolding side_from side_bits
side_trip Side.invalid h = (refl, omega arith)
side_trip Side.buy h = (refl, omega arith)
side_trip Side.sell h = (refl, omega arith)
side_trip Side.max h = (refl, omega arith)
side_trip (Side.other b) h = (ground (arith, h.0, h.1), omega (arith, h.1))

-- A byte that is kept as `other` names no enumerator.
abbrev pub RequestTypeFits : ClientRequestType → Type 0
RequestTypeFits (ClientRequestType.other b) = (3 < b) × (b < 256)
RequestTypeFits _ = Unit {0}

pub request_type_trip :
    (x : ClientRequestType)
    → RequestTypeFits x
    → (request_type_from (request_type_bits x) ≡ x) × (request_type_bits x < 256 ^ 1)
unfolding request_type_from request_type_bits
request_type_trip ClientRequestType.invalid h = (refl, omega arith)
request_type_trip ClientRequestType.new h = (refl, omega arith)
request_type_trip ClientRequestType.cancel h = (refl, omega arith)
request_type_trip ClientRequestType.query h = (refl, omega arith)
request_type_trip (ClientRequestType.other b) h = (ground (arith, h.0, h.1), omega (arith, h.1))

-- A byte that is kept as `other` names no enumerator.
abbrev pub ResponseTypeFits : ClientResponseType → Type 0
ResponseTypeFits (ClientResponseType.other b) = (6 < b) × (b < 256)
ResponseTypeFits _ = Unit {0}

pub response_type_trip :
    (x : ClientResponseType)
    → ResponseTypeFits x
    → (response_type_from (response_type_bits x) ≡ x) × (response_type_bits x < 256 ^ 1)
unfolding response_type_from response_type_bits
response_type_trip ClientResponseType.invalid h = (refl, omega arith)
response_type_trip ClientResponseType.accepted h = (refl, omega arith)
response_type_trip ClientResponseType.canceled h = (refl, omega arith)
response_type_trip ClientResponseType.filled h = (refl, omega arith)
response_type_trip ClientResponseType.cancel_rejected h = (refl, omega arith)
response_type_trip ClientResponseType.rejected h = (refl, omega arith)
response_type_trip ClientResponseType.state h = (refl, omega arith)
response_type_trip (ClientResponseType.other b) h = (ground (arith, h.0, h.1), omega (arith, h.1))

-- A byte that is kept as `other` names no enumerator.
abbrev pub ReasonFits : RejectReason → Type 0
ReasonFits (RejectReason.other b) = (11 < b) × (b < 256)
ReasonFits _ = Unit {0}

pub reason_trip :
    (x : RejectReason)
    → ReasonFits x
    → (reason_from (reason_bits x) ≡ x) × (reason_bits x < 256 ^ 1)
unfolding reason_from reason_bits
reason_trip RejectReason.none_ h = (refl, omega arith)
reason_trip RejectReason.invalid_id h = (refl, omega arith)
reason_trip RejectReason.invalid_type h = (refl, omega arith)
reason_trip RejectReason.invalid_side h = (refl, omega arith)
reason_trip RejectReason.invalid_price h = (refl, omega arith)
reason_trip RejectReason.invalid_qty h = (refl, omega arith)
reason_trip RejectReason.duplicate_id h = (refl, omega arith)
reason_trip RejectReason.capacity h = (refl, omega arith)
reason_trip RejectReason.identity h = (refl, omega arith)
reason_trip RejectReason.sequence h = (refl, omega arith)
reason_trip RejectReason.session h = (refl, omega arith)
reason_trip RejectReason.version h = (refl, omega arith)
reason_trip (RejectReason.other b) h = (ground (arith, h.0, h.1), omega (arith, h.1))

-- A byte that is kept as `other` names no enumerator.
abbrev pub UpdateTypeFits : MarketUpdateType → Type 0
UpdateTypeFits (MarketUpdateType.other b) = (8 < b) × (b < 256)
UpdateTypeFits _ = Unit {0}

pub update_type_trip :
    (x : MarketUpdateType)
    → UpdateTypeFits x
    → (update_type_from (update_type_bits x) ≡ x) × (update_type_bits x < 256 ^ 1)
unfolding update_type_from update_type_bits
update_type_trip MarketUpdateType.invalid h = (refl, omega arith)
update_type_trip MarketUpdateType.clear h = (refl, omega arith)
update_type_trip MarketUpdateType.add h = (refl, omega arith)
update_type_trip MarketUpdateType.modify h = (refl, omega arith)
update_type_trip MarketUpdateType.cancel h = (refl, omega arith)
update_type_trip MarketUpdateType.trade h = (refl, omega arith)
update_type_trip MarketUpdateType.snapshot_start h = (refl, omega arith)
update_type_trip MarketUpdateType.snapshot_end h = (refl, omega arith)
update_type_trip MarketUpdateType.recovery_commit h = (refl, omega arith)
update_type_trip (MarketUpdateType.other b) h = (ground (arith, h.0, h.1), omega (arith, h.1))

-- An `int64_t`.
abbrev pub IntFits : ℤ → Type 0
IntFits (pos n) = n < 2 ^ 63
IntFits (negsuc n) = n < 2 ^ 63

pub int_trip : (x : ℤ) → IntFits x → (int_from (int_bits x) ≡ x) × (int_bits x < 256 ^ 8)
unfolding int_from int_bits
int_trip (pos n) h = (ground (arith, h), omega (arith, h))
int_trip (negsuc n) h = (ground (arith, h), omega (arith, h))
