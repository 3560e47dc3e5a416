-- ===== src/Wire/Enums.antt =====
-- The bytes of the enumerations, and the bits of a signed field (`std::bit_cast`, `static_cast`).
use trade_system.Common.{ℕ, ◌-◌, ◌^◌, ltb, ◌==◌, if◌then◌else◌}
use trade_system.Common.Int.{ℤ, pos, negsuc}
use trade_system.Types.{Side}
use trade_system.Messages.{ClientRequestType, ClientResponseType, RejectReason, MarketUpdateType}

unfoldable pub side_bits : Side → ℕ
side_bits Side.invalid = 0
side_bits Side.buy = 1
side_bits Side.sell = 255
side_bits Side.max = 2
side_bits (Side.other b) = b

unfoldable pub side_from : ℕ → Side
side_from b =
    if b == 0
    then Side.invalid
    else if b == 1
    then Side.buy
    else if b == 2
    then Side.max
    else if b == 255
    then Side.sell
    else Side.other b

-- `int64_t`, in two's complement.
unfoldable pub int_bits : ℤ → ℕ
int_bits (pos n) = n
int_bits (negsuc n) = 2 ^ 64 - 1 - n

unfoldable pub int_from : ℕ → ℤ
int_from b = if ltb b (2 ^ 63) then pos b else negsuc (2 ^ 64 - 1 - b)

unfoldable pub request_type_bits : ClientRequestType → ℕ
request_type_bits ClientRequestType.invalid = 0
request_type_bits ClientRequestType.new = 1
request_type_bits ClientRequestType.cancel = 2
request_type_bits ClientRequestType.query = 3
request_type_bits (ClientRequestType.other b) = b

unfoldable pub request_type_from : ℕ → ClientRequestType
request_type_from b =
    if b == 0
    then ClientRequestType.invalid
    else if b == 1
    then ClientRequestType.new
    else if b == 2
    then ClientRequestType.cancel
    else if b == 3
    then ClientRequestType.query
    else ClientRequestType.other b

unfoldable pub response_type_bits : ClientResponseType → ℕ
response_type_bits ClientResponseType.invalid = 0
response_type_bits ClientResponseType.accepted = 1
response_type_bits ClientResponseType.canceled = 2
response_type_bits ClientResponseType.filled = 3
response_type_bits ClientResponseType.cancel_rejected = 4
response_type_bits ClientResponseType.rejected = 5
response_type_bits ClientResponseType.state = 6
response_type_bits (ClientResponseType.other b) = b

unfoldable pub response_type_from : ℕ → ClientResponseType
response_type_from b =
    if b == 0
    then ClientResponseType.invalid
    else if b == 1
    then ClientResponseType.accepted
    else if b == 2
    then ClientResponseType.canceled
    else if b == 3
    then ClientResponseType.filled
    else if b == 4
    then ClientResponseType.cancel_rejected
    else if b == 5
    then ClientResponseType.rejected
    else if b == 6
    then ClientResponseType.state
    else ClientResponseType.other b

unfoldable pub reason_bits : RejectReason → ℕ
reason_bits RejectReason.none_ = 0
reason_bits RejectReason.invalid_id = 1
reason_bits RejectReason.invalid_type = 2
reason_bits RejectReason.invalid_side = 3
reason_bits RejectReason.invalid_price = 4
reason_bits RejectReason.invalid_qty = 5
reason_bits RejectReason.duplicate_id = 6
reason_bits RejectReason.capacity = 7
reason_bits RejectReason.identity = 8
reason_bits RejectReason.sequence = 9
reason_bits RejectReason.session = 10
reason_bits RejectReason.version = 11
reason_bits (RejectReason.other b) = b

unfoldable pub reason_from : ℕ → RejectReason
reason_from b =
    if b == 0
    then RejectReason.none_
    else if b == 1
    then RejectReason.invalid_id
    else if b == 2
    then RejectReason.invalid_type
    else if b == 3
    then RejectReason.invalid_side
    else if b == 4
    then RejectReason.invalid_price
    else if b == 5
    then RejectReason.invalid_qty
    else if b == 6
    then RejectReason.duplicate_id
    else if b == 7
    then RejectReason.capacity
    else if b == 8
    then RejectReason.identity
    else if b == 9
    then RejectReason.sequence
    else if b == 10
    then RejectReason.session
    else if b == 11
    then RejectReason.version
    else RejectReason.other b

unfoldable pub update_type_bits : MarketUpdateType → ℕ
update_type_bits MarketUpdateType.invalid = 0
update_type_bits MarketUpdateType.clear = 1
update_type_bits MarketUpdateType.add = 2
update_type_bits MarketUpdateType.modify = 3
update_type_bits MarketUpdateType.cancel = 4
update_type_bits MarketUpdateType.trade = 5
update_type_bits MarketUpdateType.snapshot_start = 6
update_type_bits MarketUpdateType.snapshot_end = 7
update_type_bits MarketUpdateType.recovery_commit = 8
update_type_bits (MarketUpdateType.other b) = b

unfoldable pub update_type_from : ℕ → MarketUpdateType
update_type_from b =
    if b == 0
    then MarketUpdateType.invalid
    else if b == 1
    then MarketUpdateType.clear
    else if b == 2
    then MarketUpdateType.add
    else if b == 3
    then MarketUpdateType.modify
    else if b == 4
    then MarketUpdateType.cancel
    else if b == 5
    then MarketUpdateType.trade
    else if b == 6
    then MarketUpdateType.snapshot_start
    else if b == 7
    then MarketUpdateType.snapshot_end
    else if b == 8
    then MarketUpdateType.recovery_commit
    else MarketUpdateType.other b
