-- ===== src/Types.antt =====
-- common/types.h: the capacities, the identifiers with their reserved values, and the side of an
-- order. An unsigned field is a number of ℕ, a signed one an integer.
use trade_system.Common.{ℕ, ◌-◌, ◌*◌, Bool, true, false, ◌==◌, ltb, if◌then◌else◌}
use trade_system.Common.Int.{ℤ, pos, negsuc}

abbrev pub max_tickers : ℕ
max_tickers = 8

abbrev pub max_market_updates : ℕ
max_market_updates = 256 * 1024

abbrev pub max_num_clients : ℕ
max_num_clients = 256

abbrev pub max_order_ids : ℕ
max_order_ids = 1024 * 1024

abbrev pub max_price_levels : ℕ
max_price_levels = 256

-- `INT32_MAX`
abbrev pub int32_max : ℕ
int32_max = 2147483647

abbrev pub order_id_invalid : ℕ
order_id_invalid = 18446744073709551615

abbrev pub ticker_id_invalid : ℕ
ticker_id_invalid = 4294967295

abbrev pub client_id_invalid : ℕ
client_id_invalid = 4294967295

abbrev pub price_invalid : ℤ
price_invalid = pos 9223372036854775807

abbrev pub qty_invalid : ℕ
qty_invalid = 4294967295

abbrev pub priority_invalid : ℕ
priority_invalid = 18446744073709551615

-- `enum class Side : int8_t`. A value that the code casts from a byte may be none of the four named
-- ones: `other b` is such a value, by its bit pattern.
pub data Side : Type 0 where
  invalid buy sell max : Side
  other : ℕ → Side

abbrev pub is_buy : Side → Bool
is_buy Side.buy = true
is_buy _ = false

abbrev pub is_sell : Side → Bool
is_sell Side.sell = true
is_sell _ = false

-- `a == b` on sides.
abbrev pub side_eq : Side → Side → Bool
side_eq Side.invalid Side.invalid = true
side_eq Side.buy Side.buy = true
side_eq Side.sell Side.sell = true
side_eq Side.max Side.max = true
side_eq (Side.other a) (Side.other b) = a == b
side_eq _ _ = false

-- `sideToValue`: the enumerator as a signed number.
unfoldable pub side_to_value : Side → ℤ
side_to_value Side.invalid = pos 0
side_to_value Side.buy = pos 1
side_to_value Side.sell = negsuc 0
side_to_value Side.max = pos 2
side_to_value (Side.other b) = if ltb b 128 then pos b else negsuc (255 - b)
