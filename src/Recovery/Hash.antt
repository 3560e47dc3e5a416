-- ===== src/Recovery/Hash.antt =====
-- common/book_hash.h: `bookHash`, a hash of the orders in the order of ticker and order id.
use Prim.Native.Nat.{bit_xor}
use trade_system.Common.{
  ℕ, ◌-◌, ◌*◌, ◌/◌, ◌%◌, ◌^◌, ◌==◌, ◌&&◌, ◌||◌, ltb, if◌then◌else◌, Bool, List, [], ◌∷◌, zero, suc,
}
use trade_system.Types.{Side}
use trade_system.Messages.{MarketUpdate}
use trade_system.Wire.Enums.{side_bits, int_bits}

abbrev pub before : MarketUpdate → MarketUpdate → Bool
before a b = ltb a.ticker_id b.ticker_id || a.ticker_id == b.ticker_id && ltb a.order_id b.order_id

abbrev pub insert_order : MarketUpdate → List MarketUpdate → List MarketUpdate
insert_order o [] = o ∷ []
insert_order o (p ∷ ps) = if before p o then p ∷ insert_order o ps else o ∷ p ∷ ps

-- `std::sort`
abbrev pub sort_orders : List MarketUpdate → List MarketUpdate
sort_orders [] = []
sort_orders (o ∷ os) = insert_order o (sort_orders os)

-- The loop of `mix`, for the bytes below `n`.
abbrev pub mix_bytes : ℕ → ℕ → ℕ → ℕ
mix_bytes zero value hash = hash
mix_bytes (suc n) value hash =
    mix_bytes n value (bit_xor hash (value / 256 ^ n % 256) * 1099511628211 % 2 ^ 64)

-- `mix`
abbrev pub mix : ℕ → ℕ → ℕ
mix value hash = mix_bytes 8 value hash

-- `static_cast<uint64_t>` of a side sign-extends its byte.
abbrev pub side_word : Side → ℕ
side_word s = let b = side_bits s in if ltb b 128 then b else 2 ^ 64 - (256 - b)

abbrev pub mix_order : MarketUpdate → ℕ → ℕ
mix_order o hash = mix o.priority (
    mix o.qty
      (mix (int_bits o.price) (mix (side_word o.side) (mix o.order_id (mix o.ticker_id hash)))))

abbrev pub mix_orders : List MarketUpdate → ℕ → ℕ
mix_orders [] hash = hash
mix_orders (o ∷ os) hash = mix_orders os (mix_order o hash)

-- `bookHash`
unfoldable pub book_hash : List MarketUpdate → ℕ
book_hash orders = mix_orders (sort_orders orders) 14695981039346656037
