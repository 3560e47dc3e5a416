-- ===== src/MarketBook.antt =====
-- trading/strategy/market_order.h and the state of trading/strategy/market_order_book.h: the book of
-- one ticker that a client keeps. As in the book of the exchange, pointers are slots of the pools. A
-- `std::map` is the list of its entries in the order of their keys, a `std::set` its sorted list.
pub mod Levels
pub mod Orders
pub mod Updates
pub mod Keys
pub mod Mirror
pub mod Leaving
pub mod Adding
pub mod Entering
pub mod Removing
mod Tests
use trade_system.Common.{
  ℕ, Bool, true, false, not, ◌&&◌, ◌||◌, ◌==◌, ltb, if◌then◌else◌, List, [], ◌∷◌, Option, none,
  some, Outcome, deref, refl,
}
use trade_system.Common.Int.{ℤ, ltb_ℤ}
use trade_system.Types.{
  Side, side_eq, side_to_value, price_invalid, max_order_ids, max_price_levels,
}
use trade_system.Intrusive.{Node}
use trade_system.MemPool
use trade_system.MemPool.{MemPool}
use trade_system.Matcher.Book.{price_eq}

-- `MarketOrder`
pub record MarketOrder : Type 0 where
  pub order_id : ℕ
  pub side : Side
  pub price : ℤ
  pub qty : ℕ
  pub priority : ℕ
  pub prev_order : Option ℕ
  pub next_order : Option ℕ

-- `MarketOrdersAtPrice`
pub record MarketOrdersAtPrice : Type 0 where
  pub side : Side
  pub price : ℤ
  pub first_mkt_order : Option ℕ
  pub prev_entry : Option ℕ
  pub next_entry : Option ℕ

-- The pointers of the two structs.
abbrev pub order_node : Node MarketOrder
order_node = record {
  next = λ o. o.next_order;
  prev = λ o. o.prev_order;
  with_next = λ o v. record o { next_order = v };
  with_prev = λ o v. record o { prev_order = v };
  bare = λ o. record o { prev_order = none; next_order = none };
  next-with_next = λ o v. refl;
  prev-with_next = λ o v. refl;
  bare-with_next = λ o v. refl;
  next-with_prev = λ o v. refl;
  prev-with_prev = λ o v. refl;
  bare-with_prev = λ o v. refl;
}

abbrev pub level_node : Node MarketOrdersAtPrice
level_node = record {
  next = λ l. l.next_entry;
  prev = λ l. l.prev_entry;
  with_next = λ l v. record l { next_entry = v };
  with_prev = λ l v. record l { prev_entry = v };
  bare = λ l. record l { prev_entry = none; next_entry = none };
  next-with_next = λ l v. refl;
  prev-with_next = λ l v. refl;
  bare-with_next = λ l v. refl;
  next-with_prev = λ l v. refl;
  prev-with_prev = λ l v. refl;
  bare-with_prev = λ l v. refl;
}

-- `BookQty_INVALID`
abbrev pub book_qty_invalid : ℕ
book_qty_invalid = 18446744073709551615

-- `BBO`
pub record Bbo : Type 0 where
  pub bid_price : ℤ
  pub ask_price : ℤ
  pub bid_qty : ℕ
  pub ask_qty : ℕ

-- An entry of `OrdersAtPriceHashMap`.
pub record PriceEntry : Type 0 where
  pub side : Side
  pub price : ℤ
  pub level : ℕ

-- `MarketOrderBook`; `has_engine` says whether `trade_engine_` has been set.
pub record MarketOrderBook : Type 0 where
  pub ticker_id : ℕ
  pub has_engine : Bool
  pub oid_to_order : ℕ → Option ℕ
  pub live_order_ids : List ℕ
  pub orders_at_price_pool : MemPool MarketOrdersAtPrice
  pub bids_by_price : Option ℕ
  pub asks_by_price : Option ℕ
  pub price_orders_at_price : List PriceEntry
  pub order_pool : MemPool MarketOrder
  pub bbo : Bbo

-- The constructor, for pools of a given size.
unfoldable pub empty_market_book : ℕ → ℕ → ℕ → MarketOrderBook
unfolding MemPool.init
empty_market_book levels orders ticker = record {
  ticker_id = ticker;
  has_engine = false;
  oid_to_order = λ i. none;
  live_order_ids = [];
  orders_at_price_pool = MemPool.init levels;
  bids_by_price = none;
  asks_by_price = none;
  price_orders_at_price = [];
  order_pool = MemPool.init orders;
  bbo = record {
    bid_price = price_invalid;
    ask_price = price_invalid;
    bid_qty = book_qty_invalid;
    ask_qty = book_qty_invalid;
  };
}

-- `MarketOrderBook::MarketOrderBook`
abbrev pub new_market_book : ℕ → MarketOrderBook
new_market_book ticker = empty_market_book max_price_levels max_order_ids ticker

-- `*p` and `*p = x`
abbrev pub order_at : MarketOrderBook → ℕ → Outcome MarketOrder
order_at b i = deref (b.order_pool.block i)

abbrev pub level_at : MarketOrderBook → ℕ → Outcome MarketOrdersAtPrice
level_at b i = deref (b.orders_at_price_pool.block i)

abbrev pub put_level : MarketOrderBook → ℕ → MarketOrdersAtPrice → MarketOrderBook
put_level b i l = record b { orders_at_price_pool = MemPool.store b.orders_at_price_pool i l }

abbrev pub with_orders : MarketOrderBook → MemPool MarketOrder → MarketOrderBook
with_orders b p = record b { order_pool = p }

abbrev pub with_levels : MarketOrderBook → MemPool MarketOrdersAtPrice → MarketOrderBook
with_levels b p = record b { orders_at_price_pool = p }

abbrev pub has_key : PriceEntry → Side → ℤ → Bool
has_key e side price = side_eq e.side side && price_eq e.price price

-- `<` on the keys, which are pairs.
unfoldable pub key_before : Side → ℤ → PriceEntry → Bool
key_before side price e =
    ltb_ℤ (side_to_value side) (side_to_value e.side) || side_eq e.side side && ltb_ℤ price e.price

-- `find`, `m[key] = level` and `erase`
abbrev pub find_price : List PriceEntry → Side → ℤ → Option ℕ
find_price [] side price = none
find_price (e ∷ m) side price =
    if has_key e side price then some e.level else find_price m side price

abbrev pub set_price : List PriceEntry → Side → ℤ → ℕ → List PriceEntry
set_price [] side price level = record { side = side; price = price; level = level } ∷ []
set_price (e ∷ m) side price level =
    let added : PriceEntry = record { side = side; price = price; level = level } in
    if has_key e side price
    then added ∷ m
    else if key_before side price e
    then added ∷ e ∷ m
    else e ∷ set_price m side price level

abbrev pub erase_price : List PriceEntry → Side → ℤ → List PriceEntry
erase_price [] side price = []
erase_price (e ∷ m) side price =
    if has_key e side price then erase_price m side price else e ∷ erase_price m side price

-- `insert` and `erase` of a set of ids.
abbrev pub insert_id : List ℕ → ℕ → List ℕ
insert_id [] i = i ∷ []
insert_id (j ∷ js) i = if i == j then j ∷ js else if ltb i j then i ∷ j ∷ js else j ∷ insert_id js i

abbrev pub erase_id : List ℕ → ℕ → List ℕ
erase_id [] i = []
erase_id (j ∷ js) i = if i == j then js else j ∷ erase_id js i

-- `getOrdersAtPrice`
abbrev pub get_orders_at_price : MarketOrderBook → ℤ → Side → Option ℕ
get_orders_at_price b price side = find_price b.price_orders_at_price side price
