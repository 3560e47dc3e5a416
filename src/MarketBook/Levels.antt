-- ===== src/MarketBook/Levels.antt =====
-- trading/strategy/market_order_book.h: the ring of price levels of one side, best price first.
use trade_system.Common.{
  ℕ, zero, suc, Bool, not, ◌&&◌, ◌==◌, if◌then◌else◌, Option, none, some, Outcome, done,
  out_of_fuel, deref, ◌>>=◌,
}
use trade_system.Common.Int.{ℤ}
use trade_system.Types.{Side, is_buy}
use trade_system.MemPool
use trade_system.Intrusive.{
  ptr_eq, get_next, get_prev, set_next, set_prev, insert_before, close_up_entry, clear_links,
}
use trade_system.Matcher.Levels.{better}
use trade_system.MarketBook.{
  MarketOrderBook, level_at, level_node, with_levels, set_price, erase_price, get_orders_at_price,
}

abbrev pub best_of : MarketOrderBook → Bool → Option ℕ
best_of b buy = if buy then b.bids_by_price else b.asks_by_price

abbrev pub set_best : MarketOrderBook → Bool → Option ℕ → MarketOrderBook
set_best b buy p = if buy then record b { bids_by_price = p } else record b { asks_by_price = p }

-- The `do … while` of `addOrdersAtPrice`; one unit of fuel is one round.
unfoldable pub find_target : ℕ → MarketOrderBook → Bool → ℕ → ℤ → ℕ → Outcome ℕ
unfolding get_next
find_target zero b buy best price target = out_of_fuel
find_target (suc fuel) b buy best price target = do
  next_ptr ← get_next level_node b.orders_at_price_pool target
  next ← deref next_ptr
  let rest = find_target fuel b buy best price next
  if next == best
      then done next
      else (level_at b next >>= λ n. if better buy n.price price then rest else done next)

-- The level before which a new price is inserted.
unfoldable pub insertion_target : MarketOrderBook → Bool → ℕ → ℤ → Outcome ℕ
unfolding get_prev
insertion_target b buy best price = do
  top ← level_at b best
  worst_ptr ← get_prev level_node b.orders_at_price_pool best
  worst ← deref worst_ptr
  last ← level_at b worst
  if not (better buy price top.price) && better buy price last.price
      then find_target (suc b.orders_at_price_pool.capacity) b buy best price best
      else done best

-- The first level of a side.
unfoldable pub first_level : MarketOrderBook → Bool → ℕ → Outcome MarketOrderBook
unfolding set_next set_prev
first_level b buy level = do
  p₁ ← set_next level_node b.orders_at_price_pool level (some level)
  p₂ ← set_prev level_node p₁ level (some level)
  done (set_best (with_levels b p₂) buy (some level))

-- A further level of a side whose best level is `best`.
unfoldable pub further_level : MarketOrderBook → Bool → ℤ → ℕ → ℕ → Outcome MarketOrderBook
unfolding insertion_target
further_level b buy price best level = do
  top ← level_at b best
  target ← insertion_target b buy best price
  p ← insert_before level_node b.orders_at_price_pool target level
  let b₁ = with_levels b p
  done (if better buy price top.price then set_best b₁ buy (some level) else b₁)

-- `addOrdersAtPrice`
unfoldable pub add_orders_at_price : MarketOrderBook → ℕ → Outcome MarketOrderBook
unfolding first_level further_level
add_orders_at_price b level = do
  l ← level_at b level
  let buy = is_buy l.side
  let b₀ = record b {
    price_orders_at_price = set_price b.price_orders_at_price l.side l.price level;
  }
  elim (best_of b₀ buy) [
    | none ↦ first_level b₀ buy level
    | some best ↦ further_level b₀ buy l.price best level
  ]

-- Takes a level that is not alone out of its ring.
unfoldable pub unlink_level : MarketOrderBook → Bool → ℕ → Outcome MarketOrderBook
unfolding get_next
unlink_level b buy i = do
  p₁ ← close_up_entry level_node b.orders_at_price_pool i
  after ← get_next level_node p₁ i
  let b₁ = with_levels b p₁
  let b₂ = if ptr_eq (best_of b buy) i then set_best b₁ buy after else b₁
  p₂ ← clear_links level_node p₁ i
  done (with_levels b₂ p₂)

-- `removeOrdersAtPrice`
unfoldable pub remove_orders_at_price : MarketOrderBook → Side → ℤ → Outcome MarketOrderBook
unfolding unlink_level
remove_orders_at_price b side price = do
  i ← deref (get_orders_at_price b price side)
  next ← get_next level_node b.orders_at_price_pool i
  b₁ ←
      (if ptr_eq next i
        then done (set_best b (is_buy side) none)
        else unlink_level b (is_buy side) i)
  pool ← MemPool.deallocate b₁.orders_at_price_pool i
  done (record b₁ {
    price_orders_at_price = erase_price b₁.price_orders_at_price side price;
    orders_at_price_pool = pool;
  })
