-- ===== src/MarketBook/Orders.antt =====
-- trading/strategy/market_order_book.h: the ring of orders of one price level, oldest order first.
use trade_system.Common.{
  ℕ, ltb, if◌then◌else◌, Option, none, some, Outcome, done, fault, deref, ◌>>=◌, update,
}
use trade_system.Types.{max_order_ids}
use trade_system.MemPool
use trade_system.Intrusive.{
  ptr_eq, get_next, get_prev, set_next, set_prev, push_back, close_up, clear_links,
}
use trade_system.MarketBook.{
  MarketOrderBook, level_at, order_at, put_level, order_node, with_levels, with_orders, insert_id,
  erase_id, get_orders_at_price,
}
use trade_system.MarketBook.Levels.{add_orders_at_price, remove_orders_at_price}

-- Takes an order that is not alone out of the ring of its level.
unfoldable pub unlink_order : MarketOrderBook → Option ℕ → ℕ → Outcome MarketOrderBook
unlink_order b level i = do
  after ← get_next order_node b.order_pool i
  p₁ ← close_up order_node b.order_pool i
  j ← deref level
  l ← level_at b j
  let b₁ = with_orders b p₁
  let b₂ =
      if ptr_eq l.first_mkt_order i
      then put_level b₁ j (record l { first_mkt_order = after })
      else b₁
  p₂ ← clear_links order_node p₁ i
  done (with_orders b₂ p₂)

-- `oid_to_order_.at(id) = p`
unfoldable pub register : MarketOrderBook → ℕ → Option ℕ → Outcome MarketOrderBook
register b id p =
    if ltb id max_order_ids
    then done (record b { oid_to_order = update b.oid_to_order id p })
    else fault

-- `removeOrder`
unfoldable pub remove_order : MarketOrderBook → ℕ → Outcome MarketOrderBook
unfolding unlink_order register
remove_order b i = do
  o ← order_at b i
  prev ← get_prev order_node b.order_pool i
  b₁ ←
      (if ptr_eq prev i
        then remove_orders_at_price b o.side o.price
        else unlink_order b (get_orders_at_price b o.price o.side) i)
  b₂ ← register b₁ o.order_id none
  pool ← MemPool.deallocate b₂.order_pool i
  done (record b₂ { live_order_ids = erase_id b₂.live_order_ids o.order_id; order_pool = pool })

-- An order for a price that has no level yet.
unfoldable pub open_level : MarketOrderBook → ℕ → Outcome MarketOrderBook
open_level b i = do
  p₁ ← set_prev order_node b.order_pool i (some i)
  p₂ ← set_next order_node p₁ i (some i)
  o ← deref (p₂.block i)
  (level, pool) ← deref (
      MemPool.allocate b.orders_at_price_pool (record {
        side = o.side;
        price = o.price;
        first_mkt_order = some i;
        prev_entry = none;
        next_entry = none;
      }))
  add_orders_at_price (with_levels (with_orders b p₂) pool) level

-- An order for a level that is there goes to the end of its queue.
unfoldable pub append_order : MarketOrderBook → ℕ → ℕ → Outcome MarketOrderBook
append_order b level i = do
  l ← level_at b level
  first ← deref l.first_mkt_order
  p ← push_back order_node b.order_pool first i
  done (with_orders b p)

-- `addOrder`
unfoldable pub add_order : MarketOrderBook → ℕ → Outcome MarketOrderBook
unfolding open_level append_order register
add_order b i = do
  o ← order_at b i
  b₁ ← (elim (get_orders_at_price b o.price o.side) [
    | none ↦ open_level b i
    | some level ↦ append_order b level i
  ])
  b₂ ← register b₁ o.order_id (some i)
  done (record b₂ { live_order_ids = insert_id b₂.live_order_ids o.order_id })
