-- ===== src/Matcher/Links.antt =====
-- exchange/matcher/me_order_book.h: the ring of orders of one price level, oldest order first.
use trade_system.Common.{
  ℕ, ltb, if◌then◌else◌, Option, none, some, Outcome, done, fault, deref, ◌>>=◌,
}
use trade_system.Types.{max_num_clients}
use trade_system.MemPool
use trade_system.Intrusive.{
  ptr_eq, get_next, get_prev, set_next, set_prev, push_back, close_up, clear_links,
}
use trade_system.Matcher.Book.{
  Book, level_at, order_at, put_level, order_node, with_levels, with_orders, update₂,
  get_orders_at_price,
}
use trade_system.Matcher.Levels.{add_orders_at_price, remove_orders_at_price}

-- Takes an order that is not alone out of the ring of its level.
unfoldable pub unlink_order : Book → Option ℕ → ℕ → Outcome Book
unlink_order b level i = do
  after ← get_next order_node b.order_pool i
  p₁ ← close_up order_node b.order_pool i
  j ← deref level
  l ← level_at b j
  let b₁ = with_orders b p₁
  let b₂ = if ptr_eq l.first_order i then put_level b₁ j (record l { first_order = after }) else b₁
  p₂ ← clear_links order_node p₁ i
  done (with_orders b₂ p₂)

-- `cid_oid_to_order_.at(client)[oid] = p`: `at` checks the client's index.
unfoldable pub register : Book → ℕ → ℕ → Option ℕ → Outcome Book
register b client oid p =
    if ltb client max_num_clients
    then done (record b { cid_oid_to_order = update₂ b.cid_oid_to_order client oid p })
    else fault

-- `removeOrder`
unfoldable pub remove_order : Book → ℕ → Outcome Book
unfolding unlink_order register
remove_order b i = do
  o ← order_at b i
  prev ← get_prev order_node b.order_pool i
  b₁ ←
      (if ptr_eq prev i
        then remove_orders_at_price b o.side o.price
        else unlink_order b (get_orders_at_price b o.price o.side) i)
  b₂ ← register b₁ o.client_id o.client_order_id none
  pool ← MemPool.deallocate b₂.order_pool i
  done (with_orders b₂ pool)

-- An order for a price that has no level yet: a ring of one, under a new level.
unfoldable pub open_level : Book → ℕ → Outcome Book
open_level b i = do
  p₁ ← set_prev order_node b.order_pool i (some i)
  p₂ ← set_next order_node p₁ i (some i)
  o ← deref (p₂.block i)
  (level, pool) ← deref (
      MemPool.allocate b.orders_at_price_pool (record {
        side = o.side;
        price = o.price;
        first_order = some i;
        prev_entry = none;
        next_entry = none;
      }))
  add_orders_at_price (with_levels (with_orders b p₂) pool) level

-- An order for a level that is there goes to the end of its queue.
unfoldable pub append_order : Book → ℕ → ℕ → Outcome Book
append_order b level i = do
  l ← level_at b level
  first ← deref l.first_order
  p ← push_back order_node b.order_pool first i
  done (with_orders b p)

-- `addOrder`
unfoldable pub add_order : Book → ℕ → Outcome Book
unfolding open_level append_order register
add_order b i = do
  o ← order_at b i
  b₁ ← (elim (get_orders_at_price b o.price o.side) [
    | none ↦ open_level b i
    | some level ↦ append_order b level i
  ])
  register b₁ o.client_id o.client_order_id (some i)
