-- ===== src/Matcher/Levels.antt =====
-- exchange/matcher/me_order_book.h: the ring of price levels of one side, best price first.
use trade_system.Common.{
  ℕ, zero, suc, ◌+◌, ◌%◌, ◌^◌, Bool, not, ◌&&◌, ◌==◌, if◌then◌else◌, Option, none, some, Outcome,
  done, out_of_fuel, deref, ◌>>=◌,
}
use trade_system.Common.Int.{ℤ, ltb_ℤ}
use trade_system.Types.{Side, is_buy}
use trade_system.MemPool
use trade_system.Intrusive.{
  ptr_eq, get_next, get_prev, set_next, set_prev, insert_before, close_up_entry, clear_links,
}
use trade_system.Matcher.Book.{
  Book, level_at, order_at, level_node, order_node, with_levels, update_price, get_orders_at_price,
}

-- `better(left, right)`
abbrev pub better : Bool → ℤ → ℤ → Bool
better buy left right = if buy then ltb_ℤ right left else ltb_ℤ left right

abbrev pub best_of : Book → Bool → Option ℕ
best_of b buy = if buy then b.bids_by_price else b.asks_by_price

abbrev pub set_best : Book → Bool → Option ℕ → Book
set_best b buy p = if buy then record b { bids_by_price = p } else record b { asks_by_price = p }

-- The `do … while` that looks for the level before which a middle price goes. One unit of fuel is
-- one round; a round moves to the next level of the ring.
unfoldable pub find_target : ℕ → Book → Bool → ℕ → ℤ → ℕ → Outcome ℕ
unfolding get_next
find_target zero b buy best price target = out_of_fuel
find_target (suc fuel) b buy best price target = do
  next_ptr ← get_next level_node b.orders_at_price_pool target
  next ← deref next_ptr
  let rest = find_target fuel b buy best price next
  if next == best
      then done next
      else (level_at b next >>= λ n. if better buy n.price price then rest else done next)

-- The level before which a new price is inserted.
unfoldable pub insertion_target : Book → Bool → ℕ → ℤ → Outcome ℕ
unfolding get_prev
insertion_target b buy best price = do
  top ← level_at b best
  worst_ptr ← get_prev level_node b.orders_at_price_pool best
  worst ← deref worst_ptr
  last ← level_at b worst
  if not (better buy price top.price) && better buy price last.price
      then find_target (suc b.orders_at_price_pool.capacity) b buy best price best
      else done best

-- The first level of a side: `best = level` and a ring of one.
unfoldable pub first_level : Book → Bool → ℕ → Outcome Book
unfolding set_next set_prev
first_level b buy level = do
  p₁ ← set_next level_node b.orders_at_price_pool level (some level)
  p₂ ← set_prev level_node p₁ level (some level)
  done (set_best (with_levels b p₂) buy (some level))

-- A further level of a side whose best level is `best`.
unfoldable pub further_level : Book → Bool → ℤ → ℕ → ℕ → Outcome Book
unfolding insertion_target
further_level b buy price best level = do
  top ← level_at b best
  target ← insertion_target b buy best price
  p ← insert_before level_node b.orders_at_price_pool target level
  let b₁ = with_levels b p
  done (if better buy price top.price then set_best b₁ buy (some level) else b₁)

-- `addOrdersAtPrice`
unfoldable pub add_orders_at_price : Book → ℕ → Outcome Book
unfolding first_level further_level
add_orders_at_price b level = do
  l ← level_at b level
  let buy = is_buy l.side
  let b₀ = record b {
    price_orders_at_price = update_price b.price_orders_at_price l.side l.price (some level);
  }
  elim (best_of b₀ buy) [
    | none ↦ first_level b₀ buy level
    | some best ↦ further_level b₀ buy l.price best level
  ]

-- Takes a level that is not alone out of its ring.
unfoldable pub unlink_level : Book → Bool → ℕ → Outcome Book
unfolding get_next
unlink_level b buy i = do
  p₁ ← close_up_entry level_node b.orders_at_price_pool i
  after ← get_next level_node p₁ i
  let b₁ = with_levels b p₁
  let b₂ = if ptr_eq (best_of b buy) i then set_best b₁ buy after else b₁
  p₂ ← clear_links level_node p₁ i
  done (with_levels b₂ p₂)

-- `removeOrdersAtPrice`
unfoldable pub remove_orders_at_price : Book → Side → ℤ → Outcome Book
unfolding unlink_level
remove_orders_at_price b side price = do
  i ← deref (get_orders_at_price b price side)
  next ← get_next level_node b.orders_at_price_pool i
  b₁ ←
      (if ptr_eq next i
        then done (set_best b (is_buy side) none)
        else unlink_level b (is_buy side) i)
  pool ← MemPool.deallocate b₁.orders_at_price_pool i
  done (record b₁ {
    price_orders_at_price = update_price b₁.price_orders_at_price side price none;
    orders_at_price_pool = pool;
  })

-- `getNextPriority`
unfoldable pub get_next_priority : Book → ℤ → Side → Outcome ℕ
get_next_priority b price side = elim (get_orders_at_price b price side) [
  | none ↦ done 1
  | some i ↦ do
    l ← level_at b i
    first ← deref l.first_order
    last_ptr ← get_prev order_node b.order_pool first
    last ← deref last_ptr
    tail ← order_at b last
    done ((tail.priority + 1) % 2 ^ 64)
]
