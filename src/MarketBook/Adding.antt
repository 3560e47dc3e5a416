-- ===== src/MarketBook/Adding.antt =====
-- Adding an order does the same to the client's book and to the book of the exchange that it stands for.
use trade_system.Common.{
  ℕ, ◌≡◌, refl, ◌∙◌, Option, none, some, Outcome, done, fault, out_of_fuel, ◌>>=◌, ◌<◌,
}
use trade_system.Types.{max_order_ids}
use trade_system.Intrusive.Mapped.{
  map_pool, map_done, bind_alike, bind_along, deref-map_some, set_next-map_pool, set_prev-map_pool,
  push_back-map_pool, map_taken, allocate-map_pool,
}
use trade_system.Matcher.Book
use trade_system.Matcher.Book.{Book, Order, OrdersAtPrice, update_price}
use trade_system.Matcher
use trade_system.MarketBook
use trade_system.MarketBook.{
  MarketOrder, MarketOrdersAtPrice, MarketOrderBook, find_price, set_price, insert_id,
}
use trade_system.MarketBook.Mirror.{as_book, as_order, as_level, order_keeps}
use trade_system.MarketBook.Leaving.{register-as_book, remove_order-as_book}
use trade_system.MarketBook.Entering.{add_orders_at_price-as_book}

open_level-as_book :
    (b : MarketOrderBook) (i : ℕ)
    → Matcher.Links.open_level (as_book b) i ≡ map_done as_book (MarketBook.Orders.open_level b i)
unfolding Matcher.Links.open_level MarketBook.Orders.open_level
open_level-as_book b i =
    bind_along (map_pool as_order) as_book _ _ _ _
      (set_prev-map_pool MarketBook.order_node Book.order_node as_order order_keeps b.order_pool i
        (some i))
      (λ p₁.
        bind_along (map_pool as_order) as_book _ _ _ _
          (set_next-map_pool MarketBook.order_node Book.order_node as_order order_keeps p₁ i
            (some i))
          (λ p₂. bind_along as_order as_book _ _ _ _ (deref-map_some as_order (p₂.block i)) (λ o.
            bind_along (map_taken as_level) as_book _ _ _ _
              (allocate-map_pool as_level b.orders_at_price_pool (record {
                side = o.side;
                price = o.price;
                first_mkt_order = some i;
                prev_entry = none;
                next_entry = none;
              }))
              (λ x.
                add_orders_at_price-as_book
                  (MarketBook.with_levels (MarketBook.with_orders b p₂) x.1) x.0))))

append_order-as_book :
    (b : MarketOrderBook) (level i : ℕ)
    → Matcher.Links.append_order (as_book b) level i
      ≡ map_done as_book (MarketBook.Orders.append_order b level i)
unfolding Matcher.Links.append_order MarketBook.Orders.append_order
append_order-as_book b level i =
    bind_along as_level as_book _ _ _ _
      (deref-map_some as_level (b.orders_at_price_pool.block level))
      (λ l. bind_alike as_book _ _ _ _ refl (λ first.
        bind_along (map_pool as_order) as_book _ _ _ _
          (push_back-map_pool MarketBook.order_node Book.order_node as_order order_keeps
            b.order_pool first i)
          (λ p. refl)))

-- `addOrder` up to the index, by the level of the price.
queued :
    (b : MarketOrderBook) (i : ℕ) (level : Option ℕ)
    → (elim level [
      | none ↦ Matcher.Links.open_level (as_book b) i
      | some j ↦ Matcher.Links.append_order (as_book b) j i
    ])
      ≡ map_done as_book (elim level [
        | none ↦ MarketBook.Orders.open_level b i
        | some j ↦ MarketBook.Orders.append_order b j i
      ])
queued b i none = open_level-as_book b i
queued b i (some j) = append_order-as_book b j i

add_order-as_book :
    (b : MarketOrderBook) (i : ℕ) (o : MarketOrder)
    → b.order_pool.block i ≡ some o
    → o.order_id < max_order_ids
    → Matcher.Links.add_order (as_book b) i ≡ map_done as_book (MarketBook.Orders.add_order b i)
unfolding Matcher.Links.add_order MarketBook.Orders.add_order
add_order-as_book b i o e h = rw (e) (
    bind_along as_book as_book _ _ registered registered_too
      (queued b i (MarketBook.get_orders_at_price b o.price o.side)) (λ b₁. registered-as_book b₁))
  where
    registered : Book → Outcome Book
    registered c = Matcher.Links.register c 0 o.order_id (some i)

    kept : MarketOrderBook → MarketOrderBook
    kept c = record c { live_order_ids = insert_id c.live_order_ids o.order_id }

    registered_too : MarketOrderBook → Outcome MarketOrderBook
    registered_too c = MarketBook.Orders.register c o.order_id (some i) >>= λ c₁. done (kept c₁)

    unseen : (m : Outcome Book) → m ≡ (m >>= λ c. done c)
    unseen (done c) = refl
    unseen fault = refl
    unseen out_of_fuel = refl

    registered-as_book :
        (c : MarketOrderBook) → registered (as_book c) ≡ map_done as_book (registered_too c)
    registered-as_book c =
        unseen (registered (as_book c))
        ∙ bind_along as_book as_book (registered (as_book c))
            (MarketBook.Orders.register c o.order_id (some i)) (λ d. done d) (λ d. done (kept d))
            (register-as_book c o.order_id (some i) h) (λ c₁. refl)

-- For an order whose market id is in range, `removeOrder` and `addOrder` do to the client's book what
-- the functions of these names do to the book of the exchange that it stands for: they return or
-- fail for the same books, with the same pointers, levels, free slots and index afterwards.
pub orders-as_book :
    (b : MarketOrderBook) (i : ℕ) (o : MarketOrder)
    → b.order_pool.block i ≡ some o
    → o.order_id < max_order_ids
    → (Matcher.Links.remove_order (as_book b) i
        ≡ map_done as_book (MarketBook.Orders.remove_order b i))
      × (Matcher.Links.add_order (as_book b) i ≡ map_done as_book (MarketBook.Orders.add_order b i))
orders-as_book b i o e h = (remove_order-as_book b i o e h, add_order-as_book b i o e h)
