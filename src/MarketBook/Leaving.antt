-- ===== src/MarketBook/Leaving.antt =====
-- Taking an order off does the same to the client's book and to the book of the exchange that it stands for.
use trade_system.Common.{
  ℕ, ◌≡◌, refl, ap, Bool, true, false, ◌==◌, if◌then◌else◌, Option, none, some, Outcome, done,
  ◌>>=◌, update, Bool-cases, inl, inr, ◌<◌, lt→ltb,
}
use trade_system.Common.Int.{ℤ}
use trade_system.Types.{Side, is_buy, max_order_ids}
use trade_system.MemPool
use trade_system.MemPool.{MemPool}
use trade_system.Intrusive.{ptr_eq}
use trade_system.Intrusive.Mapped.{
  map_pool, map_done, bind_alike, bind_along, deref-map_some, store-map_pool, deallocate-map_pool,
  get_next-map_pool, get_prev-map_pool, close_up-map_pool, close_up_entry-map_pool,
  clear_links-map_pool,
}
use trade_system.Matcher.Book
use trade_system.Matcher.Book.{Book, Order, OrdersAtPrice, update₂, update_price}
use trade_system.Matcher
use trade_system.MarketBook
use trade_system.MarketBook.{
  MarketOrder, MarketOrdersAtPrice, MarketOrderBook, find_price, erase_price, erase_id,
}
use trade_system.MarketBook.Keys.{find_price-erase_price}
use trade_system.MarketBook.Mirror.{
  as_order, as_level, as_book, order_keeps, level_keeps, pick, set_best-as_book,
}

unlink_level-as_book :
    (b : MarketOrderBook) (buy : Bool) (i : ℕ)
    → Matcher.Levels.unlink_level (as_book b) buy i
      ≡ map_done as_book (MarketBook.Levels.unlink_level b buy i)
unfolding Matcher.Levels.unlink_level MarketBook.Levels.unlink_level
unlink_level-as_book b buy i =
    bind_along (map_pool as_level) as_book _ _ _ _
      (close_up_entry-map_pool MarketBook.level_node Book.level_node as_level level_keeps
        b.orders_at_price_pool i)
      (λ p₁.
        bind_alike as_book _ _ _ _
          (get_next-map_pool MarketBook.level_node Book.level_node as_level level_keeps p₁ i)
          (λ after.
            bind_along (map_pool as_level) as_book _ _ _ _
              (clear_links-map_pool MarketBook.level_node Book.level_node as_level level_keeps p₁ i)
              (λ p₂.
                ap done (chosen p₁ after p₂ buy (ptr_eq (MarketBook.Levels.best_of b buy) i)))))
  where
    chosen :
        (p₁ : MemPool MarketOrdersAtPrice) (after : Option ℕ) (p₂ : MemPool MarketOrdersAtPrice)
        (side t : Bool)
        → Book.with_levels
            (if t
              then Matcher.Levels.set_best (as_book (MarketBook.with_levels b p₁)) side after
              else as_book (MarketBook.with_levels b p₁))
            (map_pool as_level p₂)
          ≡ as_book (
              MarketBook.with_levels
                (if t
                  then MarketBook.Levels.set_best (MarketBook.with_levels b p₁) side after
                  else MarketBook.with_levels b p₁)
                p₂)
    chosen p₁ after p₂ true true = refl
    chosen p₁ after p₂ false true = refl
    chosen p₁ after p₂ side false = refl

remove_orders_at_price-as_book :
    (b : MarketOrderBook) (side : Side) (price : ℤ)
    → Matcher.Levels.remove_orders_at_price (as_book b) side price
      ≡ map_done as_book (MarketBook.Levels.remove_orders_at_price b side price)
unfolding Matcher.Levels.remove_orders_at_price MarketBook.Levels.remove_orders_at_price
remove_orders_at_price-as_book b side price = bind_alike as_book _ _ _ _ refl (λ i.
    bind_alike as_book _ _ _ _
      (get_next-map_pool MarketBook.level_node Book.level_node as_level level_keeps
        b.orders_at_price_pool i)
      (λ next.
        bind_along as_book as_book _ _ _ _
          (pick as_book (ptr_eq next i) _ _ _ _ (ap done (set_best-as_book b (is_buy side) none))
            (unlink_level-as_book b (is_buy side) i))
          (λ b₁.
            bind_along (map_pool as_level) as_book _ _ _ _
              (deallocate-map_pool as_level b₁.orders_at_price_pool i)
              (λ pool. ap done (erased b₁ pool)))))
  where
    erased :
        (b₁ : MarketOrderBook) (pool : MemPool MarketOrdersAtPrice)
        → record (as_book b₁) {
          price_orders_at_price =
              update_price (find_price b₁.price_orders_at_price) side price none;
          orders_at_price_pool = map_pool as_level pool;
        }
          ≡ as_book (record b₁ {
            price_orders_at_price = erase_price b₁.price_orders_at_price side price;
            orders_at_price_pool = pool;
          })
    erased b₁ pool = λ k. record (as_book b₁) {
      price_orders_at_price =
          λ s p. find_price-erase_price b₁.price_orders_at_price side price s p k;
      orders_at_price_pool = map_pool as_level pool;
    }

unlink_order-as_book :
    (b : MarketOrderBook) (level : Option ℕ) (i : ℕ)
    → Matcher.Links.unlink_order (as_book b) level i
      ≡ map_done as_book (MarketBook.Orders.unlink_order b level i)
unfolding Matcher.Links.unlink_order MarketBook.Orders.unlink_order
unlink_order-as_book b level i =
    bind_alike as_book _ _ _ _
      (get_next-map_pool MarketBook.order_node Book.order_node as_order order_keeps b.order_pool i)
      (λ after.
        bind_along (map_pool as_order) as_book _ _ _ _
          (close_up-map_pool MarketBook.order_node Book.order_node as_order order_keeps b.order_pool
            i)
          (λ p₁. bind_alike as_book _ _ _ _ refl (λ j.
            bind_along as_level as_book _ _ _ _
              (deref-map_some as_level (b.orders_at_price_pool.block j))
              (λ l.
                bind_along (map_pool as_order) as_book _ _ _ _
                  (clear_links-map_pool MarketBook.order_node Book.order_node as_order order_keeps
                    p₁ i)
                  (λ p₂. ap done (chosen after p₁ j l p₂ (ptr_eq l.first_mkt_order i)))))))
  where
    chosen :
        (after : Option ℕ) (p₁ : MemPool MarketOrder) (j : ℕ) (l : MarketOrdersAtPrice)
        (p₂ : MemPool MarketOrder) (t : Bool)
        → Book.with_orders
            (if t
              then Book.put_level
                  (as_book (MarketBook.with_orders b p₁))
                  j
                  (record (as_level l) { first_order = after })
              else as_book (MarketBook.with_orders b p₁))
            (map_pool as_order p₂)
          ≡ as_book (
              MarketBook.with_orders
                (if t
                  then MarketBook.put_level
                      (MarketBook.with_orders b p₁)
                      j
                      (record l { first_mkt_order = after })
                  else MarketBook.with_orders b p₁)
                p₂)
    chosen after p₁ j l p₂ true =
        ap
          (λ (q : MemPool OrdersAtPrice).
            Book.with_levels (as_book (MarketBook.with_orders b p₂)) q)
          (store-map_pool as_level b.orders_at_price_pool j (record l { first_mkt_order = after }))
    chosen after p₁ j l p₂ false = refl

pub register-as_book :
    (b : MarketOrderBook) (id : ℕ) (p : Option ℕ)
    → id < max_order_ids
    → Matcher.Links.register (as_book b) 0 id p
      ≡ map_done as_book (MarketBook.Orders.register b id p)
unfolding Matcher.Links.register MarketBook.Orders.register
register-as_book b id p h = rw (lt→ltb id max_order_ids h) (ap done known)
  where
    pointwise :
        (c i : ℕ)
        → update₂ (as_book b).cid_oid_to_order 0 id p c i
          ≡ (if 0 == c then update b.oid_to_order id p i else none)
    pointwise c i = elim (Bool-cases (0 == c)) [ inl e ↦ rw (e) refl | inr e ↦ rw (e) refl ]

    known :
        record (as_book b) { cid_oid_to_order = update₂ (as_book b).cid_oid_to_order 0 id p }
        ≡ as_book (record b { oid_to_order = update b.oid_to_order id p })
    known = λ k. record (as_book b) { cid_oid_to_order = λ c i. pointwise c i k }

pub remove_order-as_book :
    (b : MarketOrderBook) (i : ℕ) (o : MarketOrder)
    → b.order_pool.block i ≡ some o
    → o.order_id < max_order_ids
    → Matcher.Links.remove_order (as_book b) i
      ≡ map_done as_book (MarketBook.Orders.remove_order b i)
unfolding Matcher.Links.remove_order MarketBook.Orders.remove_order
remove_order-as_book b i o e h = rw (e) (
    bind_alike as_book _ _ _ _
      (get_prev-map_pool MarketBook.order_node Book.order_node as_order order_keeps b.order_pool i)
      (λ prev.
        bind_along as_book as_book _ _ _ _
          (pick as_book (ptr_eq prev i) _ _ _ _ (remove_orders_at_price-as_book b o.side o.price)
            (unlink_order-as_book b (MarketBook.get_orders_at_price b o.price o.side) i))
          (λ b₁.
            bind_along as_book as_book _ _ released released_too
              (register-as_book b₁ o.order_id none h)
              (λ b₂.
                bind_along (map_pool as_order) as_book _ _
                  (λ pool. done (Book.with_orders (as_book b₂) pool))
                  (λ pool. done (forget b₂ pool)) (deallocate-map_pool as_order b₂.order_pool i)
                  (λ pool. refl)))))
  where
    forget : MarketOrderBook → MemPool MarketOrder → MarketOrderBook
    forget c pool = record c {
      live_order_ids = erase_id c.live_order_ids o.order_id;
      order_pool = pool;
    }

    released : Book → Outcome Book
    released c = MemPool.deallocate c.order_pool i >>= λ pool. done (Book.with_orders c pool)

    released_too : MarketOrderBook → Outcome MarketOrderBook
    released_too c = MemPool.deallocate c.order_pool i >>= λ pool. done (forget c pool)
