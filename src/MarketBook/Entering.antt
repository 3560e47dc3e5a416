-- ===== src/MarketBook/Entering.antt =====
-- A new price level: the same for the client's book and the book of the exchange that it stands for.
use trade_system.Common.{
  ℕ, zero, suc, not, ◌≡◌, refl, ap, ◌∙◌, Bool, true, false, ◌==◌, ◌&&◌, if◌then◌else◌, Option, none,
  some, done,
}
use trade_system.Common.Int.{ℤ}
use trade_system.Types.{Side, is_buy}
use trade_system.Intrusive.Mapped.{
  map_pool, map_done, bind_alike, bind_along, deref-map_some, get_next-map_pool, get_prev-map_pool,
  set_next-map_pool, set_prev-map_pool, insert_before-map_pool,
}
use trade_system.Matcher.Book
use trade_system.Matcher.Book.{Book, Order, OrdersAtPrice, update_price}
use trade_system.Matcher
use trade_system.MarketBook
use trade_system.MarketBook.{
  MarketOrder, MarketOrdersAtPrice, MarketOrderBook, find_price, set_price, insert_id,
}
use trade_system.MarketBook.Keys.{find_price-set_price}
use trade_system.MarketBook.Mirror.{as_book, as_level, level_keeps, pick, set_best-as_book}

find_target-as_book :
    (fuel : ℕ) (b : MarketOrderBook) (buy : Bool) (best : ℕ) (price : ℤ) (target : ℕ)
    → Matcher.Levels.find_target fuel (as_book b) buy best price target
      ≡ map_done (λ (x : ℕ). x) (MarketBook.Levels.find_target fuel b buy best price target)
unfolding Matcher.Levels.find_target MarketBook.Levels.find_target
find_target-as_book zero b buy best price target = refl
find_target-as_book (suc fuel) b buy best price target =
    bind_alike (λ (x : ℕ). x) _ _ _ _
      (get_next-map_pool MarketBook.level_node Book.level_node as_level level_keeps
        b.orders_at_price_pool target)
      (λ next_ptr.
        bind_alike (λ (x : ℕ). x) _ _ _ _ refl
          (λ next.
            pick (λ (x : ℕ). x) (next == best) _ _ _ _ refl
              (bind_along as_level (λ (x : ℕ). x) _ _ _ _
                (deref-map_some as_level (b.orders_at_price_pool.block next))
                (λ n.
                  pick (λ (x : ℕ). x) (Matcher.Levels.better buy n.price price) _ _ _ _
                    (find_target-as_book fuel b buy best price next) refl))))

insertion_target-as_book :
    (b : MarketOrderBook) (buy : Bool) (best : ℕ) (price : ℤ)
    → Matcher.Levels.insertion_target (as_book b) buy best price
      ≡ map_done (λ (x : ℕ). x) (MarketBook.Levels.insertion_target b buy best price)
unfolding Matcher.Levels.insertion_target MarketBook.Levels.insertion_target
insertion_target-as_book b buy best price =
    bind_along as_level (λ (x : ℕ). x) _ _ _ _
      (deref-map_some as_level (b.orders_at_price_pool.block best))
      (λ top.
        bind_alike (λ (x : ℕ). x) _ _ _ _
          (get_prev-map_pool MarketBook.level_node Book.level_node as_level level_keeps
            b.orders_at_price_pool best)
          (λ worst_ptr.
            bind_alike (λ (x : ℕ). x) _ _ _ _ refl
              (λ worst.
                bind_along as_level (λ (x : ℕ). x) _ _ _ _
                  (deref-map_some as_level (b.orders_at_price_pool.block worst))
                  (λ last.
                    pick (λ (x : ℕ). x)
                      (not (Matcher.Levels.better buy price top.price)
                        && Matcher.Levels.better buy price last.price)
                      _ _ _ _
                      (find_target-as_book (suc b.orders_at_price_pool.capacity) b buy best price
                        best)
                      refl))))

first_level-as_book :
    (b : MarketOrderBook) (buy : Bool) (level : ℕ)
    → Matcher.Levels.first_level (as_book b) buy level
      ≡ map_done as_book (MarketBook.Levels.first_level b buy level)
unfolding Matcher.Levels.first_level MarketBook.Levels.first_level
first_level-as_book b buy level =
    bind_along (map_pool as_level) as_book _ _ _ _
      (set_next-map_pool MarketBook.level_node Book.level_node as_level level_keeps
        b.orders_at_price_pool level (some level))
      (λ p₁.
        bind_along (map_pool as_level) as_book _ _ _ _
          (set_prev-map_pool MarketBook.level_node Book.level_node as_level level_keeps p₁ level
            (some level))
          (λ p₂. ap done (set_best-as_book (MarketBook.with_levels b p₂) buy (some level))))

further_level-as_book :
    (b : MarketOrderBook) (buy : Bool) (price : ℤ) (best level : ℕ)
    → Matcher.Levels.further_level (as_book b) buy price best level
      ≡ map_done as_book (MarketBook.Levels.further_level b buy price best level)
unfolding Matcher.Levels.further_level MarketBook.Levels.further_level
further_level-as_book b buy price best level =
    bind_along as_level as_book _ _ _ _
      (deref-map_some as_level (b.orders_at_price_pool.block best))
      (λ top.
        bind_along (λ (x : ℕ). x) as_book _ _ _ _ (insertion_target-as_book b buy best price)
          (λ target.
            bind_along (map_pool as_level) as_book _ _ _ _
              (insert_before-map_pool MarketBook.level_node Book.level_node as_level level_keeps
                b.orders_at_price_pool target level)
              (λ p. ap done (
                chosen (MarketBook.with_levels b p) buy
                  (Matcher.Levels.better buy price top.price)))))
  where
    chosen :
        (c : MarketOrderBook) (side t : Bool)
        → (if t then Matcher.Levels.set_best (as_book c) side (some level) else as_book c)
          ≡ as_book (if t then MarketBook.Levels.set_best c side (some level) else c)
    chosen c side true = set_best-as_book c side (some level)
    chosen c side false = refl

-- A book whose map has got a level.
entered :
    (b : MarketOrderBook) (side : Side) (price : ℤ) (level : ℕ)
    → record (as_book b) {
      price_orders_at_price =
          update_price (find_price b.price_orders_at_price) side price (some level);
    }
      ≡ as_book
          (record b { price_orders_at_price = set_price b.price_orders_at_price side price level })
entered b side price level = λ k. record (as_book b) {
  price_orders_at_price =
      λ s p. find_price-set_price b.price_orders_at_price side price level s p k;
}

-- The last step of `addOrdersAtPrice`, by the best level so far.
placed :
    (b : MarketOrderBook) (c : Book) (buy : Bool) (price : ℤ) (level : ℕ) (best : Option ℕ)
    → c ≡ as_book b
    → (elim best [
      | none ↦ Matcher.Levels.first_level c buy level
      | some x ↦ Matcher.Levels.further_level c buy price x level
    ])
      ≡ map_done as_book (elim best [
        | none ↦ MarketBook.Levels.first_level b buy level
        | some x ↦ MarketBook.Levels.further_level b buy price x level
      ])
placed b c buy price level none e =
    ap (λ d. Matcher.Levels.first_level d buy level) e ∙ first_level-as_book b buy level
placed b c buy price level (some x) e =
    ap (λ d. Matcher.Levels.further_level d buy price x level) e
    ∙ further_level-as_book b buy price x level

pub add_orders_at_price-as_book :
    (b : MarketOrderBook) (level : ℕ)
    → Matcher.Levels.add_orders_at_price (as_book b) level
      ≡ map_done as_book (MarketBook.Levels.add_orders_at_price b level)
unfolding Matcher.Levels.add_orders_at_price MarketBook.Levels.add_orders_at_price
add_orders_at_price-as_book b level =
    bind_along as_level as_book _ _ _ _
      (deref-map_some as_level (b.orders_at_price_pool.block level))
      (λ l.
        placed
          (record b {
            price_orders_at_price = set_price b.price_orders_at_price l.side l.price level;
          })
          (record (as_book b) {
            price_orders_at_price =
                update_price (find_price b.price_orders_at_price) l.side l.price (some level);
          })
          (is_buy l.side) l.price level (MarketBook.Levels.best_of b (is_buy l.side))
          (entered b l.side l.price level))
