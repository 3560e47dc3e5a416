-- ===== src/Matcher/RemoveLevel.antt =====
-- What `remove_orders_at_price` does to the ring of a side.
use trade_system.Types.{is_buy}
use trade_system.MemPool.{MemPool}
use trade_system.Common.{
  ℕ, ◌≡◌, refl, ap, ◌∙◌, sym, ◌==◌, if◌then◌else◌, Bool, true, false, Option, none, some, done,
  arith, List, [], ◌∷◌, ◌++◌, mem, mem-append, Distinct, Distinct-swap, append-nil,
}
use trade_system.Common.Int.{ℤ}
use trade_system.MemPool.Valid.{IsValid}
use trade_system.Ring.{IsRing}
use trade_system.Intrusive.{ptr_eq, close_up_entry}
use trade_system.Intrusive.Laws.{links, get_next_lem, next-live}
use trade_system.Intrusive.Leave.{Left, Leaves, close_up_entry-Leaves, alone-Left}
use trade_system.Matcher.Book.{Book, OrdersAtPrice, level_node, with_levels, update_price}
use trade_system.Matcher.Levels.{best_of, set_best, unlink_level, remove_orders_at_price}
use trade_system.Matcher.Shape.{head_of, side_of}

-- The book once the level of a price has gone.
abbrev pub level_gone : Book → Bool → ℤ → Option ℕ → MemPool OrdersAtPrice → Book
level_gone b buy price best pool =
    let c = set_best b buy best in
    record c {
      price_orders_at_price = update_price c.price_orders_at_price (side_of buy) price none;
      orders_at_price_pool = pool;
    }

pub is_buy-side_of : (buy : Bool) → is_buy (side_of buy) ≡ buy
is_buy-side_of true = refl
is_buy-side_of false = refl

-- What `best` becomes when a level leaves: the next level if it was the best one.
best_after :
    (b c : Book) (buy : Bool) (us : List ℕ) (slot : ℕ) (ws : List ℕ) (y : ℕ) (ys : List ℕ)
    → best_of b buy ≡ head_of (us ++ slot ∷ ws)
    → best_of c buy ≡ best_of b buy
    → ws ++ us ≡ y ∷ ys
    → Distinct (us ++ slot ∷ ws)
    → (if ptr_eq (best_of b buy) slot then set_best c buy (some y) else c)
      ≡ set_best c buy (head_of (us ++ ws))
best_after b c buy [] slot ws y ys best same e d =
    let top : head_of ws ≡ some y = ap head_of (sym (append-nil ws) ∙ e) in
    rw (best, top) (ground arith)
best_after b c true (u ∷ us) slot ws y ys best same e d =
    rw best (ground (arith, d.0, mem-append u us (slot ∷ ws), same, best))
best_after b c false (u ∷ us) slot ws y ys best same e d =
    rw best (ground (arith, d.0, mem-append u us (slot ∷ ws), same, best))

-- Removing a level that is alone on its side, and one that is not.
module _ (b : Book) (buy : Bool) (price : ℤ) (us : List ℕ) (slot : ℕ) (ws : List ℕ)
    (valid : IsValid b.orders_at_price_pool)
    (found : b.price_orders_at_price (side_of buy) price ≡ some slot)
    (best : best_of b buy ≡ head_of (us ++ slot ∷ ws))
    (ring : IsRing (links level_node b.orders_at_price_pool) (us ++ slot ∷ ws))
    (distinct : Distinct (us ++ slot ∷ ws)) where
  unlink_level-several :
      (y : ℕ) (ys : List ℕ)
      → ws ++ us ≡ y ∷ ys
      → (l : Leaves level_node (close_up_entry level_node) b.orders_at_price_pool us slot ws y)
      → unlink_level b buy slot ≡ done (with_levels (set_best b buy (head_of (us ++ ws))) l.cleared)
  unfolding unlink_level
  unlink_level-several y ys e l =
      rw
        (
          l.close_done,
          l.next_after,
          l.clear_done,
          best_after b (with_levels b l.closed) buy us slot ws y ys best (ground arith) e distinct,
        )
        (ground arith)

  remove_several :
      (y : ℕ) (ys : List ℕ)
      → ws ++ us ≡ y ∷ ys
      → (pool : MemPool OrdersAtPrice) × (remove_orders_at_price b (side_of buy) price
          ≡ done (level_gone b buy price (head_of (us ++ ws)) pool))
        × Left level_node b.orders_at_price_pool pool us slot ws
  unfolding remove_orders_at_price
  remove_several y ys e =
      let l =
        close_up_entry-Leaves level_node b.orders_at_price_pool us slot ws y ys valid e ring
          distinct in
      let other : (y == slot) ≡ false =
        ground (arith, (Distinct-swap us (slot ∷ ws) distinct).0, ap (mem slot) e) in
      (
        l.released,
        rw
            (
              found,
              l.next_before,
              is_buy-side_of buy,
              other,
              unlink_level-several y ys e l,
              l.release_done,
            )
            refl,
        l.left,
      )

remove_alone :
    (b : Book) (buy : Bool) (price : ℤ) (slot : ℕ)
    → IsValid b.orders_at_price_pool
    → b.price_orders_at_price (side_of buy) price ≡ some slot
    → IsRing (links level_node b.orders_at_price_pool) (slot ∷ [])
    → (pool : MemPool OrdersAtPrice) × (remove_orders_at_price b (side_of buy) price
        ≡ done (level_gone b buy price none pool))
      × Left level_node b.orders_at_price_pool pool [] slot []
unfolding remove_orders_at_price
remove_alone b buy price slot valid found ring =
    let p = b.orders_at_price_pool in
    let (pool, released, left) =
      alone-Left level_node p slot valid (next-live level_node p slot slot ring.0) in
    let self : (slot == slot) ≡ true = ground arith in
    let kept : (set_best b buy none).orders_at_price_pool ≡ p = ground arith in
    (
      pool,
      rw
          (
            found,
            get_next_lem level_node p slot slot ring.0,
            self,
            is_buy-side_of buy,
            kept,
            released,
          )
          refl,
      left,
    )

-- What `remove_orders_at_price` does to any level of a side, alone there or not.
pub remove_level :
    (b : Book) (buy : Bool) (price : ℤ) (us : List ℕ) (slot : ℕ) (ws : List ℕ)
    → IsValid b.orders_at_price_pool
    → b.price_orders_at_price (side_of buy) price ≡ some slot
    → best_of b buy ≡ head_of (us ++ slot ∷ ws)
    → IsRing (links level_node b.orders_at_price_pool) (us ++ slot ∷ ws)
    → Distinct (us ++ slot ∷ ws)
    → (pool : MemPool OrdersAtPrice) × (remove_orders_at_price b (side_of buy) price
        ≡ done (level_gone b buy price (head_of (us ++ ws)) pool))
      × Left level_node b.orders_at_price_pool pool us slot ws
remove_level b buy price [] slot [] v f t r d = remove_alone b buy price slot v f r
remove_level b buy price [] slot (w ∷ ws) v f t r d =
    remove_several b buy price [] slot (w ∷ ws) v f t r d w ws (append-nil (w ∷ ws))
remove_level b buy price (u ∷ us) slot [] v f t r d =
    remove_several b buy price (u ∷ us) slot [] v f t r d u us refl
remove_level b buy price (u ∷ us) slot (w ∷ ws) v f t r d =
    remove_several b buy price (u ∷ us) slot (w ∷ ws) v f t r d w (ws ++ u ∷ us) refl
