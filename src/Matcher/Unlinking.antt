-- ===== src/Matcher/Unlinking.antt =====
-- The code of `remove_order`, step by step: the order leaves the queue of its level, or the level
-- goes with it where it was alone.
use trade_system.Common.{
  ℕ, ◌≡◌, ◌≢◌, refl, ap, ◌∙◌, sym, ◌==◌, Bool, true, false, Option, none, some, ◌<◌, done, arith,
  List, [], ◌∷◌, ◌++◌, mem-append, Distinct, append-nil, Option-cases, inl, inr, lt→ltb,
}
use trade_system.Common.Int.{ℤ}
use trade_system.Types.{max_num_clients}
use trade_system.MemPool
use trade_system.MemPool.{MemPool}
use trade_system.MemPool.Valid.{IsValid, used, used-store, store-IsValid}
use trade_system.Intrusive.{ptr_eq, get_prev, close_up}
use trade_system.Intrusive.Laws.{links, bare_of}
use trade_system.Intrusive.Leave.{Leaves}
use trade_system.Matcher.Book.{Book, Order, OrdersAtPrice, level_node, order_node, update₂}
use trade_system.Matcher.Levels.{set_best, remove_orders_at_price}
use trade_system.Matcher.Links.{unlink_order, register, remove_order}
use trade_system.Matcher.Shape.{Level, LevelOk, OrderOk, head_of, side_of}
use trade_system.Matcher.RemoveLevel.{level_gone}

-- The struct in the slot of an order that is in the book.
pub record Resting (b : Book) (buy : Bool) (price : ℤ) (i : ℕ) : Type 0 where
  pub order : Order
  pub block : b.order_pool.block i ≡ some order
  pub side : order.side ≡ side_of buy
  pub at_price : order.price ≡ price
  pub client : order.client_id < max_num_clients

pub OrderOk-Resting :
    (b : Book) (buy : Bool) (price : ℤ) (i : ℕ)
    → OrderOk buy price b.order_pool i
    → Resting b buy price i
OrderOk-Resting b buy price i ok = elim (Option-cases (b.order_pool.block i)) [
  | inl e ↦ ground (arith, ok.live, e)
  | inr (o, e) ↦ record {
    order = o;
    block = e;
    side = ground (arith, ok.live, ok.side, e);
    at_price = ground (arith, ok.live, ok.at_price, e);
    client = ground (arith, ok.live, ok.client, e);
  }
]

-- The pool of levels once the level in `slot` has `f` as its first order.
pub record Retopped (pl pl' : MemPool OrdersAtPrice) (slot : ℕ) (buy : Bool) (price : ℤ) (f : ℕ)
    : Type 0 where
  pub valid : IsValid pl'
  pub count : used pl' ≡ used pl
  pub next : (j : ℕ) → (links level_node pl').next j ≡ (links level_node pl).next j
  pub prev : (j : ℕ) → (links level_node pl').prev j ≡ (links level_node pl).prev j
  pub others : (j : ℕ) → slot ≢ j → bare_of level_node pl' j ≡ bare_of level_node pl j
  pub struct :
      bare_of level_node pl' slot
      ≡ some (record {
        side = side_of buy;
        price = price;
        first_order = some f;
        prev_entry = none;
        next_entry = none;
      })

-- A level as the pool holds it.
pub record Standing (pl : MemPool OrdersAtPrice) (slot : ℕ) (buy : Bool) (price : ℤ) (f : ℕ)
    : Type 0 where
  pub level : OrdersAtPrice
  pub block : pl.block slot ≡ some level
  pub side : level.side ≡ side_of buy
  pub at_price : level.price ≡ price
  pub first : level.first_order ≡ some f

pub LevelOk-Standing :
    (b : Book) (buy : Bool) (l : Level) (f : ℕ)
    → LevelOk buy b.order_pool b.orders_at_price_pool l
    → head_of l.queue ≡ some f
    → Standing b.orders_at_price_pool l.slot buy l.price f
LevelOk-Standing b buy l f ok h = elim (Option-cases (b.orders_at_price_pool.block l.slot)) [
  | inl e ↦ ground (arith, ok.struct, e)
  | inr (s, e) ↦ record {
    level = s;
    block = e;
    side = ground (arith, ok.struct, e);
    at_price = ground (arith, ok.struct, e);
    first = ground (arith, ok.struct, e, ok.head, h);
  }
]

kept-Retopped :
    (pl : MemPool OrdersAtPrice) (slot : ℕ) (buy : Bool) (price : ℤ) (f : ℕ)
    → IsValid pl
    → Standing pl slot buy price f
    → Retopped pl pl slot buy price f
kept-Retopped pl slot buy price f v s = record {
  valid = v;
  count = refl;
  next = λ j. refl;
  prev = λ j. refl;
  others = λ j ne. refl;
  struct = ground (arith, s.block, s.side, s.at_price, s.first);
}

stored-Retopped :
    (pl : MemPool OrdersAtPrice) (slot : ℕ) (buy : Bool) (price : ℤ) (f g : ℕ)
    → IsValid pl
    → (s : Standing pl slot buy price f)
    → Retopped pl
        (MemPool.store pl slot (record (s.level) { first_order = some g }))
        slot
        buy
        price
        g
stored-Retopped pl slot buy price f g v s = record {
  valid = store-IsValid pl slot _ v (ground (arith, s.block));
  count = used-store pl slot _ v (ground (arith, s.block));
  next = λ j. ground (arith, s.block);
  prev = λ j. ground (arith, s.block);
  others = λ j ne. ground (arith, ne);
  struct = ground (arith, s.side, s.at_price);
}

-- The fields of a book that the rings have nothing to do with.
pub record Quiet (b c : Book) : Type 0 where
  pub ticker_id : c.ticker_id ≡ b.ticker_id
  pub last_order_response : c.last_order_response ≡ b.last_order_response
  pub next_market_order_id : c.next_market_order_id ≡ b.next_market_order_id
  pub used_client_order_ids : c.used_client_order_ids ≡ b.used_client_order_ids
  pub emitted : c.emitted ≡ b.emitted

-- The book without an order of a level that goes on.
abbrev pub order_gone : Book → Order → MemPool Order → MemPool OrdersAtPrice → Book
order_gone b o orders levels = record b {
  cid_oid_to_order = update₂ b.cid_oid_to_order o.client_id o.client_order_id none;
  orders_at_price_pool = levels;
  order_pool = orders;
}

-- The code of `remove_order`, for an order with a neighbour.
pub unlink_order-several :
    (b : Book) (buy : Bool) (price : ℤ) (slot : ℕ) (us : List ℕ) (i : ℕ) (ws : List ℕ) (y : ℕ)
    (ys : List ℕ) (f g : ℕ)
    → IsValid b.orders_at_price_pool
    → Standing b.orders_at_price_pool slot buy price f
    → head_of (us ++ i ∷ ws) ≡ some f
    → head_of (us ++ ws) ≡ some g
    → ws ++ us ≡ y ∷ ys
    → Distinct (us ++ i ∷ ws)
    → (l : Leaves order_node (close_up order_node) b.order_pool us i ws y)
    → (levels : MemPool OrdersAtPrice) × (unlink_order b (some slot) i
        ≡ done (record b { orders_at_price_pool = levels; order_pool = l.cleared }))
      × Retopped b.orders_at_price_pool levels slot buy price g
unfolding unlink_order
unlink_order-several b buy price slot [] i ws y ys f g v s hf hg e d l =
    let test : ptr_eq s.level.first_order i ≡ true = ground (arith, s.first, hf) in
    let top : y ≡ g = ground (arith, ap head_of (sym (append-nil ws) ∙ e), hg) in
    (
      MemPool.store b.orders_at_price_pool slot (record (s.level) { first_order = some y }),
      rw (l.next_before, l.close_done, s.block, test, l.clear_done) refl,
      rw (← top) (stored-Retopped b.orders_at_price_pool slot buy price f y v s),
    )
unlink_order-several b buy price slot (u ∷ us) i ws y ys f g v s hf hg e d l =
    let test : ptr_eq s.level.first_order i ≡ false =
      ground (arith, s.first, hf, d.0, mem-append u us (i ∷ ws)) in
    let same : f ≡ g = ground (arith, hf, hg) in
    (
      b.orders_at_price_pool,
      rw (l.next_before, l.close_done, s.block, test, l.clear_done) refl,
      rw (← same) (kept-Retopped b.orders_at_price_pool slot buy price f v s),
    )

-- All that `remove_order` reads of the order.
module _ (b : Book) (buy : Bool) (price : ℤ) (i : ℕ) (o : Resting b buy price i) where
  pub remove_order-several :
      (slot : ℕ) (us ws : List ℕ) (y : ℕ) (levels : MemPool OrdersAtPrice)
      → b.price_orders_at_price (side_of buy) price ≡ some slot
      → (l : Leaves order_node (close_up order_node) b.order_pool us i ws y)
      → unlink_order b (some slot) i
        ≡ done (record b { orders_at_price_pool = levels; order_pool = l.cleared })
      → remove_order b i ≡ done (order_gone b o.order l.released levels)
  unfolding remove_order register
  remove_order-several slot us ws y levels found l unlinked =
      let other : (l.before == i) ≡ false = ground (arith, l.before-ne) in
      rw
        (
          o.block,
          l.prev_before,
          other,
          o.side,
          o.at_price,
          found,
          unlinked,
          lt→ltb _ _ o.client,
          l.release_done,
        )
        refl

  pub remove_order-alone :
      (best : Option ℕ) (levels : MemPool OrdersAtPrice) (orders : MemPool Order)
      → get_prev order_node b.order_pool i ≡ done (some i)
      → remove_orders_at_price b (side_of buy) price ≡ done (level_gone b buy price best levels)
      → MemPool.deallocate b.order_pool i ≡ done orders
      → remove_order b i
        ≡ done (
            let c = level_gone b buy price best levels in
            record c {
              cid_oid_to_order =
                  update₂ b.cid_oid_to_order o.order.client_id o.order.client_order_id none;
              order_pool = orders;
            })
  unfolding remove_order register
  remove_order-alone best levels orders self gone released =
      let own : (i == i) ≡ true = ground arith in
      let cid : (set_best b buy best).cid_oid_to_order ≡ b.cid_oid_to_order = ground arith in
      let pool : (set_best b buy best).order_pool ≡ b.order_pool = ground arith in
      rw (o.block, self, own, o.side, o.at_price, gone, lt→ltb _ _ o.client, cid, pool, released)
        refl
