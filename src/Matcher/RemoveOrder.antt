-- ===== src/Matcher/RemoveOrder.antt =====
-- `remove_order` in a book that represents two lists of levels: it never faults, and the order
-- leaves the queue of its level, or the level goes with it where it was alone.
use trade_system.MemPool.{MemPool}
use trade_system.Common.Int.{ℤ}
use trade_system.Common.{
  ℕ, ◌≡◌, refl, ap, ◌∙◌, sym, subst, Bool, false, not, none, some, arith, List, ◌∷◌, ◌++◌, mem,
  mem-append, Distinct, Apart, length, All, All-split, All-join, All-drop,
}
use trade_system.MemPool.Valid.{used}
use trade_system.Ring.Change.{IsRing-congr}
use trade_system.Intrusive.Laws.{links}
use trade_system.Intrusive.Leave.{Left}
use trade_system.Matcher.Book.{Book, Order, OrdersAtPrice, level_node, order_node, update₂}
use trade_system.Matcher.Levels.{best_of}
use trade_system.Matcher.Shape.{
  Level, Rep, SideOk, LevelOk, OrderOk, SameOn, Index, head_of, side_of, slots_of, orders_of,
  Distinct-drop, length-cut, All-OrderOk-frame, All-LevelOk-frame, SideOk-frame,
}
use trade_system.Matcher.Prices.{find_level-cut, find_level-replace, IsSorted-replace}
use trade_system.Matcher.Index.{Index-drop}
use trade_system.Matcher.Cuts.{
  slots_of-replace, slots_around, orders_around, orders_around_order, orders_around_gap,
  Distinct-middle, Left-SameOn,
}
use trade_system.Matcher.Unlinking.{Resting, OrderOk-Resting, Retopped, order_gone}

-- An order `i` of the level `slot`, between the orders `us` and `ws` of its queue.
module _ (b : Book) (buy : Bool) (ls : List Level) (slot : ℕ) (price : ℤ) (us : List ℕ) (i : ℕ)
    (ws : List ℕ) (rs ms : List Level) where
  abbrev pub level_with : List ℕ → Level
  level_with q = record { slot = slot; price = price; queue = q }

  abbrev pub before_levels : List Level
  before_levels = ls ++ level_with (us ++ i ∷ ws) ∷ rs

  -- What the representation says about the order `i`.
  pub record Found (r : Rep b buy before_levels ms) : Type 0 where
    pub level_ok : LevelOk buy b.order_pool b.orders_at_price_pool (level_with (us ++ i ∷ ws))
    pub before_ok : All (LevelOk buy b.order_pool b.orders_at_price_pool) ls
    pub after_ok : All (LevelOk buy b.order_pool b.orders_at_price_pool) rs
    pub order : Resting b buy price i
    pub queue_distinct : Distinct (us ++ i ∷ ws)
    pub apart_before : Apart (orders_of ls) (us ++ i ∷ ws)
    pub apart_after : Apart (orders_of rs ++ orders_of ms) (us ++ i ∷ ws)
    pub slots_distinct : Distinct (slots_of ls ++ slot ∷ (slots_of rs ++ slots_of ms))
    pub slot_out : mem slot (slots_of ls ++ (slots_of rs ++ slots_of ms)) ≡ false
    pub order_out : mem i ((orders_of ls ++ us) ++ (ws ++ (orders_of rs ++ orders_of ms))) ≡ false
    pub price_finds : b.price_orders_at_price (side_of buy) price ≡ some slot

  pub found : (r : Rep b buy before_levels ms) → Found r
  found r =
      let l = level_with (us ++ i ∷ ws) in
      let (a, lv, c) =
        All-split (LevelOk buy b.order_pool b.orders_at_price_pool) ls l rs r.this_side.all_ok in
      let (m, o, n) = All-split (OrderOk buy price b.order_pool) us i ws lv.members in
      let orders = subst Distinct (orders_around ls l rs ms) r.orders_distinct in
      let (d, p, q) =
        Distinct-middle (orders_of ls) (us ++ i ∷ ws) (orders_of rs ++ orders_of ms) orders in
      let slots = subst Distinct (slots_around ls l rs ms) r.slots_distinct in
      let all = subst Distinct (orders_around_order ls l rs ms us i ws refl) r.orders_distinct in
      record {
        level_ok = lv;
        before_ok = a;
        after_ok = c;
        order = OrderOk-Resting b buy price i o;
        queue_distinct = d;
        apart_before = p;
        apart_after = q;
        slots_distinct = slots;
        slot_out = (Distinct-drop (slots_of ls) slot (slots_of rs ++ slots_of ms) slots).1;
        order_out =
            (Distinct-drop (orders_of ls ++ us) i (ws ++ (orders_of rs ++ orders_of ms)) all).1;
        price_finds = r.this_prices price ∙ find_level-cut buy ls l rs r.this_side.sorted;
      }

  -- The orders and the index once `i` has left, whatever becomes of the levels.
  module _ (r : Rep b buy before_levels ms) (orders : MemPool Order)
      (left : Left order_node b.order_pool orders us i ws) where
    pub same_before : SameOn order_node b.order_pool orders (orders_of ls)
    same_before =
        Left-SameOn order_node b.order_pool orders us i ws (orders_of ls) left
          (found r).apart_before

    same_after : SameOn order_node b.order_pool orders (orders_of rs ++ orders_of ms)
    same_after =
        Left-SameOn order_node b.order_pool orders us i ws (orders_of rs ++ orders_of ms) left
          (found r).apart_after

    pub same_rest : SameOn order_node b.order_pool orders (orders_of rs)
    same_rest j m = same_after j (ground (arith, mem-append j (orders_of rs) (orders_of ms), m))

    pub same_other : SameOn order_node b.order_pool orders (orders_of ms)
    same_other j m = same_after j (ground (arith, mem-append j (orders_of rs) (orders_of ms), m))

    unfoldable pub left_orders : List ℕ
    left_orders = (orders_of ls ++ us) ++ (ws ++ (orders_of rs ++ orders_of ms))

    pub left-Distinct : Distinct left_orders
    unfolding left_orders
    left-Distinct =
        (Distinct-drop (orders_of ls ++ us) i (ws ++ (orders_of rs ++ orders_of ms)) (
          subst Distinct (orders_around_order ls (level_with (us ++ i ∷ ws)) rs ms us i ws refl)
            r.orders_distinct)).0

    pub left-counted : used orders ≡ length left_orders
    unfolding left_orders
    left-counted = omega (
      arith,
      left.one_less,
      r.orders_counted,
      ap length (orders_around_order ls (level_with (us ++ i ∷ ws)) rs ms us i ws refl),
      length-cut (orders_of ls ++ us) i (ws ++ (orders_of rs ++ orders_of ms)),
    )

    pub left-Index :
        Index
          (update₂ b.cid_oid_to_order
            (found r).order.order.client_id
            (found r).order.order.client_order_id
            none)
          orders
          left_orders
    unfolding left_orders
    left-Index =
        let o = (found r).order in
        Index-drop b.cid_oid_to_order b.order_pool orders (orders_of ls ++ us) i
          (ws ++ (orders_of rs ++ orders_of ms)) (order_node.bare o.order)
          (subst (Index b.cid_oid_to_order b.order_pool)
            (orders_around_order ls (level_with (us ++ i ∷ ws)) rs ms us i ws refl) r.index)
          (found r).order_out (rw o.block refl) left.others

    -- The queue goes on without `i`.
    several-LevelOk :
        (levels : MemPool OrdersAtPrice) (g : ℕ)
        → Retopped b.orders_at_price_pool levels slot buy price g
        → head_of (us ++ ws) ≡ some g
        → LevelOk buy orders levels (level_with (us ++ ws))
    several-LevelOk levels g t h = record {
      first = g;
      head = h;
      struct = t.struct;
      ring = left.ring;
      members =
          All-OrderOk-frame buy price b.order_pool orders (us ++ ws)
            (λ j m.
              left.others j
                (λ e. ground (arith, e, m, (Distinct-drop us i ws (found r).queue_distinct).1)))
            (All-drop (OrderOk buy price b.order_pool) us i ws (found r).level_ok.members);
    }

    several-SideOk :
        (levels : MemPool OrdersAtPrice) (g : ℕ)
        → Retopped b.orders_at_price_pool levels slot buy price g
        → head_of (us ++ ws) ≡ some g
        → SideOk buy orders levels (best_of b buy) (ls ++ level_with (us ++ ws) ∷ rs)
    several-SideOk levels g t h =
        let slots =
          slots_of-replace ls (level_with (us ++ ws)) (level_with (us ++ i ∷ ws)) rs refl in
        record {
          best_first = rw slots r.this_side.best_first;
          ring = rw slots (
              IsRing-congr (links level_node b.orders_at_price_pool) (links level_node levels)
                (slots_of before_levels) (λ j m. (t.next j, t.prev j)) r.this_side.ring);
          all_ok =
              All-join (LevelOk buy orders levels) ls (level_with (us ++ ws)) rs
                (All-LevelOk-frame buy b.order_pool orders b.orders_at_price_pool levels ls
                  same_before
                  (λ j m. t.others j (λ e. ground (
                    arith,
                    e,
                    m,
                    (found r).slot_out,
                    mem-append j (slots_of ls) (slots_of rs ++ slots_of ms),
                  )))
                  (found r).before_ok)
                (several-LevelOk levels g t h)
                (All-LevelOk-frame buy b.order_pool orders b.orders_at_price_pool levels rs
                  same_rest
                  (λ j m. t.others j (λ e. ground (
                    arith,
                    e,
                    m,
                    (found r).slot_out,
                    mem-append j (slots_of ls) (slots_of rs ++ slots_of ms),
                    mem-append j (slots_of rs) (slots_of ms),
                  )))
                  (found r).after_ok);
          sorted =
              IsSorted-replace buy ls (level_with (us ++ i ∷ ws)) (level_with (us ++ ws)) rs refl
                r.this_side.sorted;
        }

    pub several-Rep :
        (levels : MemPool OrdersAtPrice) (g : ℕ)
        → Retopped b.orders_at_price_pool levels slot buy price g
        → head_of (us ++ ws) ≡ some g
        → Rep
            (order_gone b (found r).order.order orders levels)
            buy
            (ls ++ level_with (us ++ ws) ∷ rs)
            ms
    unfolding left_orders
    several-Rep levels g t h =
        let gap = orders_around_gap ls (level_with (us ++ ws)) rs ms us ws refl in
        let slots =
          slots_of-replace ls (level_with (us ++ ws)) (level_with (us ++ i ∷ ws)) rs refl in
        record {
          orders_valid = left.valid;
          levels_valid = t.valid;
          this_side = several-SideOk levels g t h;
          that_side =
              SideOk-frame (not buy) b.order_pool orders b.orders_at_price_pool levels
                (best_of b (not buy)) ms same_other
                (λ j m. (
                  t.next j,
                  t.prev j,
                  t.others j (λ e. ground (
                    arith,
                    e,
                    m,
                    (found r).slot_out,
                    mem-append j (slots_of ls) (slots_of rs ++ slots_of ms),
                    mem-append j (slots_of rs) (slots_of ms),
                  )),
                ))
                r.that_side;
          orders_distinct = subst Distinct (sym gap) left-Distinct;
          slots_distinct = rw slots r.slots_distinct;
          orders_counted = rw gap left-counted;
          slots_counted = rw slots (t.count ∙ r.slots_counted);
          this_prices = λ p.
              r.this_prices p
              ∙ sym (
                  find_level-replace p ls (level_with (us ++ i ∷ ws)) (level_with (us ++ ws)) rs
                    refl refl);
          that_prices = r.that_prices;
          index = subst (Index _ orders) (sym gap) left-Index;
        }
