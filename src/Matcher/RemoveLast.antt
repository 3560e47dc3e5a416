-- ===== src/Matcher/RemoveLast.antt =====
-- The last order of a level leaves, and the level goes with it.
use trade_system.MemPool.{MemPool}
use trade_system.Common.Int.{ℤ}
use trade_system.Common.{
  ℕ, ◌≡◌, ap, sym, subst, Bool, not, Option, none, arith, List, [], ◌∷◌, ◌++◌, mem, mem-append,
  Distinct, append-nil, append_assoc, length, Bool-cases, inl, inr, All-append, Distinct-Apart,
}
use trade_system.Intrusive.Leave.{Left}
use trade_system.Matcher.Book.{Book, Order, OrdersAtPrice, level_node, order_node, update₂}
use trade_system.Matcher.Levels.{best_of}
use trade_system.Matcher.Shape.{
  Level, Rep, SideOk, LevelOk, SameOn, Index, head_of, slots_of, orders_of, slots_of-append,
  orders_of-append, Distinct-drop, length-cut, All-LevelOk-frame, SideOk-frame,
}
use trade_system.Matcher.Prices.{
  find_level-drop, IsSorted-drop, best_of-set_best, best_of-set_best-not, prices-set_best,
  update_price_self, update_price-not,
}
use trade_system.Matcher.RemoveLevel.{level_gone}
use trade_system.Matcher.Cuts.{slots_around, Left-SameOn}
use trade_system.Matcher.RemoveOrder.{
  level_with, before_levels, Found, found, same_before, same_rest, same_other, left_orders,
  left-Distinct, left-counted, left-Index,
}

-- The book without an order that was alone in its level, and without that level.
abbrev pub last_gone :
    Book → Bool → ℤ → Option ℕ → Order → MemPool Order → MemPool OrdersAtPrice → Book
last_gone b buy price best o orders levels =
    let c = level_gone b buy price best levels in
    record c {
      cid_oid_to_order = update₂ b.cid_oid_to_order o.client_id o.client_order_id none;
      order_pool = orders;
    }

module _ (b : Book) (buy : Bool) (ls : List Level) (slot : ℕ) (price : ℤ) (i : ℕ)
    (rs ms : List Level) (r : Rep b buy (before_levels b buy ls slot price [] i [] rs ms) ms)
    (orders : MemPool Order) (left : Left order_node b.order_pool orders [] i [])
    (levels : MemPool OrdersAtPrice)
    (gone : Left level_node b.orders_at_price_pool levels (slots_of ls) slot (slots_of rs)) where
  abbrev f : Found b buy ls slot price [] i [] rs ms r
  f = found b buy ls slot price [] i [] rs ms r

  last-SideOk : SideOk buy orders levels (head_of (slots_of ls ++ slots_of rs)) (ls ++ rs)
  last-SideOk = record {
    best_first = ap head_of (sym (slots_of-append ls rs));
    ring = rw (slots_of-append ls rs) gone.ring;
    all_ok =
        All-append (LevelOk buy orders levels) ls rs
          (All-LevelOk-frame buy b.order_pool orders b.orders_at_price_pool levels ls
            (same_before b buy ls slot price [] i [] rs ms r orders left)
            (λ j m. gone.others j (λ e.
              ground
                (arith, e, m, f.slot_out, mem-append j (slots_of ls) (slots_of rs ++ slots_of ms))))
            f.before_ok)
          (All-LevelOk-frame buy b.order_pool orders b.orders_at_price_pool levels rs
            (same_rest b buy ls slot price [] i [] rs ms r orders left)
            (λ j m. gone.others j (λ e. ground (
              arith,
              e,
              m,
              f.slot_out,
              mem-append j (slots_of ls) (slots_of rs ++ slots_of ms),
              mem-append j (slots_of rs) (slots_of ms),
            )))
            f.after_ok);
    sorted = IsSorted-drop buy ls _ rs r.this_side.sorted;
  }

  -- No slot of the other side is in this side's ring.
  last-SameOn : SameOn level_node b.orders_at_price_pool levels (slots_of ms)
  last-SameOn =
      Left-SameOn level_node b.orders_at_price_pool levels (slots_of ls) slot (slots_of rs)
        (slots_of ms) gone
        (λ j m. elim (Bool-cases (mem j (slots_of ls ++ slot ∷ slots_of rs))) [
          | inl e ↦ ground (
            arith,
            m,
            Distinct-Apart (slots_of ls ++ slot ∷ slots_of rs) (slots_of ms)
                (simp append_assoc f.slots_distinct) j e,
          )
          | inr e ↦ e
        ])

  last-that : SideOk (not buy) orders levels (best_of b (not buy)) ms
  last-that =
      SideOk-frame (not buy) b.order_pool orders b.orders_at_price_pool levels (best_of b (not buy))
        ms (same_other b buy ls slot price [] i [] rs ms r orders left) last-SameOn r.that_side

  pub last-Rep :
      Rep
        (last_gone b buy price (head_of (slots_of ls ++ slots_of rs)) f.order.order orders levels)
        buy
        (ls ++ rs)
        ms
  unfolding left_orders
  last-Rep =
      let l = level_with b buy ls slot price [] i [] rs ms (i ∷ []) in
      let orders_left : orders_of (ls ++ rs) ++ orders_of ms
          ≡ (orders_of ls ++ []) ++ (orders_of rs ++ orders_of ms) =
        simp (orders_of-append, append-nil, append_assoc) in
      let slots_left : slots_of (ls ++ rs) ++ slots_of ms
          ≡ slots_of ls ++ (slots_of rs ++ slots_of ms) =
        simp (slots_of-append, append_assoc) in
      record {
        orders_valid = left.valid;
        levels_valid = gone.valid;
        this_side = rw (best_of-set_best b buy (head_of (slots_of ls ++ slots_of rs))) last-SideOk;
        that_side =
            rw (best_of-set_best-not b buy (head_of (slots_of ls ++ slots_of rs))) last-that;
        orders_distinct =
            subst Distinct (sym orders_left)
              (left-Distinct b buy ls slot price [] i [] rs ms r orders left);
        slots_distinct =
            rw slots_left
              (Distinct-drop (slots_of ls) slot (slots_of rs ++ slots_of ms) f.slots_distinct).0;
        orders_counted =
            rw orders_left (left-counted b buy ls slot price [] i [] rs ms r orders left);
        slots_counted = rw slots_left (
            omega (
              arith,
              gone.one_less,
              r.slots_counted,
              ap length (slots_around ls l rs ms),
              length-cut (slots_of ls) slot (slots_of rs ++ slots_of ms),
            ));
        this_prices = λ p.
            rw
              (
                prices-set_best b buy (head_of (slots_of ls ++ slots_of rs)),
                update_price_self b.price_orders_at_price buy price p none,
                r.this_prices p,
              )
              (sym (find_level-drop buy p ls l rs r.this_side.sorted));
        that_prices = λ p.
            rw
              (
                prices-set_best b buy (head_of (slots_of ls ++ slots_of rs)),
                update_price-not b.price_orders_at_price buy price p none,
              )
              (r.that_prices p);
        index =
            subst (Index _ orders) (sym orders_left)
              (left-Index b buy ls slot price [] i [] rs ms r orders left);
      }
