-- ===== src/Matcher/Removal.antt =====
-- `remove_order`: the whole of what it does to a book that represents two lists of levels.
use trade_system.Common.{
  ℕ, ◌≡◌, ◌≢◌, refl, ap, ◌∙◌, subst, Bool, true, false, Option, some, done, arith, List, [], ◌∷◌,
  ◌++◌, append-nil, suc,
}
use trade_system.Common.Int.{ℤ}
use trade_system.MemPool.{MemPool}
use trade_system.MemPool.Valid.{used}
use trade_system.Intrusive.Laws.{bare_of, get_prev_lem, next-live}
use trade_system.Intrusive.Leave.{close_up-Leaves, alone-Left}
use trade_system.Matcher.Book.{Book, Order, OrdersAtPrice, order_node}
use trade_system.Matcher.Links.{remove_order}
use trade_system.Matcher.Shape.{Level, Rep, head_of, slots_of, slots_of-append}
use trade_system.Matcher.RemoveLevel.{remove_level}
use trade_system.Matcher.RemoveOrder.{level_with, before_levels, found, several-Rep}
use trade_system.Matcher.RemoveLast.{last_gone, last-Rep}
use trade_system.Matcher.Unlinking.{
  Quiet, order_gone, LevelOk-Standing, unlink_order-several, remove_order-several,
  remove_order-alone,
}
use trade_system.Common.{Distinct, Distinct-left}

-- The levels from `l` on once its queue is `q`: an empty level goes.
abbrev pub shrink : Level → List ℕ → List Level → List Level
shrink l [] rs = rs
shrink l (x ∷ q) rs = record l { queue = x ∷ q } ∷ rs

-- `c` is `b` without the order `i`, and otherwise the same.
pub record Without (b : Book) (buy : Bool) (i : ℕ) (ls ms : List Level) (c : Book) : Type 0 where
  pub rep : Rep c buy ls ms
  pub quiet : Quiet b c
  pub one_less : suc (used c.order_pool) ≡ used b.order_pool
  pub others :
      (j : ℕ) → i ≢ j → bare_of order_node c.order_pool j ≡ bare_of order_node b.order_pool j

removal-several :
    (b : Book) (buy : Bool) (ls : List Level) (slot : ℕ) (price : ℤ) (us : List ℕ) (i : ℕ)
    (ws : List ℕ) (rs ms : List Level) (y : ℕ) (ys : List ℕ) (x : ℕ) (xs : List ℕ)
    → Rep b buy (before_levels b buy ls slot price us i ws rs ms) ms
    → ws ++ us ≡ y ∷ ys
    → us ++ ws ≡ x ∷ xs
    → (c : Book) × (remove_order b i ≡ done c)
      × Without b buy i
          (ls ++ shrink (level_with b buy ls slot price us i ws rs ms []) (us ++ ws) rs)
          ms
          c
removal-several b buy ls slot price us i ws rs ms y ys x xs r e g =
    let f = found b buy ls slot price us i ws rs ms r in
    let leaves =
      close_up-Leaves order_node b.order_pool us i ws y ys r.orders_valid e f.level_ok.ring
        f.queue_distinct in
    let top : head_of (us ++ ws) ≡ some x = ap head_of g in
    let (levels, ran, t) =
      unlink_order-several b buy price slot us i ws y ys f.level_ok.first x r.levels_valid
        (LevelOk-Standing b buy _ f.level_ok.first f.level_ok f.level_ok.head) f.level_ok.head top e
        f.queue_distinct leaves in
    let rep =
      several-Rep b buy ls slot price us i ws rs ms r leaves.released leaves.left levels x t top in
    let same : level_with b buy ls slot price us i ws rs ms (us ++ ws) ∷ rs
        ≡ shrink (level_with b buy ls slot price us i ws rs ms []) (us ++ ws) rs =
      rw g refl in
    (
      order_gone b f.order.order leaves.released levels,
      remove_order-several b buy price i f.order slot us ws y levels f.price_finds leaves ran,
      record {
        rep =
            subst (λ l. Rep (order_gone b f.order.order leaves.released levels) buy (ls ++ l) ms)
              same rep;
        quiet = record {
          ticker_id = refl;
          last_order_response = refl;
          next_market_order_id = refl;
          used_client_order_ids = refl;
          emitted = refl;
        };
        one_less = leaves.left.one_less;
        others = leaves.left.others;
      },
    )

last_gone-Quiet :
    (b : Book) (buy : Bool) (price : ℤ) (best : Option ℕ) (o : Order) (orders : MemPool Order)
    (levels : MemPool OrdersAtPrice)
    → Quiet b (last_gone b buy price best o orders levels)
last_gone-Quiet b true price best o orders levels = ground arith
last_gone-Quiet b false price best o orders levels = ground arith

removal-last :
    (b : Book) (buy : Bool) (ls : List Level) (slot : ℕ) (price : ℤ) (i : ℕ) (rs ms : List Level)
    → Rep b buy (before_levels b buy ls slot price [] i [] rs ms) ms
    → (c : Book) × (remove_order b i ≡ done c) × Without b buy i (ls ++ rs) ms c
removal-last b buy ls slot price i rs ms r =
    let f = found b buy ls slot price [] i [] rs ms r in
    let slots = slots_of-append ls (level_with b buy ls slot price [] i [] rs ms (i ∷ []) ∷ rs) in
    let self = f.level_ok.ring.1 in
    let (orders, released, left) =
      alone-Left order_node b.order_pool i r.orders_valid
        (next-live order_node b.order_pool i i f.level_ok.ring.0) in
    let (levels, gone, level_left) =
      remove_level b buy price (slots_of ls) slot (slots_of rs) r.levels_valid f.price_finds
        (r.this_side.best_first ∙ ap head_of slots) (rw (← slots) r.this_side.ring)
        (subst Distinct slots (
          Distinct-left (slots_of (before_levels b buy ls slot price [] i [] rs ms)) (slots_of ms)
            r.slots_distinct)) in
    (
      last_gone b buy price (head_of (slots_of ls ++ slots_of rs)) f.order.order orders levels,
      remove_order-alone b buy price i f.order (head_of (slots_of ls ++ slots_of rs)) levels orders
          (get_prev_lem order_node b.order_pool i i self) gone released,
      record {
        rep = last-Rep b buy ls slot price i rs ms r orders left levels level_left;
        quiet =
            last_gone-Quiet b buy price (head_of (slots_of ls ++ slots_of rs)) f.order.order orders
              levels;
        one_less = left.one_less;
        others = left.others;
      },
    )

removal_at :
    (b : Book) (buy : Bool) (ls : List Level) (slot : ℕ) (price : ℤ) (us : List ℕ) (i : ℕ)
    (ws : List ℕ) (rs ms : List Level)
    → Rep b buy (before_levels b buy ls slot price us i ws rs ms) ms
    → (c : Book) × (remove_order b i ≡ done c)
      × Without b buy i
          (ls ++ shrink (level_with b buy ls slot price us i ws rs ms []) (us ++ ws) rs)
          ms
          c
removal_at b buy ls slot price [] i [] rs ms r = removal-last b buy ls slot price i rs ms r
removal_at b buy ls slot price [] i (w ∷ ws) rs ms r =
    removal-several b buy ls slot price [] i (w ∷ ws) rs ms w ws w ws r (append-nil (w ∷ ws)) refl
removal_at b buy ls slot price (u ∷ us) i [] rs ms r =
    removal-several b buy ls slot price (u ∷ us) i [] rs ms u us u (us ++ []) r refl refl
removal_at b buy ls slot price (u ∷ us) i (w ∷ ws) rs ms r =
    removal-several b buy ls slot price (u ∷ us) i (w ∷ ws) rs ms w (ws ++ u ∷ us) u (us ++ w ∷ ws)
      r refl refl

-- `removeOrder` of an order that rests in the book, wherever it stands in the queue of whichever
-- level: it meets no null or dangling pointer and no failing ASSERT, takes exactly that order out
-- of the queue (with the level, if it was the last), releases its slot, and leaves the
-- representation valid, the other orders and what has been sent as they were.
pub remove_order-Without :
    (b : Book) (buy : Bool) (ls : List Level) (l : Level) (rs ms : List Level) (us : List ℕ) (i : ℕ)
    (ws : List ℕ)
    → Rep b buy (ls ++ l ∷ rs) ms
    → l.queue ≡ us ++ i ∷ ws
    → (c : Book) × (remove_order b i ≡ done c) × Without b buy i (ls ++ shrink l (us ++ ws) rs) ms c
remove_order-Without b buy ls l rs ms us i ws r e =
    let (c, ran, w) =
      removal_at b buy ls l.slot l.price us i ws rs ms
        (subst (λ q. Rep b buy (ls ++ record l { queue = q } ∷ rs) ms) e r) in
    (c, ran, subst (λ k. Without b buy i (ls ++ k) ms c) (shrink-queue l [] (us ++ ws) rs) w)
  where
    shrink-queue :
        (l : Level) (q' q : List ℕ) (rs : List Level)
        → shrink (record l { queue = q' }) q rs ≡ shrink l q rs
    shrink-queue l q' [] rs = refl
    shrink-queue l q' (x ∷ q) rs = refl
