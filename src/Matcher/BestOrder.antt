-- ===== src/Matcher/BestOrder.antt =====
-- The order that the matching loop looks at: the first one of the best level.
use trade_system.Common.{
  ℕ, ◌≡◌, ◌∙◌, refl, ap, subst, Bool, not, Option, none, some, Outcome, done, arith, List, [], ◌∷◌,
  ◌>>=◌, deref, All,
}
use trade_system.Matcher.Book.{Book, Order, level_at}
use trade_system.Matcher.Fill.{best_opposite}
use trade_system.Matcher.Levels.{best_of}
use trade_system.Matcher.Shape.{Level, Rep, OrderOk, head_of}
use trade_system.Matcher.Unlinking.{OrderOk-Resting, LevelOk-Standing}

-- The best level, its first order, and that order's struct, as the loop reads them.
pub record Best (b : Book) (buy : Bool) (l : Level) : Type 0 where
  pub slot : ℕ
  pub rest : List ℕ
  pub order : Order
  pub queue : l.queue ≡ slot ∷ rest
  pub found : best_opposite b buy ≡ done (some slot)
  pub block : b.order_pool.block slot ≡ some order
  pub at_price : order.price ≡ l.price

-- The first order of the level that a pointer leads to.
pub first_of : Book → Option ℕ → Outcome (Option ℕ)
first_of b none = done none
first_of b (some best) = do l ← level_at b best; first ← deref l.first_order; done (some first)

pub first_of-none : (b : Book) → first_of b none ≡ done none
unfolding first_of
first_of-none b = refl

pub best_opposite-first_of :
    (b : Book) (buy : Bool) → best_opposite b buy ≡ first_of b (best_of b (not buy))
unfolding best_opposite first_of
best_opposite-first_of b buy = refl

pub best_lem :
    (b : Book) (buy : Bool) (l : Level) (ls ms : List Level)
    → Rep b (not buy) (l ∷ ls) ms
    → Best b buy l
unfolding first_of
best_lem b buy l ls ms r = go l.queue refl
  where
    go : (q : List ℕ) → l.queue ≡ q → Best b buy l
    go [] e = absurd (ground (arith, e, r.this_side.all_ok.0.head))
    go (i ∷ q) e =
        let ok = r.this_side.all_ok.0 in
        let st = LevelOk-Standing b (not buy) l i ok (ap head_of e) in
        let o =
          OrderOk-Resting b (not buy) l.price i
            (subst (All (OrderOk (not buy) l.price b.order_pool)) e ok.members).0 in
        record {
          slot = i;
          rest = q;
          order = o.order;
          queue = e;
          found =
              best_opposite-first_of b buy
              ∙ ap (first_of b) r.this_side.best_first
              ∙ rw (st.block, st.first) refl;
          block = o.block;
          at_price = o.at_price;
        }
