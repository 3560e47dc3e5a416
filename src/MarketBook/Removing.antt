-- ===== src/MarketBook/Removing.antt =====
-- `removeOrder` on a client's book whose pointers stand for two sorted sides.
use trade_system.Common.{
  ℕ, ◌≡◌, refl, subst, Bool, List, ◌∷◌, ◌++◌, some, Outcome, done, fault, out_of_fuel, ◌<◌, sym,
  ◌∙◌,
}
use trade_system.Types.{max_order_ids}
use trade_system.Intrusive.Mapped.{map_done}
use trade_system.Matcher.Shape.{Level, Rep}
use trade_system.Matcher.Removal.{Without, shrink, remove_order-Without}
use trade_system.MarketBook.{MarketOrder, MarketOrderBook}
use trade_system.MarketBook.Orders.{remove_order}
use trade_system.MarketBook.Mirror.{as_book}
use trade_system.MarketBook.Leaving.{remove_order-as_book}

map_done-eq-done :
    {A B : Type 0} (f : A → B) (m : Outcome A) (b : B)
    → map_done f m ≡ done b
    → (a : A) × (m ≡ done a) × (f a ≡ b)
map_done-eq-done f (done a) b h = (a, refl, cc)
map_done-eq-done f fault b h = cc
map_done-eq-done f out_of_fuel b h = cc

-- `removeOrder` of an order that rests in a client's book, whose pointers stand for two sides of
-- sorted price levels with their queues: it returns, takes exactly that order out of its queue (with
-- the level, if it was the last), releases its slot, and leaves the other orders and the
-- representation valid.
pub remove_order-Kept :
    (b : MarketOrderBook) (buy : Bool) (ls : List Level) (l : Level) (rs ms : List Level)
    (us : List ℕ) (i : ℕ) (ws : List ℕ) (o : MarketOrder)
    → Rep (as_book b) buy (ls ++ l ∷ rs) ms
    → l.queue ≡ us ++ i ∷ ws
    → b.order_pool.block i ≡ some o
    → o.order_id < max_order_ids
    → (c : MarketOrderBook) × (remove_order b i ≡ done c)
      × Without (as_book b) buy i (ls ++ shrink l (us ++ ws) rs) ms (as_book c)
remove_order-Kept b buy ls l rs ms us i ws o r q e h =
    let (d, ran, w) = remove_order-Without (as_book b) buy ls l rs ms us i ws r q in
    let (c, ran_too, same) =
      map_done-eq-done as_book (remove_order b i) d (sym (remove_order-as_book b i o e h) ∙ ran) in
    (c, ran_too, subst (Without (as_book b) buy i (ls ++ shrink l (us ++ ws) rs) ms) (sym same) w)
