-- ===== src/Matcher/Shape.antt =====
-- What the pointers of a book stand for: on each side the price levels from the best price on,
-- and in each level the orders from the oldest on.
use trade_system.Common.{
  ℕ, ◌<◌, ◌≡◌, ◌∙◌, sym, refl, Bool, true, false, not, ◌==◌, ◌||◌, if◌then◌else◌, List, [], ◌∷◌,
  ◌++◌, Option, none, some, mem, Distinct, All, length, arith, mem-append, suc, append_assoc,
  length-append, Distinct-swap,
}
use trade_system.Common.Int.{ℤ}
use trade_system.Types.{Side, max_num_clients}
use trade_system.MemPool.{MemPool}
use trade_system.MemPool.Valid.{IsValid, used}
use trade_system.Ring.{IsRing}
use trade_system.Ring.Change.{IsRing-congr}
use trade_system.Intrusive.{Node}
use trade_system.Intrusive.Laws.{links, bare_of}
use trade_system.Matcher.Book.{Book, Order, OrdersAtPrice, order_node, level_node, price_eq}
use trade_system.Matcher.Levels.{better, best_of}

-- A price level: its slot, its price and its queue of order slots.
pub record Level : Type 0 where
  pub slot : ℕ
  pub price : ℤ
  pub queue : List ℕ

abbrev pub slots_of : List Level → List ℕ
slots_of [] = []
slots_of (l ∷ ls) = l.slot ∷ slots_of ls

abbrev pub orders_of : List Level → List ℕ
orders_of [] = []
orders_of (l ∷ ls) = l.queue ++ orders_of ls

abbrev pub head_of : List ℕ → Option ℕ
head_of [] = none
head_of (x ∷ xs) = some x

-- The side that a flag stands for.
abbrev pub side_of : Bool → Side
side_of true = Side.buy
side_of false = Side.sell

-- The level of a price.
abbrev pub find_level : ℤ → List Level → Option ℕ
find_level p [] = none
find_level p (l ∷ ls) = if price_eq l.price p then some l.slot else find_level p ls

-- Strictly from better to worse prices.
abbrev pub IsSorted : Bool → List Level → Type 0
IsSorted buy [] = Unit
IsSorted buy (l ∷ ls) = All (λ m. better buy l.price m.price ≡ true) ls × IsSorted buy ls

abbrev pub Orders : Type 0
Orders = MemPool Order

abbrev pub Levels : Type 0
Levels = MemPool OrdersAtPrice

-- The order in a slot has a side, a price and a client in range.
pub record OrderOk (buy : Bool) (price : ℤ) (orders : Orders) (i : ℕ) : Type 0 where
  pub order : Order
  pub live : bare_of order_node orders i ≡ some order
  pub side : order.side ≡ side_of buy
  pub at_price : order.price ≡ price
  pub client : order.client_id < max_num_clients

-- The struct of a level, and its queue.
pub record LevelOk (buy : Bool) (orders : Orders) (levels : Levels) (l : Level) : Type 0 where
  pub first : ℕ
  pub head : head_of l.queue ≡ some first
  pub struct :
      bare_of level_node levels l.slot
      ≡ some (record {
        side = side_of buy;
        price = l.price;
        first_order = some first;
        prev_entry = none;
        next_entry = none;
      })
  pub ring : IsRing (links order_node orders) l.queue
  pub members : All (OrderOk buy l.price orders) l.queue

pub record SideOk (buy : Bool) (orders : Orders) (levels : Levels) (best : Option ℕ)
    (ls : List Level) : Type 0 where
  pub best_first : best ≡ head_of (slots_of ls)
  pub ring : IsRing (links level_node levels) (slots_of ls)
  pub all_ok : All (LevelOk buy orders levels) ls
  pub sorted : IsSorted buy ls

-- Two pools agree on some slots, pointers and contents.
abbrev pub SameOn : {T : Type 0} → Node T → MemPool T → MemPool T → List ℕ → Type 0
SameOn n p q xs =
    (j : ℕ)
    → mem j xs ≡ true
    → ((links n q).next j ≡ (links n p).next j)
      × ((links n q).prev j ≡ (links n p).prev j)
      × (bare_of n q j ≡ bare_of n p j)

pub All-OrderOk-frame :
    (buy : Bool) (price : ℤ) (o o' : Orders) (xs : List ℕ)
    → ((j : ℕ) → mem j xs ≡ true → bare_of order_node o' j ≡ bare_of order_node o j)
    → All (OrderOk buy price o) xs
    → All (OrderOk buy price o') xs
All-OrderOk-frame buy price o o' [] s h = tt
All-OrderOk-frame buy price o o' (x ∷ xs) s h = (
  record {
    order = h.0.order;
    live = s x (ground arith) ∙ h.0.live;
    side = h.0.side;
    at_price = h.0.at_price;
    client = h.0.client;
  },
  All-OrderOk-frame buy price o o' xs (λ j m. s j (ground arith)) h.1,
)

pub LevelOk-frame :
    (buy : Bool) (o o' : Orders) (ps ps' : Levels) (l : Level)
    → SameOn order_node o o' l.queue
    → bare_of level_node ps' l.slot ≡ bare_of level_node ps l.slot
    → LevelOk buy o ps l
    → LevelOk buy o' ps' l
LevelOk-frame buy o o' ps ps' l s e h = record {
  first = h.first;
  head = h.head;
  struct = e ∙ h.struct;
  ring =
      IsRing-congr (links order_node o) (links order_node o') l.queue
        (λ j m. ((s j m).0, (s j m).1)) h.ring;
  members = All-OrderOk-frame buy l.price o o' l.queue (λ j m. (s j m).2) h.members;
}

pub All-LevelOk-frame :
    (buy : Bool) (o o' : Orders) (ps ps' : Levels) (ls : List Level)
    → SameOn order_node o o' (orders_of ls)
    → ((j : ℕ) → mem j (slots_of ls) ≡ true → bare_of level_node ps' j ≡ bare_of level_node ps j)
    → All (LevelOk buy o ps) ls
    → All (LevelOk buy o' ps') ls
All-LevelOk-frame buy o o' ps ps' [] s e h = tt
All-LevelOk-frame buy o o' ps ps' (l ∷ ls) s e h = (
  LevelOk-frame buy o o' ps ps' l (λ j m. s j (ground (arith, mem-append j l.queue (orders_of ls))))
      (e l.slot (ground arith)) h.0,
  All-LevelOk-frame buy o o' ps ps' ls
      (λ j m. s j (ground (arith, mem-append j l.queue (orders_of ls)))) (λ j m. e j (ground arith))
      h.1,
)

-- A side that a change does not touch.
pub SideOk-frame :
    (buy : Bool) (o o' : Orders) (ps ps' : Levels) (best : Option ℕ) (ls : List Level)
    → SameOn order_node o o' (orders_of ls)
    → SameOn level_node ps ps' (slots_of ls)
    → SideOk buy o ps best ls
    → SideOk buy o' ps' best ls
SideOk-frame buy o o' ps ps' best ls s t h = record {
  best_first = h.best_first;
  ring =
      IsRing-congr (links level_node ps) (links level_node ps') (slots_of ls)
        (λ j m. ((t j m).0, (t j m).1)) h.ring;
  all_ok = All-LevelOk-frame buy o o' ps ps' ls s (λ j m. (t j m).2) h.all_ok;
  sorted = h.sorted;
}

-- The index of orders by client finds each of the orders `xs`, and no other.
pub record Index (cid : ℕ → ℕ → Option ℕ) (orders : Orders) (xs : List ℕ) : Type 0 where
  pub complete :
      (i : ℕ) (o : Order)
      → mem i xs ≡ true
      → bare_of order_node orders i ≡ some o
      → cid o.client_id o.client_order_id ≡ some i
  pub sound :
      (c oid i : ℕ)
      → cid c oid ≡ some i
      → (mem i xs ≡ true)
        × ((o : Order)
            → bare_of order_node orders i ≡ some o
            → (o.client_id ≡ c) × (o.client_order_id ≡ oid))

pub Index-mem :
    (cid : ℕ → ℕ → Option ℕ) (orders : Orders) (xs ys : List ℕ)
    → ((i : ℕ) → mem i ys ≡ mem i xs)
    → Index cid orders xs
    → Index cid orders ys
Index-mem cid orders xs ys e h = record {
  complete = λ i o m k. h.complete i o (sym (e i) ∙ m) k;
  sound = λ c oid i k. let (m, f) = h.sound c oid i k in (e i ∙ m, f);
}

-- The book `b` has the levels `ls` on the side `buy` and `ms` on the other: the pointers, both
-- pools and both hash maps are exactly those of these lists.
pub record Rep (b : Book) (buy : Bool) (ls ms : List Level) : Type 0 where
  pub orders_valid : IsValid b.order_pool
  pub levels_valid : IsValid b.orders_at_price_pool
  pub this_side : SideOk buy b.order_pool b.orders_at_price_pool (best_of b buy) ls
  pub that_side : SideOk (not buy) b.order_pool b.orders_at_price_pool (best_of b (not buy)) ms
  pub orders_distinct : Distinct (orders_of ls ++ orders_of ms)
  pub slots_distinct : Distinct (slots_of ls ++ slots_of ms)
  pub orders_counted : used b.order_pool ≡ length (orders_of ls ++ orders_of ms)
  pub slots_counted : used b.orders_at_price_pool ≡ length (slots_of ls ++ slots_of ms)
  pub this_prices : (p : ℤ) → b.price_orders_at_price (side_of buy) p ≡ find_level p ls
  pub that_prices : (p : ℤ) → b.price_orders_at_price (side_of (not buy)) p ≡ find_level p ms
  pub index : Index b.cid_oid_to_order b.order_pool (orders_of ls ++ orders_of ms)

mem-swap : (i : ℕ) (xs ys : List ℕ) → mem i (xs ++ ys) ≡ mem i (ys ++ xs)
mem-swap i xs ys = ground (arith, mem-append i xs ys, mem-append i ys xs)

length-swap : (xs ys : List ℕ) → length (xs ++ ys) ≡ length (ys ++ xs)
length-swap xs ys = omega (arith, length-append xs ys, length-append ys xs)

-- The two sides may be named in either order.
pub Rep-flip :
    (b : Book) (buy : Bool) (ls ms : List Level) → Rep b buy ls ms → Rep b (not buy) ms ls
Rep-flip b buy ls ms r = record {
  orders_valid = r.orders_valid;
  levels_valid = r.levels_valid;
  this_side = r.that_side;
  that_side = rw (not-not buy) r.this_side;
  orders_distinct = Distinct-swap (orders_of ls) (orders_of ms) r.orders_distinct;
  slots_distinct = Distinct-swap (slots_of ls) (slots_of ms) r.slots_distinct;
  orders_counted = r.orders_counted ∙ length-swap (orders_of ls) (orders_of ms);
  slots_counted = r.slots_counted ∙ length-swap (slots_of ls) (slots_of ms);
  this_prices = r.that_prices;
  that_prices = rw (not-not buy) r.this_prices;
  index =
      Index-mem b.cid_oid_to_order b.order_pool (orders_of ls ++ orders_of ms)
        (orders_of ms ++ orders_of ls) (λ i. mem-swap i (orders_of ms) (orders_of ls)) r.index;
}
  where
    not-not : (x : Bool) → not (not x) ≡ x
    not-not true = refl
    not-not false = refl

-- Lists cut at an element.
pub orders_of-append : (ls ms : List Level) → orders_of (ls ++ ms) ≡ orders_of ls ++ orders_of ms
orders_of-append [] ms = refl
orders_of-append (l ∷ ls) ms = simp (orders_of-append ls ms, append_assoc)

pub slots_of-append : (ls ms : List Level) → slots_of (ls ++ ms) ≡ slots_of ls ++ slots_of ms
slots_of-append [] ms = refl
slots_of-append (l ∷ ls) ms = rw (slots_of-append ls ms)

pub find_level-append :
    (p : ℤ) (ls ms : List Level)
    → find_level p (ls ++ ms) ≡ elim (find_level p ls) [ some i ↦ some i | none ↦ find_level p ms ]
find_level-append p [] ms = refl
find_level-append p (l ∷ ls) ms = ground (arith, find_level-append p ls ms)

pub Distinct-drop :
    (xs : List ℕ) (i : ℕ) (ys : List ℕ)
    → Distinct (xs ++ i ∷ ys)
    → Distinct (xs ++ ys) × (mem i (xs ++ ys) ≡ false)
Distinct-drop [] i ys d = (d.1, d.0)
Distinct-drop (x ∷ xs) i ys d =
    let rest = Distinct-drop xs i ys d.1 in
    (
      (ground (arith, d.0, mem-append x xs ys, mem-append x xs (i ∷ ys)), rest.0),
      ground (arith, d.0, rest.1, mem-append x xs (i ∷ ys)),
    )

pub mem-cut :
    (j : ℕ) (xs : List ℕ) (i : ℕ) (ys : List ℕ)
    → mem j (xs ++ i ∷ ys) ≡ (i == j || mem j (xs ++ ys))
mem-cut j xs i ys = ground (arith, mem-append j xs (i ∷ ys), mem-append j xs ys)

pub length-cut :
    (xs : List ℕ) (i : ℕ) (ys : List ℕ) → length (xs ++ i ∷ ys) ≡ suc (length (xs ++ ys))
length-cut xs i ys = omega (arith, length-append xs (i ∷ ys), length-append xs ys)
