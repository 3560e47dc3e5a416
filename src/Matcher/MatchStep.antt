-- ===== src/Matcher/MatchStep.antt =====
-- One round of `checkForMatch`: what `match` does to a book that represents two lists of levels.
use trade_system.Common.{
  ℕ, ◌≡◌, ap, ◌∙◌, sym, subst, Bool, true, not, Option, some, arith, List, [], ◌∷◌, ◌++◌, ◌==◌,
  Bool-cases, inl, inr, All, ◌<◌,
}
use trade_system.Common.Int.{ℤ}
use trade_system.Types.{max_num_clients}
use trade_system.Messages.{ClientResponse}
use trade_system.MemPool
use trade_system.MemPool.{MemPool}
use trade_system.MemPool.Valid.{in_use, used-store, store-IsValid}
use trade_system.Ring.Change.{IsRing-congr}
use trade_system.Intrusive.Laws.{links}
use trade_system.Matcher.Book.{Book, Order, OrdersAtPrice, Event, order_node, put_order}
use trade_system.Matcher.Shape.{Level, Rep, SideOk, LevelOk, OrderOk, Index, Orders, orders_of}

-- Messages and numbers do not touch the representation.
pub Rep-record :
    (b : Book) (buy : Bool) (ls ms : List Level) (last : ℕ → ℕ → Option ClientResponse) (next : ℕ)
    (used' : ℕ → ℕ → Bool) (out : List Event)
    → Rep b buy ls ms
    → Rep
        (record b {
          last_order_response = last;
          next_market_order_id = next;
          used_client_order_ids = used';
          emitted = out;
        })
        buy
        ls
        ms
Rep-record b buy ls ms last next used' out r = record {
  orders_valid = r.orders_valid;
  levels_valid = r.levels_valid;
  this_side = r.this_side;
  that_side = r.that_side;
  orders_distinct = r.orders_distinct;
  slots_distinct = r.slots_distinct;
  orders_counted = r.orders_counted;
  slots_counted = r.slots_counted;
  this_prices = r.this_prices;
  that_prices = r.that_prices;
  index = r.index;
}

-- An order whose quantity changes keeps its place.
module _ (orders : Orders) (i : ℕ) (o : Order) (n : ℕ) (live : orders.block i ≡ some o) where
  abbrev requantified : Orders
  requantified = MemPool.store orders i (record o { qty = n })

  requantify-OrderOk :
      (buy : Bool) (price : ℤ) (j : ℕ)
      → OrderOk buy price orders j
      → OrderOk buy price requantified j
  requantify-OrderOk buy price j ok = elim (Bool-cases (i == j)) [
    | inl e ↦
        let same : order_node.bare o ≡ ok.order = ground (arith, e, live, ok.live) in
        record {
          order = record (order_node.bare o) { qty = n };
          live = ground (arith, e);
          side = ap (λ (x : Order). x.side) same ∙ ok.side;
          at_price = ap (λ (x : Order). x.price) same ∙ ok.at_price;
          client = subst (λ (x : Order). x.client_id < max_num_clients) (sym same) ok.client;
        }
    | inr e ↦ record {
      order = ok.order;
      live = ground (arith, e, ok.live);
      side = ok.side;
      at_price = ok.at_price;
      client = ok.client;
    }
  ]

  requantify-All :
      (buy : Bool) (price : ℤ) (xs : List ℕ)
      → All (OrderOk buy price orders) xs
      → All (OrderOk buy price requantified) xs
  requantify-All buy price [] h = tt
  requantify-All buy price (x ∷ xs) h =
      (requantify-OrderOk buy price x h.0, requantify-All buy price xs h.1)

  requantify-links :
      (j : ℕ)
      → ((links order_node requantified).next j ≡ (links order_node orders).next j)
        × ((links order_node requantified).prev j ≡ (links order_node orders).prev j)
  requantify-links j = (ground (arith, live), ground (arith, live))

  requantify-levels :
      (buy : Bool) (levels : MemPool OrdersAtPrice) (ls : List Level)
      → All (LevelOk buy orders levels) ls
      → All (LevelOk buy requantified levels) ls
  requantify-levels buy levels [] h = tt
  requantify-levels buy levels (l ∷ ls) h = (
    record {
      first = h.0.first;
      head = h.0.head;
      struct = h.0.struct;
      ring =
          IsRing-congr (links order_node orders) (links order_node requantified) l.queue
            (λ j m. requantify-links j) h.0.ring;
      members = requantify-All buy l.price l.queue h.0.members;
    },
    requantify-levels buy levels ls h.1,
  )

  requantify-SideOk :
      (buy : Bool) (levels : MemPool OrdersAtPrice) (best : Option ℕ) (ls : List Level)
      → SideOk buy orders levels best ls
      → SideOk buy requantified levels best ls
  requantify-SideOk buy levels best ls h = record {
    best_first = h.best_first;
    ring = h.ring;
    all_ok = requantify-levels buy levels ls h.all_ok;
    sorted = h.sorted;
  }

  requantify-Index :
      (cid : ℕ → ℕ → Option ℕ) (xs : List ℕ) → Index cid orders xs → Index cid requantified xs
  requantify-Index cid xs h = record {
    complete = λ j o' m k. elim (Bool-cases (i == j)) [
      | inl e ↦
          let keys : record (order_node.bare o) { qty = n } ≡ o' = ground (arith, e, k) in
          subst (λ (x : Order). cid x.client_id x.client_order_id ≡ some j) keys
            (h.complete j (order_node.bare o) m (ground (arith, e, live)))
      | inr e ↦ h.complete j o' m (ground (arith, e, k))
    ];
    sound = λ c oid j k.
        let (m, f) = h.sound c oid j k in
        (
          m,
          λ o' k'. elim (Bool-cases (i == j)) [
            | inl e ↦
                let keys : record (order_node.bare o) { qty = n } ≡ o' = ground (arith, e, k') in
                subst (λ (x : Order). (x.client_id ≡ c) × (x.client_order_id ≡ oid)) keys
                  (f (order_node.bare o) (ground (arith, e, live)))
            | inr e ↦ f o' (ground (arith, e, k'))
          ],
        );
  }

pub requantify-Rep :
    (b : Book) (buy : Bool) (ls ms : List Level) (i : ℕ) (o : Order) (n : ℕ)
    → Rep b buy ls ms
    → b.order_pool.block i ≡ some o
    → Rep (put_order b i (record o { qty = n })) buy ls ms
requantify-Rep b buy ls ms i o n r e =
    let live : in_use (b.order_pool.block i) ≡ true = ground (arith, e) in
    record {
      orders_valid = store-IsValid b.order_pool i (record o { qty = n }) r.orders_valid live;
      levels_valid = r.levels_valid;
      this_side =
          requantify-SideOk b.order_pool i o n e buy b.orders_at_price_pool _ ls r.this_side;
      that_side =
          requantify-SideOk b.order_pool i o n e (not buy) b.orders_at_price_pool _ ms r.that_side;
      orders_distinct = r.orders_distinct;
      slots_distinct = r.slots_distinct;
      orders_counted =
          used-store b.order_pool i (record o { qty = n }) r.orders_valid live ∙ r.orders_counted;
      slots_counted = r.slots_counted;
      this_prices = r.this_prices;
      that_prices = r.that_prices;
      index =
          requantify-Index b.order_pool i o n e b.cid_oid_to_order (orders_of ls ++ orders_of ms)
            r.index;
    }
