-- ===== src/MarketBook/Tests.antt =====
-- A run of a client's book, and the theorems about it at a book with one order.
use trade_system.Common.{
  ℕ, ◌≡◌, refl, List, [], ◌∷◌, ◌++◌, true, false, none, some, Outcome, done, ◌>>=◌, ◌==◌,
  if◌then◌else◌, arith, ap, sym, ◌∙◌, subst,
}
use trade_system.Common.Int.{ℤ, pos}
use trade_system.Types.{Side, side_to_value}
use trade_system.Messages.{MarketUpdate, MarketUpdateType}
use trade_system.Intrusive.{insert_before, close_up, close_up_entry, clear_links, push_back}
use trade_system.Intrusive.Mapped.{map_done}
use trade_system.MemPool
use trade_system.Matcher
use trade_system.Matcher.Book.{Order}
use trade_system.Matcher.Shape.{Level, Rep}
use trade_system.Matcher.Removal.{Without, shrink}
use trade_system.MarketBook.{MarketOrder, MarketOrderBook, Bbo, empty_market_book, key_before}
use trade_system.MarketBook.Levels.{find_target, add_orders_at_price, remove_orders_at_price}
use trade_system.MarketBook.Orders.{add_order, remove_order}
use trade_system.MarketBook.Updates.{on_market_update}
use trade_system.MarketBook.Mirror.{as_book}
use trade_system.MarketBook.Adding.{orders-as_book}
use trade_system.MarketBook.Removing.{remove_order-Kept}

abbrev change : MarketUpdateType → ℕ → Side → ℤ → ℕ → MarketUpdate
change type id side price qty = record {
  type = type;
  order_id = id;
  ticker_id = 0;
  side = side;
  price = price;
  qty = qty;
  priority = 1;
}

abbrev step : MarketOrderBook → MarketUpdate → Outcome MarketOrderBook
step b u = on_market_update b u >>= λ x. done x.1

-- Three bids and an ask; the second bid goes, and an update for an unknown order is refused.
abbrev session : Outcome Bbo
session = do
  b₁ ← step (empty_market_book 5 8 0) (change MarketUpdateType.add 1 Side.buy (pos 10) 5)
  b₂ ← step b₁ (change MarketUpdateType.add 2 Side.buy (pos 11) 6)
  b₃ ← step b₂ (change MarketUpdateType.add 3 Side.buy (pos 10) 7)
  b₄ ← step b₃ (change MarketUpdateType.add 4 Side.sell (pos 12) 8)
  b₅ ← step b₄ (change MarketUpdateType.cancel 2 Side.buy (pos 11) 0)
  b₆ ← step b₅ (change MarketUpdateType.cancel 9 Side.buy (pos 11) 0)
  b₇ ← step b₆ (change MarketUpdateType.modify 1 Side.buy (pos 10) 2)
  done b₇.bbo

session_quotes :
    session ≡ done (record { bid_price = pos 10; ask_price = pos 12; bid_qty = 9; ask_qty = 8 })
unfolding empty_market_book on_market_update MemPool.allocate MemPool.deallocate remove_order
    add_order add_orders_at_price remove_orders_at_price find_target insert_before close_up_entry
    clear_links push_back close_up key_before side_to_value
session_quotes = refl

abbrev bid : MarketOrder
bid = record {
  order_id = 6;
  side = Side.buy;
  price = pos 10;
  qty = 5;
  priority = 1;
  prev_order = some 0;
  next_order = some 0;
}

abbrev one_order : MarketOrderBook
one_order = record {
  ticker_id = 0;
  has_engine = false;
  oid_to_order = λ i. if i == 6 then some 0 else none;
  live_order_ids = 6 ∷ [];
  orders_at_price_pool = record {
    capacity = 2;
    block = λ i.
        if i == 0
        then some (record {
          side = Side.buy;
          price = pos 10;
          first_mkt_order = some 0;
          prev_entry = some 0;
          next_entry = some 0;
        })
        else none;
    free = 1 ∷ [];
  };
  bids_by_price = some 0;
  asks_by_price = none;
  price_orders_at_price = record { side = Side.buy; price = pos 10; level = 0 } ∷ [];
  order_pool = record {
    capacity = 2;
    block = λ i. if i == 0 then some bid else none;
    free = 1 ∷ [];
  };
  bbo = record { bid_price = pos 10; ask_price = pos 0; bid_qty = 5; ask_qty = 0 };
}

orders-as_book_example :
    (Matcher.Links.remove_order (as_book one_order) 0 ≡ map_done as_book (remove_order one_order 0))
    × (Matcher.Links.add_order (as_book one_order) 0 ≡ map_done as_book (add_order one_order 0))
orders-as_book_example = orders-as_book one_order 0 bid refl (omega arith)

abbrev bids : List Level
bids = record { slot = 0; price = pos 10; queue = 0 ∷ [] } ∷ []

abbrev bare_bid : Order
bare_bid = record {
  ticker_id = 0;
  client_id = 0;
  client_order_id = 6;
  market_order_id = 6;
  side = Side.buy;
  price = pos 10;
  qty = 5;
  priority = 1;
  prev_order = none;
  next_order = none;
}

one_order-Rep : Rep (as_book one_order) true bids []
one_order-Rep = record {
  orders_valid = record {
    distinct = (refl, tt);
    exact = λ i. ground arith;
    within = λ i h. ground (arith, h);
    conserved = refl;
  };
  levels_valid = record {
    distinct = (refl, tt);
    exact = λ i. ground arith;
    within = λ i h. ground (arith, h);
    conserved = refl;
  };
  this_side = record {
    best_first = refl;
    ring = (refl, refl);
    all_ok = (
      record {
        first = 0;
        head = refl;
        struct = refl;
        ring = (refl, refl);
        members = (
          record {
            order = bare_bid;
            live = refl;
            side = refl;
            at_price = refl;
            client = omega arith;
          },
          tt,
        );
      },
      tt,
    );
    sorted = (tt, tt);
  };
  that_side = record { best_first = refl; ring = tt; all_ok = tt; sorted = tt };
  orders_distinct = (refl, tt);
  slots_distinct = (refl, tt);
  orders_counted = refl;
  slots_counted = refl;
  this_prices = λ p. refl;
  that_prices = λ p. refl;
  index = record {
    complete = λ i o m k.
        let same : bare_bid ≡ o = ground (arith, m, k) in
        let first : 0 ≡ i = ground (arith, m) in
        subst
          (λ (x : Order).
            (as_book one_order).cid_oid_to_order x.client_id x.client_order_id ≡ some i)
          same (ap some first);
    sound = λ c oid i k. (
      ground (arith, k),
      λ o e.
          let same : bare_bid ≡ o = ground (arith, k, e) in
          (
            sym (ap (λ (x : Order). x.client_id) same) ∙ ground (arith, k),
            sym (ap (λ (x : Order). x.client_order_id) same) ∙ ground (arith, k),
          ),
    );
  };
}

remove_order-Kept_example :
    (c : MarketOrderBook) × (remove_order one_order 0 ≡ done c)
    × Without
        (as_book one_order)
        true
        0
        ([] ++ shrink (record { slot = 0; price = pos 10; queue = 0 ∷ [] }) [] [])
        []
        (as_book c)
remove_order-Kept_example =
    remove_order-Kept one_order true [] (record { slot = 0; price = pos 10; queue = 0 ∷ [] }) [] []
      [] 0 [] bid one_order-Rep refl refl (omega arith)
