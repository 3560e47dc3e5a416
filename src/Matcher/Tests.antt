-- ===== src/Matcher/Tests.antt =====
-- Runs of small books, and the theorems about the matcher at concrete inputs.
use trade_system.Common.{false}
use trade_system.Matcher.Trades.{Account, check_for_match-conserves}
use trade_system.Matcher.Loop.{Matched, check_for_match-Matched}
use trade_system.Matcher.MatchOrder.{after_fill, match_order_lem}
use trade_system.Matcher.Spec.{fill_events}
use trade_system.Common.{
  ℕ, ◌≡◌, refl, List, [], ◌∷◌, none, some, Outcome, done, ◌>>=◌, ◌++◌, ap, sym, ◌∙◌, subst, ◌==◌,
  ◌&&◌, true, if◌then◌else◌, arith,
}
use trade_system.Common.Int.{ℤ, pos}
use trade_system.Types.{Side, side_eq, order_id_invalid}
use trade_system.Messages.{MarketUpdateType}
use trade_system.Intrusive.{insert_before, close_up, close_up_entry, clear_links, push_back}
use trade_system.MemPool
use trade_system.Matcher.Book.{Book, Order, Event, empty_book, price_eq}
use trade_system.Matcher.Shape.{Level, Rep}
use trade_system.Matcher.Removal.{Without, shrink, remove_order-Without}
use trade_system.Matcher.Book.Event.{response, market}
use trade_system.Matcher.Levels.{
  find_target, add_orders_at_price, remove_orders_at_price, get_next_priority,
}
use trade_system.Matcher.Links.{add_order, remove_order}
use trade_system.Matcher.Fill.{match_order, match_loop, check_for_match, best_opposite, Taker}
use trade_system.Matcher.Requests.{add, cancel, add_reason, rest_order}

abbrev updates_of : List Event → List (MarketUpdateType × ℕ × ℤ × ℕ)
updates_of [] = []
updates_of (response r ∷ es) = updates_of es
updates_of (market u ∷ es) = (u.type, u.order_id, u.price, u.qty) ∷ updates_of es

abbrev session : Outcome Book
session = do
  b₁ ← add (empty_book 5 8 0) 1 1 0 Side.sell (pos 100) 5
  b₂ ← add b₁ 2 1 0 Side.sell (pos 99) 3
  b₃ ← add b₂ 3 1 0 Side.buy (pos 100) 6
  b₄ ← add b₃ 3 2 0 Side.buy (pos 97) 4
  b₅ ← add b₄ 3 3 0 Side.buy (pos 98) 4
  b₆ ← add b₅ 4 3 0 Side.buy (pos 96) 4
  b₇ ← add b₆ 4 4 0 Side.buy (pos 97) 1
  b₈ ← cancel b₇ 3 2 0
  add b₈ 5 3 0 Side.sell (pos 1) 20

-- The best price trades first, an order at one price in the order of arrival, and what is left
-- of the incoming order rests.
session_updates :
    (session >>= λ b. done (updates_of b.emitted))
    ≡ done (
        (MarketUpdateType.add, 1, pos 100, 5)
        ∷ (MarketUpdateType.add, 2, pos 99, 3)
        ∷ (MarketUpdateType.trade, order_id_invalid, pos 99, 3)
        ∷ (MarketUpdateType.cancel, 2, pos 99, 3)
        ∷ (MarketUpdateType.trade, order_id_invalid, pos 100, 3)
        ∷ (MarketUpdateType.modify, 1, pos 100, 2)
        ∷ (MarketUpdateType.add, 4, pos 97, 4)
        ∷ (MarketUpdateType.add, 5, pos 98, 4)
        ∷ (MarketUpdateType.add, 6, pos 96, 4)
        ∷ (MarketUpdateType.add, 7, pos 97, 1)
        ∷ (MarketUpdateType.cancel, 4, pos 97, 0)
        ∷ (MarketUpdateType.trade, order_id_invalid, pos 98, 4)
        ∷ (MarketUpdateType.cancel, 5, pos 98, 4)
        ∷ (MarketUpdateType.trade, order_id_invalid, pos 97, 1)
        ∷ (MarketUpdateType.cancel, 7, pos 97, 1)
        ∷ (MarketUpdateType.trade, order_id_invalid, pos 96, 4)
        ∷ (MarketUpdateType.cancel, 6, pos 96, 4)
        ∷ (MarketUpdateType.add, 8, pos 1, 11)
        ∷ [])
unfolding empty_book add cancel MemPool.allocate MemPool.deallocate check_for_match match_loop
    best_opposite match_order remove_order add_order add_orders_at_price remove_orders_at_price
    get_next_priority find_target rest_order add_reason insert_before close_up_entry clear_links
    push_back close_up
session_updates = refl

-- A book with one order, a bid of client 1.
abbrev bid : Order
bid = record {
  ticker_id = 0;
  client_id = 1;
  client_order_id = 6;
  market_order_id = 1;
  side = Side.buy;
  price = pos 10;
  qty = 5;
  priority = 1;
  prev_order = some 0;
  next_order = some 0;
}

abbrev one_order : Book
one_order = record {
  ticker_id = 0;
  cid_oid_to_order = λ c o. if c == 1 && o == 6 then some 0 else none;
  orders_at_price_pool = record {
    capacity = 2;
    block = λ i.
        if i == 0
        then some (record {
          side = Side.buy;
          price = pos 10;
          first_order = some 0;
          prev_entry = some 0;
          next_entry = some 0;
        })
        else none;
    free = 1 ∷ [];
  };
  bids_by_price = some 0;
  asks_by_price = none;
  price_orders_at_price = λ s p. if side_eq Side.buy s && price_eq (pos 10) p then some 0 else none;
  order_pool = record {
    capacity = 2;
    block = λ i. if i == 0 then some bid else none;
    free = 1 ∷ [];
  };
  last_order_response = λ c o. none;
  next_market_order_id = 2;
  used_client_order_ids = λ c o. c == 1 && o == 6;
  emitted = [];
}

abbrev bids : List Level
bids = record { slot = 0; price = pos 10; queue = 0 ∷ [] } ∷ []

one_order-Rep : Rep one_order true bids []
one_order-Rep = record {
  orders_valid = record {
    distinct = (refl, tt);
    exact = λ i. ground arith;
    within = λ i h. ground (arith, h);
    conserved = refl;
  };
  levels_valid = record {
    distinct = (refl, tt);
    exact = λ i. ground arith;
    within = λ i h. ground (arith, h);
    conserved = refl;
  };
  this_side = record {
    best_first = refl;
    ring = (refl, refl);
    all_ok = (
      record {
        first = 0;
        head = refl;
        struct = refl;
        ring = (refl, refl);
        members = (
          record {
            order = record bid { prev_order = none; next_order = none };
            live = refl;
            side = refl;
            at_price = refl;
            client = omega arith;
          },
          tt,
        );
      },
      tt,
    );
    sorted = (tt, tt);
  };
  that_side = record { best_first = refl; ring = tt; all_ok = tt; sorted = tt };
  orders_distinct = (refl, tt);
  slots_distinct = (refl, tt);
  orders_counted = refl;
  slots_counted = refl;
  this_prices = λ p. refl;
  that_prices = λ p. refl;
  index = record {
    complete = λ i o m k.
        let same : record bid { prev_order = none; next_order = none } ≡ o = ground (arith, m, k) in
        let first : 0 ≡ i = ground (arith, m) in
        subst (λ (x : Order). one_order.cid_oid_to_order x.client_id x.client_order_id ≡ some i)
          same (ap some first);
    sound = λ c oid i k. (
      ground (arith, k),
      λ o e.
          let same : record bid { prev_order = none; next_order = none } ≡ o =
            ground (arith, k, e) in
          (
            sym (ap (λ (x : Order). x.client_id) same) ∙ ground (arith, k),
            sym (ap (λ (x : Order). x.client_order_id) same) ∙ ground (arith, k),
          ),
    );
  };
}

remove_order-Without_example :
    (c : Book) × (remove_order one_order 0 ≡ done c)
    × Without one_order true 0
        ([] ++ shrink (record { slot = 0; price = pos 10; queue = 0 ∷ [] }) [] [])
        []
        c
remove_order-Without_example =
    remove_order-Without one_order true [] (record { slot = 0; price = pos 10; queue = 0 ∷ [] }) []
      [] [] 0 [] one_order-Rep refl

abbrev seller : Taker
seller = record {
  ticker_id = 0;
  client_id = 2;
  side = Side.sell;
  client_order_id = 9;
  market_order_id = 2;
}

match_order_lem_example :
    (c : Book) × (match_order one_order seller 0 3 ≡ done (c, 0))
    × (c.emitted ≡ [] ++ fill_events seller bid 3)
    × Rep c true (after_fill (record { slot = 0; price = pos 10; queue = 0 ∷ [] }) [] [] 2) []
match_order_lem_example =
    match_order_lem one_order seller true (record { slot = 0; price = pos 10; queue = 0 ∷ [] }) []
      [] 0 [] bid 3 one_order-Rep refl refl

check_for_match-Matched_example :
    Matched one_order seller false (pos 9) 7 bids [] (check_for_match one_order seller (pos 9) 7)
check_for_match-Matched_example =
    check_for_match-Matched one_order seller false (pos 9) 7 bids [] refl one_order-Rep

check_for_match-conserves_example :
    Account one_order false (pos 9) 7 bids [] (check_for_match one_order seller (pos 9) 7)
check_for_match-conserves_example =
    check_for_match-conserves one_order seller false (pos 9) 7 bids [] refl one_order-Rep
