-- ===== src/MarketBook/Mirror.antt =====
-- The client's book seen as one of the exchange: an order of market id `n` is order `n` of client 0.
use trade_system.Common.{
  ℕ, ◌≡◌, refl, Bool, true, false, ◌==◌, if◌then◌else◌, [], Option, none, Outcome,
}
use trade_system.Intrusive.Mapped.{map_pool, map_done, Keeps}
use trade_system.Matcher.Book
use trade_system.Matcher.Book.{Book, Order, OrdersAtPrice}
use trade_system.Matcher
use trade_system.MarketBook
use trade_system.MarketBook.{MarketOrder, MarketOrdersAtPrice, MarketOrderBook, find_price}

abbrev pub as_order : MarketOrder → Order
as_order o = record {
  ticker_id = 0;
  client_id = 0;
  client_order_id = o.order_id;
  market_order_id = o.order_id;
  side = o.side;
  price = o.price;
  qty = o.qty;
  priority = o.priority;
  prev_order = o.prev_order;
  next_order = o.next_order;
}

abbrev pub as_level : MarketOrdersAtPrice → OrdersAtPrice
as_level l = record {
  side = l.side;
  price = l.price;
  first_order = l.first_mkt_order;
  prev_entry = l.prev_entry;
  next_entry = l.next_entry;
}

abbrev pub as_book : MarketOrderBook → Book
as_book b = record {
  ticker_id = b.ticker_id;
  cid_oid_to_order = λ c i. if 0 == c then b.oid_to_order i else none;
  orders_at_price_pool = map_pool as_level b.orders_at_price_pool;
  bids_by_price = b.bids_by_price;
  asks_by_price = b.asks_by_price;
  price_orders_at_price = find_price b.price_orders_at_price;
  order_pool = map_pool as_order b.order_pool;
  last_order_response = λ c i. none;
  next_market_order_id = 1;
  used_client_order_ids = λ c i. false;
  emitted = [];
}

abbrev pub order_keeps : Keeps MarketBook.order_node Book.order_node as_order
order_keeps = record {
  next = λ o. refl;
  prev = λ o. refl;
  with_next = λ o v. refl;
  with_prev = λ o v. refl;
}

abbrev pub level_keeps : Keeps MarketBook.level_node Book.level_node as_level
level_keeps = record {
  next = λ o. refl;
  prev = λ o. refl;
  with_next = λ o v. refl;
  with_prev = λ o v. refl;
}

-- A test that picks one of two results.
pub pick :
    {A B : Type 0} (φ : A → B) (t : Bool) (x' y' : Outcome B) (x y : Outcome A)
    → x' ≡ map_done φ x
    → y' ≡ map_done φ y
    → (if t then x' else y') ≡ map_done φ (if t then x else y)
pick φ true x' y' x y e f = e
pick φ false x' y' x y e f = f

pub set_best-as_book :
    (b : MarketOrderBook) (buy : Bool) (p : Option ℕ)
    → Matcher.Levels.set_best (as_book b) buy p ≡ as_book (MarketBook.Levels.set_best b buy p)
set_best-as_book b true p = refl
set_best-as_book b false p = refl
