-- ===== src/Matcher/Book.antt =====
-- exchange/matcher/me_order.h and the state of exchange/matcher/me_order_book.h.
-- A pointer to an order or a price level is `some` slot of the pool that owns it, and `nullptr` is
-- `none`. Following `none`, or a slot that is not in use, is a `fault`.
use trade_system.Common.{
  ℕ, Bool, true, false, ◌&&◌, ◌==◌, ltb, if◌then◌else◌, List, [], ◌∷◌, ◌++◌, Option, none, some,
  Outcome, deref, refl,
}
use trade_system.Common.Int.{ℤ, pos_part, neg_part}
use trade_system.Types.{Side, side_eq, max_num_clients, max_order_ids, max_price_levels}
use trade_system.Messages.{ClientResponse, ClientResponseType, MarketUpdate}
use trade_system.Intrusive.{Node}
use trade_system.MemPool
use trade_system.MemPool.{MemPool}

-- `MEOrder`
pub record Order : Type 0 where
  pub ticker_id : ℕ
  pub client_id : ℕ
  pub client_order_id : ℕ
  pub market_order_id : ℕ
  pub side : Side
  pub price : ℤ
  pub qty : ℕ
  pub priority : ℕ
  pub prev_order : Option ℕ
  pub next_order : Option ℕ

-- `MEOrdersAtPrice`
pub record OrdersAtPrice : Type 0 where
  pub side : Side
  pub price : ℤ
  pub first_order : Option ℕ
  pub prev_entry : Option ℕ
  pub next_entry : Option ℕ

-- The pointers of the two structs.
abbrev pub order_node : Node Order
order_node = record {
  next = λ o. o.next_order;
  prev = λ o. o.prev_order;
  with_next = λ o v. record o { next_order = v };
  with_prev = λ o v. record o { prev_order = v };
  bare = λ o. record o { prev_order = none; next_order = none };
  next-with_next = λ o v. refl;
  prev-with_next = λ o v. refl;
  bare-with_next = λ o v. refl;
  next-with_prev = λ o v. refl;
  prev-with_prev = λ o v. refl;
  bare-with_prev = λ o v. refl;
}

abbrev pub level_node : Node OrdersAtPrice
level_node = record {
  next = λ l. l.next_entry;
  prev = λ l. l.prev_entry;
  with_next = λ l v. record l { next_entry = v };
  with_prev = λ l v. record l { prev_entry = v };
  bare = λ l. record l { prev_entry = none; next_entry = none };
  next-with_next = λ l v. refl;
  prev-with_next = λ l v. refl;
  bare-with_next = λ l v. refl;
  next-with_prev = λ l v. refl;
  prev-with_prev = λ l v. refl;
  bare-with_prev = λ l v. refl;
}

-- What the book hands to its two sinks, in the order of the calls.
pub data Event : Type 0 where
  response : ClientResponse → Event
  market : MarketUpdate → Event

-- `MEOrderBook`. The hash maps are functions of their keys; `emitted` collects what went out.
pub record Book : Type 0 where
  pub ticker_id : ℕ
  pub cid_oid_to_order : ℕ → ℕ → Option ℕ
  pub orders_at_price_pool : MemPool OrdersAtPrice
  pub bids_by_price : Option ℕ
  pub asks_by_price : Option ℕ
  pub price_orders_at_price : Side → ℤ → Option ℕ
  pub order_pool : MemPool Order
  pub last_order_response : ℕ → ℕ → Option ClientResponse
  pub next_market_order_id : ℕ
  pub used_client_order_ids : ℕ → ℕ → Bool
  pub emitted : List Event

-- The constructor, for pools of a given size.
unfoldable pub empty_book : ℕ → ℕ → ℕ → Book
unfolding MemPool.init
empty_book levels orders ticker = record {
  ticker_id = ticker;
  cid_oid_to_order = λ c o. none;
  orders_at_price_pool = MemPool.init levels;
  bids_by_price = none;
  asks_by_price = none;
  price_orders_at_price = λ s p. none;
  order_pool = MemPool.init orders;
  last_order_response = λ c o. none;
  next_market_order_id = 1;
  used_client_order_ids = λ c o. false;
  emitted = [];
}

-- `MEOrderBook::MEOrderBook`
unfoldable pub new_book : ℕ → Book
unfolding empty_book
new_book ticker = empty_book max_price_levels max_order_ids ticker

-- `m[c][o] = v` on a map of two keys.
abbrev pub update₂ {ℓ} : {V : Type ℓ} → (ℕ → ℕ → V) → ℕ → ℕ → V → ℕ → ℕ → V
update₂ m c o v i j = if c == i && o == j then v else m i j

-- `a == b` on prices.
abbrev pub price_eq : ℤ → ℤ → Bool
price_eq a b = pos_part a == pos_part b && neg_part a == neg_part b

abbrev pub update_price : (Side → ℤ → Option ℕ) → Side → ℤ → Option ℕ → Side → ℤ → Option ℕ
update_price m side price v s p = if side_eq side s && price_eq price p then v else m s p

-- `*p` for a pointer to an order, and to a price level.
abbrev pub order_at : Book → ℕ → Outcome Order
order_at b i = deref (b.order_pool.block i)

abbrev pub level_at : Book → ℕ → Outcome OrdersAtPrice
level_at b i = deref (b.orders_at_price_pool.block i)

-- `*p = o`, for a pointer that has been followed.
abbrev pub put_order : Book → ℕ → Order → Book
put_order b i o = record b { order_pool = MemPool.store b.order_pool i o }

abbrev pub put_level : Book → ℕ → OrdersAtPrice → Book
put_level b i l = record b { orders_at_price_pool = MemPool.store b.orders_at_price_pool i l }

abbrev pub with_orders : Book → MemPool Order → Book
with_orders b p = record b { order_pool = p }

abbrev pub with_levels : Book → MemPool OrdersAtPrice → Book
with_levels b p = record b { orders_at_price_pool = p }

-- `getOrdersAtPrice`
abbrev pub get_orders_at_price : Book → ℤ → Side → Option ℕ
get_orders_at_price b price side = b.price_orders_at_price side price

-- The types of response that `emitResponse` remembers for a later query.
abbrev pub is_order_event : ClientResponseType → Bool
is_order_event ClientResponseType.rejected = false
is_order_event ClientResponseType.cancel_rejected = false
is_order_event ClientResponseType.state = false
is_order_event _ = true

-- `emitResponse`
unfoldable pub emit_response : Book → ClientResponse → Book
emit_response b r = record b {
  last_order_response =
      if ltb r.client_id max_num_clients && is_order_event r.type
      then update₂ b.last_order_response r.client_id r.client_order_id (some r)
      else b.last_order_response;
  emitted = b.emitted ++ (response r ∷ []);
}

-- `emitMarket`
unfoldable pub emit_market : Book → MarketUpdate → Book
emit_market b u = record b { emitted = b.emitted ++ (market u ∷ []) }
