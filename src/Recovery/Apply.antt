-- ===== src/Recovery/Apply.antt =====
-- trading/market_data/market_recovery.h: `apply`, the effect of one update on the orders of its
-- ticker, and `flatten`.
use trade_system.Common.{
  ℕ, zero, suc, ◌==◌, ◌&&◌, ◌||◌, not, ltb, if◌then◌else◌, Bool, List, [], ◌∷◌, ◌++◌, Option, none,
  some, update,
}
use trade_system.Common.Int.{ℤ, pos, ltb_ℤ}
use trade_system.Types.{
  Side, is_buy, is_sell, side_eq, max_tickers, max_order_ids, price_invalid, qty_invalid,
  priority_invalid,
}
use trade_system.Messages.{MarketUpdate, MarketUpdateType}
use trade_system.Matcher.Book.{price_eq}

-- `std::map<OrderId, Event>`: its entries by order id, each an event.
abbrev pub Orders : Type 0
Orders = List MarketUpdate

-- `State`
abbrev pub State : Type 0
State = ℕ → Orders

abbrev pub find_order : Orders → ℕ → Option MarketUpdate
find_order [] id = none
find_order (o ∷ os) id = if o.order_id == id then some o else find_order os id

abbrev pub emplace_order : Orders → MarketUpdate → Orders
emplace_order [] e = e ∷ []
emplace_order (o ∷ os) e = if ltb e.order_id o.order_id then e ∷ o ∷ os else o ∷ emplace_order os e

abbrev pub erase_order : Orders → ℕ → Orders
erase_order [] id = []
erase_order (o ∷ os) id = if o.order_id == id then os else o ∷ erase_order os id

abbrev pub set_qty : Orders → ℕ → ℕ → Orders
set_qty [] id qty = []
set_qty (o ∷ os) id qty =
    if o.order_id == id then record o { qty = qty } ∷ os else o ∷ set_qty os id qty

abbrev pub is_tradable_side : Side → Bool
is_tradable_side s = is_buy s || is_sell s

abbrev pub is_valid_price : ℤ → Bool
is_valid_price p = ltb_ℤ (pos 0) p && not (price_eq p price_invalid)

abbrev pub is_valid_qty : ℕ → Bool
is_valid_qty q = ltb 0 q && not (q == qty_invalid)

-- The part of `apply` for an update of one order; `none` for `false`.
abbrev pub apply_add : Orders → MarketUpdate → Option Orders
apply_add os e = elim (find_order os e.order_id) [
  | some _ ↦ none
  | none ↦
      if is_valid_price e.price
        && is_valid_qty e.qty
        && not (e.priority == 0)
        && not (e.priority == priority_invalid)
        && is_tradable_side e.side
      then some (emplace_order os e)
      else none
]

-- A cancel or a modification names an order of the same side and price.
abbrev pub apply_change : Orders → MarketUpdate → Option Orders → Option Orders
apply_change os e changed = elim (find_order os e.order_id) [
  | none ↦ none
  | some o ↦ if side_eq o.side e.side && price_eq o.price e.price then changed else none
]

abbrev pub has_order_id : MarketUpdate → Bool
has_order_id e = not (e.order_id == 0) && ltb e.order_id max_order_ids

abbrev pub apply_order : Orders → MarketUpdate → Option Orders
apply_order os e = elim e.type [
  | MarketUpdateType.clear ↦ some []
  | MarketUpdateType.trade ↦
      if is_valid_qty e.qty && is_valid_price e.price && is_tradable_side e.side
      then some os
      else none
  | MarketUpdateType.add ↦ if has_order_id e then apply_add os e else none
  | MarketUpdateType.cancel ↦
      if has_order_id e then apply_change os e (some (erase_order os e.order_id)) else none
  | MarketUpdateType.modify ↦
      if has_order_id e
      then apply_change os e
          (if is_valid_qty e.qty then some (set_qty os e.order_id e.qty) else none)
      else none
  | _ ↦ none
]

-- `apply`
unfoldable pub apply : State → MarketUpdate → Option State
apply s e =
    if ltb e.ticker_id max_tickers
    then elim (apply_order (s e.ticker_id) e) [
      | none ↦ none
      | some os ↦ some (update s e.ticker_id os)
    ]
    else none

-- The books of the tickers from `t` on, `n` of them.
abbrev pub flatten_from : ℕ → ℕ → State → List MarketUpdate
flatten_from zero t s = []
flatten_from (suc n) t s = s t ++ flatten_from n (suc t) s

-- `flatten`
abbrev pub flatten : State → List MarketUpdate
flatten s = flatten_from max_tickers 0 s
