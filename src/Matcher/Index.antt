-- ===== src/Matcher/Index.antt =====
-- The index of orders by client and client order id, when an order leaves or comes.
use trade_system.Common.{
  ℕ, ◌≡◌, ◌≢◌, ap, ◌∙◌, sym, ◌==◌, true, false, Option, none, some, arith, List, ◌∷◌, ◌++◌, mem,
  ◌||◌, ◌&&◌, Bool-cases, inl, inr,
}
use trade_system.Intrusive.Laws.{bare_of}
use trade_system.Matcher.Book.{Order, order_node, update₂}
use trade_system.Matcher.Shape.{Orders, Index, mem-cut}

pub Index-drop :
    (cid : ℕ → ℕ → Option ℕ) (orders orders' : Orders) (xs : List ℕ) (i : ℕ) (ys : List ℕ)
    (o : Order)
    → Index cid orders (xs ++ i ∷ ys)
    → mem i (xs ++ ys) ≡ false
    → bare_of order_node orders i ≡ some o
    → ((j : ℕ) → i ≢ j → bare_of order_node orders' j ≡ bare_of order_node orders j)
    → Index (update₂ cid o.client_id o.client_order_id none) orders' (xs ++ ys)
Index-drop cid orders orders' xs i ys o h out e same = record {
  complete = λ j o' m k. kept j o' m (sym (same j (apart j m)) ∙ k);
  sound = λ c oid j k. found c oid j k;
}
  where
    apart : (j : ℕ) → mem j (xs ++ ys) ≡ true → i ≢ j
    apart j m a = ground (arith, out, m)

    own : cid o.client_id o.client_order_id ≡ some i
    own = h.complete i o (ground (arith, mem-cut i xs i ys)) e

    kept :
        (j : ℕ) (o' : Order)
        → mem j (xs ++ ys) ≡ true
        → bare_of order_node orders j ≡ some o'
        → update₂ cid o.client_id o.client_order_id none o'.client_id o'.client_order_id ≡ some j
    kept j o' m k =
        let theirs = h.complete j o' (ground (arith, mem-cut j xs i ys, m)) k in
        ground (arith, theirs, own, out, m)

    found :
        (c oid j : ℕ)
        → update₂ cid o.client_id o.client_order_id none c oid ≡ some j
        → (mem j (xs ++ ys) ≡ true)
          × ((o' : Order)
              → bare_of order_node orders' j ≡ some o'
              → (o'.client_id ≡ c) × (o'.client_order_id ≡ oid))
    found c oid j k =
        let before : cid c oid ≡ some j = ground (arith, k) in
        let (m, f) = h.sound c oid j before in
        let ne : i ≢ j = λ a.
          let keys = f o (ap (bare_of order_node orders) (sym a) ∙ e) in
          ground (arith, k, keys.0, keys.1) in
        (ground (arith, mem-cut j xs i ys, m, ne), λ o' k'. f o' (sym (same j ne) ∙ k'))

pub Index-add :
    (cid : ℕ → ℕ → Option ℕ) (orders orders' : Orders) (xs ys : List ℕ) (i : ℕ) (o : Order)
    → Index cid orders xs
    → mem i xs ≡ false
    → ((j : ℕ) → mem j ys ≡ (i == j || mem j xs))
    → cid o.client_id o.client_order_id ≡ none
    → bare_of order_node orders' i ≡ some o
    → ((j : ℕ) → i ≢ j → bare_of order_node orders' j ≡ bare_of order_node orders j)
    → Index (update₂ cid o.client_id o.client_order_id (some i)) orders' ys
Index-add cid orders orders' xs ys i o h new more free e same = record {
  complete = λ j o' m k. elim (Bool-cases (i == j)) [
    | inl a ↦ let keys : o ≡ o' = ground (arith, a, e, k) in ground (arith, a, keys)
    | inr a ↦
        let theirs =
          h.complete j o' (ground (arith, more j, m, a))
            (sym (same j (λ p. ground (arith, p, a))) ∙ k) in
        ground (arith, theirs, free)
  ];
  sound = λ c oid j k. elim (Bool-cases (o.client_id == c && o.client_order_id == oid)) [
    | inl t ↦
        let a : i ≡ j = ground (arith, k, t) in
        (
          ground (arith, more j, a),
          λ o' k'.
              let keys : o ≡ o' = ground (arith, a, e, k') in
              (ground (arith, t, keys), ground (arith, t, keys)),
        )
    | inr t ↦
        let (m, f) = h.sound c oid j (ground (arith, k, t)) in
        (
          ground (arith, more j, m),
          λ o' k'. f o' (sym (same j (λ a. ground (arith, a, new, m))) ∙ k'),
        )
  ];
}
