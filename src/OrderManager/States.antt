-- ===== src/OrderManager/States.antt =====
-- The life of a managed order as steps, and what the operations may do to it.
use trade_system.Common.{ℕ, ◌≡◌, refl, Bool, List, [], length, inl, inr, ◌⊎◌, if_both}
use trade_system.Common.Int.{ℤ}
use trade_system.Types.{Side, price_invalid}
use trade_system.Messages.{ClientRequest}
use trade_system.Matcher.Book.{price_eq}
use trade_system.OrderManager.{OrderState, ManagedOrder, new_order, cancel_order, move_order}

-- The steps that a request of the strategy may take.
pub data Requested : OrderState → OrderState → Type 0 where
  submit_first : Requested OrderState.invalid OrderState.pending_new
  submit_again : Requested OrderState.dead OrderState.pending_new
  cancel : Requested OrderState.live OrderState.pending_cancel

-- What `moveOrder` comes to, for an order `o` and the next number `id`.
abbrev pub Moved : ManagedOrder → ℕ → ManagedOrder × ℕ × List ClientRequest → Type 0
Moved o id m =
    ((m.0 ≡ o) × (m.1 ≡ id) × (m.2 ≡ []))
    ⊎ (Requested o.order_state m.0.order_state × (length m.2 ≡ 1))

-- `moveOrder` sends at most one request. If it sends none, the order and the next number stay as
-- they are; if it sends one, the order takes a step of a strategy: an order that is not in the
-- market is submitted, one that is live is cancelled. So nothing is sent while a request is under
-- way.
pub move_order-Moved :
    (send : ClientRequest → Bool) (client id : ℕ) (o : ManagedOrder) (ticker : ℕ) (price : ℤ)
    (side : Side) (qty : ℕ)
    → Moved o id (move_order send client id o ticker price side qty)
unfolding move_order new_order cancel_order
move_order-Moved send client id o ticker price side qty = go o.order_state
  where
    go :
        (s : OrderState)
        → Moved
            (record o { order_state = s })
            id
            (move_order send client id (record o { order_state = s }) ticker price side qty)
    go OrderState.live =
        if_both (Moved (record o { order_state = OrderState.live }) id) (price_eq o.price price)
          (inl (refl, refl, refl))
          (if_both
            (λ (r : ManagedOrder × List ClientRequest).
              Moved (record o { order_state = OrderState.live }) id (r.0, id, r.1))
            (send _) (inr (Requested.cancel, refl)) (inl (refl, refl, refl)))
    go OrderState.pending_new = inl (refl, refl, refl)
    go OrderState.pending_cancel = inl (refl, refl, refl)
    go OrderState.invalid =
        if_both (Moved (record o { order_state = OrderState.invalid }) id)
          (price_eq price price_invalid) (inl (refl, refl, refl))
          (if_both (Moved (record o { order_state = OrderState.invalid }) id) (send _)
            (inr (Requested.submit_first, refl)) (inl (refl, refl, refl)))
    go OrderState.dead =
        if_both (Moved (record o { order_state = OrderState.dead }) id)
          (price_eq price price_invalid) (inl (refl, refl, refl))
          (if_both (Moved (record o { order_state = OrderState.dead }) id) (send _)
            (inr (Requested.submit_again, refl)) (inl (refl, refl, refl)))
