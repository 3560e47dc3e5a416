-- ===== src/Matcher/MatchOrder.antt =====
-- `match`: one fill against the best resting order.
use trade_system.Common.{
  ℕ, arith, ◌≢◌, false, ◌≡◌, ◌∙◌, refl, Bool, some, done, List, [], ◌∷◌, ◌++◌, append_assoc, min,
  ◌-◌, ◌==◌, if◌then◌else◌, Bool-cases, inl, inr,
}
use trade_system.Messages.{MarketUpdate}
use trade_system.Matcher.Book.{
  Book, Order, response, market, put_order, order_node, emit_response, emit_market,
}
use trade_system.Matcher.Fill.{
  Taker, taker_fill, maker_fill, trade_update, fill_order, match_order, gone_update, modify_update,
}
use trade_system.Intrusive.Laws.{bare_of}
use trade_system.Matcher.Shape.{Level, Rep}
use trade_system.Matcher.Spec.{fill_events}
use trade_system.Matcher.MatchStep.{Rep-record, requantify-Rep}
use trade_system.Matcher.Removal.{shrink, remove_order-Without}

-- The levels of the other side after a fill that leaves `left` of the first order.
abbrev pub after_fill : Level → List ℕ → List Level → ℕ → List Level
after_fill l q ls left = if left == 0 then shrink l q ls else l ∷ ls

module _ (b : Book) (t : Taker) (buy : Bool) (l : Level) (ls ms : List Level) (i : ℕ) (q : List ℕ)
    (o : Order) (leaves : ℕ) (r : Rep b buy (l ∷ ls) ms) (first : l.queue ≡ i ∷ q)
    (live : b.order_pool.block i ≡ some o) where
  abbrev filled : MarketUpdate → Book
  filled u = emit_market (fill_order b t i o leaves) u

  filled-Rep : (u : MarketUpdate) → Rep (filled u) buy (l ∷ ls) ms
  unfolding fill_order emit_response emit_market
  filled-Rep u =
      Rep-record (put_order b i (record o { qty = o.qty - min leaves o.qty })) buy (l ∷ ls) ms _ _ _
        _ (requantify-Rep b buy (l ∷ ls) ms i o (o.qty - min leaves o.qty) r live)

  emitted-filled :
      (u : MarketUpdate)
      → (filled u).emitted
        ≡ b.emitted
          ++ response (taker_fill t o (min leaves o.qty) (leaves - min leaves o.qty))
            ∷ response (maker_fill t o (min leaves o.qty) (o.qty - min leaves o.qty))
            ∷ market (trade_update t o (min leaves o.qty))
            ∷ market u
            ∷ []
  unfolding fill_order emit_response emit_market
  emitted-filled u = simp append_assoc

  -- The contents of the other slots, and of this one if it is still in use.
  pub record Kept (c : Book) : Type 0 where
    pub others :
        (j : ℕ) → i ≢ j → bare_of order_node c.order_pool j ≡ bare_of order_node b.order_pool j
    pub itself :
        (o.qty - min leaves o.qty == 0) ≡ false
        → bare_of order_node c.order_pool i
          ≡ some (record (order_node.bare o) { qty = o.qty - min leaves o.qty })

  filled-others :
      (u : MarketUpdate) (j : ℕ)
      → i ≢ j
      → bare_of order_node (filled u).order_pool j ≡ bare_of order_node b.order_pool j
  unfolding fill_order emit_response emit_market
  filled-others u j ne = ground arith

  filled_itself :
      (u : MarketUpdate)
      → bare_of order_node (filled u).order_pool i
        ≡ some (record (order_node.bare o) { qty = o.qty - min leaves o.qty })
  unfolding fill_order emit_response emit_market
  filled_itself u = ground arith

  pub match_order_step :
      (c : Book) × (match_order b t i leaves ≡ done (c, leaves - min leaves o.qty))
      × (c.emitted ≡ b.emitted ++ fill_events t o leaves)
      × Rep c buy (after_fill l q ls (o.qty - min leaves o.qty)) ms
      × Kept c
  unfolding match_order
  match_order_step = elim (Bool-cases (o.qty - min leaves o.qty == 0)) [
    | inl e ↦
        let (c, ran, w) =
          remove_order-Without (filled (gone_update t o)) buy [] l ls ms [] i q
            (filled-Rep (gone_update t o)) first in
        let kept : Kept c = record {
          others = λ j ne. w.others j ne ∙ filled-others (gone_update t o) j ne;
          itself = λ h. absurd (ground (arith, e, h));
        } in
        rw (e) (
          c,
          rw (live, e, ran) refl,
          w.quiet.emitted ∙ emitted-filled (gone_update t o),
          w.rep,
          kept,
        )
    | inr e ↦
        let u = modify_update t o (o.qty - min leaves o.qty) in
        let kept : Kept (filled u) = record {
          others = filled-others u;
          itself = λ h. filled_itself u;
        } in
        rw (e) (filled u, rw (live, e) refl, emitted-filled u, filled-Rep u, kept)
  ]

  -- `match` against the first order of the best level: it never faults, sends the four messages of
  -- the fill, the two responses to the clients of the two orders with what each has left, and leaves a valid book, in which the order is gone if it was used up and otherwise
  -- stands where it stood.
  pub match_order_lem :
      (c : Book) × (match_order b t i leaves ≡ done (c, leaves - min leaves o.qty))
      × (c.emitted ≡ b.emitted ++ fill_events t o leaves)
      × Rep c buy (after_fill l q ls (o.qty - min leaves o.qty)) ms
  match_order_lem = let (c, ran, sent, rep, kept) = match_order_step in (c, ran, sent, rep)
