-- ===== src/Intrusive/Leave.antt =====
-- A node leaves its ring and its slot goes back to the pool.
use trade_system.Common.{
  ℕ, suc, ◌≡◌, ◌≢◌, refl, ap, ◌∙◌, sym, subst, true, false, some, Outcome, done, arith, List, [],
  ◌∷◌, ◌++◌, mem, mem-append, Distinct, Distinct-swap,
}
use trade_system.MemPool
use trade_system.MemPool.{MemPool}
use trade_system.MemPool.Valid.{IsValid, Returned, in_use, used, deallocate-Returned}
use trade_system.Ring.{IsRing, IsRing-rotate, last_of, mem-last_of, Chain-prev}
use trade_system.Ring.Change.{IsRing-congr}
use trade_system.Intrusive.{Node, close_up, close_up_entry, clear_links, get_next, get_prev}
use trade_system.Intrusive.Laws.{
  links, bare_of, Relinked, Relinked-trans, Relinked-refl, Relinked-live, Relinked-IsValid,
  Relinked-used, get_prev_lem, get_next_lem, next-live,
}
use trade_system.Intrusive.Unlink.{
  Removed, close_up-Removed, close_up_entry-Removed, clear_links_lem,
}

module _ {T : Type 0} (n : Node T) where
  -- `i` has left the ring `us ++ i ∷ ws` and the pool; nothing else has changed.
  pub record Left (p q : MemPool T) (us : List ℕ) (i : ℕ) (ws : List ℕ) : Type 0 where
    pub valid : IsValid q
    pub one_less : suc (used q) ≡ used p
    pub ring : IsRing (links n q) (us ++ ws)
    pub elsewhere :
        (j : ℕ)
        → mem j (us ++ i ∷ ws) ≡ false
        → ((links n q).next j ≡ (links n p).next j) × ((links n q).prev j ≡ (links n p).prev j)
    pub others : (j : ℕ) → i ≢ j → bare_of n q j ≡ bare_of n p j

  -- Releasing a slot that no ring goes through.
  release_lem :
      (p p' q : MemPool T) (us : List ℕ) (i : ℕ) (ws : List ℕ)
      → Relinked n p p'
      → IsRing (links n p') (us ++ ws)
      → mem i (us ++ ws) ≡ false
      → ((j : ℕ)
          → mem j (us ++ i ∷ ws) ≡ false
          → ((links n p').next j ≡ (links n p).next j) × ((links n p').prev j ≡ (links n p).prev j))
      → Returned p' i q
      → Left p q us i ws
  release_lem p p' q us i ws r ring out same (valid, _, _, block, less) = record {
    valid = valid;
    one_less = less ∙ Relinked-used n r;
    ring =
        IsRing-congr (links n p') (links n q) (us ++ ws)
          (λ j m. (rw block (ground (arith, out)), rw block (ground (arith, out)))) ring;
    elsewhere = λ j m. rw block (ground (arith, same j m, mem-append j us (i ∷ ws)));
    others = λ j ne. rw block (ground (arith, r.bare j));
  }

  -- What the code does to a node that is not alone in its ring: it closes the gap by `close`, reads
  -- the next node, clears its own pointers and releases the slot.
  pub record Leaves (close : MemPool T → ℕ → Outcome (MemPool T)) (p : MemPool T) (us : List ℕ)
      (i : ℕ) (ws : List ℕ) (after : ℕ) : Type 0 where
    pub closed : MemPool T
    pub cleared : MemPool T
    pub released : MemPool T
    pub close_done : close p i ≡ done closed
    pub clear_done : clear_links n closed i ≡ done cleared
    pub release_done : MemPool.deallocate cleared i ≡ done released
    pub closed_relinked : Relinked n p closed
    pub next_before : get_next n p i ≡ done (some after)
    pub next_after : get_next n closed i ≡ done (some after)
    pub before : ℕ
    pub prev_before : get_prev n p i ≡ done (some before)
    pub before-ne : before ≢ i
    pub left : Left p released us i ws

  Removed-Leaves :
      (close : MemPool T → ℕ → Outcome (MemPool T)) (p p₁ : MemPool T) (us : List ℕ) (i : ℕ)
      (ws : List ℕ) (y : ℕ) (ys : List ℕ)
      → IsValid p
      → ws ++ us ≡ y ∷ ys
      → IsRing (links n p) (i ∷ y ∷ ys)
      → Distinct (us ++ i ∷ ws)
      → close p i ≡ done p₁
      → Removed n p p₁ i y ys
      → Leaves close p us i ws y
  Removed-Leaves close p p₁ us i ws y ys v e ring d done₁ r =
      let gone : mem i (ws ++ us) ≡ false = (Distinct-swap us (i ∷ ws) d).0 in
      let live = next-live n p i y ring.0 in
      let (p₂, done₂, w) = clear_links_lem n p₁ i (Relinked-live n r.relinked i ∙ live) in
      let relinked = Relinked-trans n r.relinked w.relinked in
      let (q, done₃, back) =
        deallocate-Returned p₂ i (Relinked-IsValid n relinked v)
          (Relinked-live n relinked i ∙ live) in
      record {
        closed = p₁;
        cleared = p₂;
        released = q;
        close_done = done₁;
        clear_done = done₂;
        release_done = done₃;
        closed_relinked = r.relinked;
        next_before = get_next_lem n p i y ring.0;
        next_after = get_next_lem n p₁ i y r.itself.0;
        before = last_of y ys;
        prev_before = get_prev_lem n p i (last_of y ys) (Chain-prev (links n p) y ys i ring.2);
        before-ne = λ h. ground (arith, gone, ap (mem i) e, mem-last_of y ys);
        left =
            release_lem p p₂ q us i ws relinked
              (IsRing-rotate (links n p₂) ws us (
                IsRing-congr (links n p₁) (links n p₂) (ws ++ us)
                  (λ j m. (ground (arith, w.next j, gone), ground (arith, w.prev j, gone)))
                  (subst (IsRing (links n p₁)) (sym e) r.ring)))
              (ground (arith, gone, mem-append i ws us, mem-append i us ws))
              (λ j m. (
                ground (
                  arith,
                  w.next j,
                  r.elsewhere j,
                  ap (mem j) e,
                  mem-append j ws us,
                  mem-append j us (i ∷ ws),
                  m,
                ),
                ground (
                  arith,
                  w.prev j,
                  r.elsewhere j,
                  ap (mem j) e,
                  mem-append j ws us,
                  mem-append j us (i ∷ ws),
                  m,
                ),
              ))
              back;
      }

  rotated :
      (p : MemPool T) (us : List ℕ) (i : ℕ) (ws : List ℕ) {y : ℕ} {ys : List ℕ}
      → ws ++ us ≡ y ∷ ys
      → IsRing (links n p) (us ++ i ∷ ws)
      → IsRing (links n p) (i ∷ y ∷ ys)
  rotated p us i ws e r =
      subst (λ l. IsRing (links n p) (i ∷ l)) e (IsRing-rotate (links n p) us (i ∷ ws) r)

  rotated-Distinct :
      (us : List ℕ) (i : ℕ) (ws : List ℕ) {y : ℕ} {ys : List ℕ}
      → ws ++ us ≡ y ∷ ys
      → Distinct (us ++ i ∷ ws)
      → Distinct (i ∷ y ∷ ys)
  rotated-Distinct us i ws e d = subst (λ l. Distinct (i ∷ l)) e (Distinct-swap us (i ∷ ws) d)

  -- A node with a neighbour leaves its ring, whichever node it is.
  pub close_up-Leaves :
      (p : MemPool T) (us : List ℕ) (i : ℕ) (ws : List ℕ) (y : ℕ) (ys : List ℕ)
      → IsValid p
      → ws ++ us ≡ y ∷ ys
      → IsRing (links n p) (us ++ i ∷ ws)
      → Distinct (us ++ i ∷ ws)
      → Leaves (close_up n) p us i ws y
  close_up-Leaves p us i ws y ys v e ring d =
      let ring' = rotated p us i ws e ring in
      let (p₁, done₁, r) = close_up-Removed n p i y ys ring' (rotated-Distinct us i ws e d) in
      Removed-Leaves (close_up n) p p₁ us i ws y ys v e ring' d done₁ r

  pub close_up_entry-Leaves :
      (p : MemPool T) (us : List ℕ) (i : ℕ) (ws : List ℕ) (y : ℕ) (ys : List ℕ)
      → IsValid p
      → ws ++ us ≡ y ∷ ys
      → IsRing (links n p) (us ++ i ∷ ws)
      → Distinct (us ++ i ∷ ws)
      → Leaves (close_up_entry n) p us i ws y
  close_up_entry-Leaves p us i ws y ys v e ring d =
      let ring' = rotated p us i ws e ring in
      let (p₁, done₁, r) = close_up_entry-Removed n p i y ys ring' (rotated-Distinct us i ws e d) in
      Removed-Leaves (close_up_entry n) p p₁ us i ws y ys v e ring' d done₁ r

  -- A node alone in its ring is only released.
  pub alone-Left :
      (p : MemPool T) (i : ℕ)
      → IsValid p
      → in_use (p.block i) ≡ true
      → (q : MemPool T) × (MemPool.deallocate p i ≡ done q) × Left p q [] i []
  alone-Left p i v live =
      let (q, e, back) = deallocate-Returned p i v live in
      (q, e, release_lem p p q [] i [] (Relinked-refl n p) tt refl (λ j m. (refl, refl)) back)
