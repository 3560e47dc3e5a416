-- ===== src/Intrusive/Unlink.antt =====
-- What `close_up` and `clear_links` do to a ring of several: the node leaves it.
use trade_system.Common.{
  ℕ, ◌≡◌, ◌≢◌, ◌∙◌, true, false, none, some, done, arith, update, List, ◌∷◌, mem, Distinct,
}
use trade_system.MemPool.{MemPool}
use trade_system.MemPool.Valid.{in_use}
use trade_system.Ring.{IsRing, last_of, Chain-prev, Chain-next, mem-last_of}
use trade_system.Ring.Change.{IsRing-remove}
use trade_system.Intrusive.{Node, close_up, close_up_entry, clear_links}
use trade_system.Intrusive.Laws.{
  links, Relinked, Relinked-trans, Relinked-live, Writes, set_next_lem, set_prev_lem, get_prev_lem,
  get_next_lem, next-live, prev-live,
}

module _ {T : Type 0} (n : Node T) where
  -- `i` stands between `before` and `after`, which may be one node.
  close_up_lem :
      (p : MemPool T) (i before after : ℕ)
      → (links n p).prev i ≡ some before
      → (links n p).next i ≡ some after
      → (links n p).next before ≡ some i
      → (links n p).prev after ≡ some i
      → (q : MemPool T) × (close_up n p i ≡ done q)
        × Writes n p q
            (update (links n p).next before (some after))
            (update (links n p).prev after (some before))
  unfolding close_up
  close_up_lem p i before after h k u v =
      let (p₁, e₁, w₁) = set_next_lem n p before (some after) (next-live n p before i u) in
      let (q, e, w) =
        set_prev_lem n p₁ after (some before)
          (Relinked-live n w₁.relinked after ∙ prev-live n p after i v) in
      (
        q,
        rw (get_prev_lem n p i before h, get_next_lem n p i after k, e₁) e,
        record {
          relinked = Relinked-trans n w₁.relinked w.relinked;
          next = λ j. w.next j ∙ w₁.next j;
          prev = λ j. ground (arith, w.prev j, w₁.prev j);
        },
      )

  close_up_entry_lem :
      (p : MemPool T) (i before after : ℕ)
      → (links n p).prev i ≡ some before
      → (links n p).next i ≡ some after
      → (links n p).next before ≡ some i
      → (links n p).prev after ≡ some i
      → before ≢ i
      → (q : MemPool T) × (close_up_entry n p i ≡ done q)
        × Writes n p q
            (update (links n p).next before (some after))
            (update (links n p).prev after (some before))
  unfolding close_up_entry
  close_up_entry_lem p i before after h k u v ne =
      let (p₁, e₁, w₁) = set_next_lem n p before (some after) (next-live n p before i u) in
      let next₁ : (links n p₁).next i ≡ some after = ground (arith, w₁.next i, k) in
      let (q, e, w) =
        set_prev_lem n p₁ after (some before)
          (Relinked-live n w₁.relinked after ∙ prev-live n p after i v) in
      (
        q,
        rw
            (
              get_prev_lem n p i before h,
              get_next_lem n p i after k,
              e₁,
              get_next_lem n p₁ i after next₁,
              get_prev_lem n p₁ i before (w₁.prev i ∙ h),
            )
            e,
        record {
          relinked = Relinked-trans n w₁.relinked w.relinked;
          next = λ j. w.next j ∙ w₁.next j;
          prev = λ j. ground (arith, w.prev j, w₁.prev j);
        },
      )

  pub clear_links_lem :
      (p : MemPool T) (i : ℕ)
      → in_use (p.block i) ≡ true
      → (q : MemPool T) × (clear_links n p i ≡ done q)
        × Writes n p q (update (links n p).next i none) (update (links n p).prev i none)
  unfolding clear_links
  clear_links_lem p i live =
      let (p₁, e₁, w₁) = set_next_lem n p i none live in
      let (q, e, w) = set_prev_lem n p₁ i none (Relinked-live n w₁.relinked i ∙ live) in
      (
        q,
        rw e₁ e,
        record {
          relinked = Relinked-trans n w₁.relinked w.relinked;
          next = λ j. w.next j ∙ w₁.next j;
          prev = λ j. ground (arith, w.prev j, w₁.prev j);
        },
      )

  -- The ring without its first node, and nothing else relinked.
  pub record Removed (p q : MemPool T) (i y : ℕ) (ys : List ℕ) : Type 0 where
    pub relinked : Relinked n p q
    pub ring : IsRing (links n q) (y ∷ ys)
    pub elsewhere :
        (j : ℕ)
        → mem j (i ∷ y ∷ ys) ≡ false
        → ((links n q).next j ≡ (links n p).next j) × ((links n q).prev j ≡ (links n p).prev j)
    -- The node itself keeps its pointers for now.
    pub itself : ((links n q).next i ≡ some y) × ((links n q).prev i ≡ some (last_of y ys))

  Writes-Removed :
      (p q : MemPool T) (i y : ℕ) (ys : List ℕ)
      → IsRing (links n p) (i ∷ y ∷ ys)
      → Distinct (i ∷ y ∷ ys)
      → Writes n p q
          (update (links n p).next (last_of y ys) (some y))
          (update (links n p).prev y (some (last_of y ys)))
      → Removed p q i y ys
  Writes-Removed p q i y ys r d w =
      let last = last_of y ys in
      record {
        relinked = w.relinked;
        ring =
            IsRing-remove (links n p) (links n q) i y ys d (λ j m ne. ground (arith, w.next j))
              (λ j m. ground (arith, w.prev j, d.1.0)) (ground (arith, w.next last))
              (ground (arith, w.prev y)) r;
        elsewhere =
            λ j m. (ground (arith, w.next j, mem-last_of y ys, m), ground (arith, w.prev j, m));
        itself = (
          ground (arith, w.next i, mem-last_of y ys, d.0, r.0),
          ground (arith, w.prev i, d.0, Chain-prev (links n p) y ys i r.2),
        );
      }

  -- Both ways of taking the first node out of a ring of several: neither faults.
  pub close_up-Removed :
      (p : MemPool T) (i y : ℕ) (ys : List ℕ)
      → IsRing (links n p) (i ∷ y ∷ ys)
      → Distinct (i ∷ y ∷ ys)
      → (q : MemPool T) × (close_up n p i ≡ done q) × Removed p q i y ys
  close_up-Removed p i y ys r d =
      let (q, e, w) =
        close_up_lem p i (last_of y ys) y (Chain-prev (links n p) y ys i r.2) r.0
          (Chain-next (links n p) y ys i r.2) r.1 in
      (q, e, Writes-Removed p q i y ys r d w)

  pub close_up_entry-Removed :
      (p : MemPool T) (i y : ℕ) (ys : List ℕ)
      → IsRing (links n p) (i ∷ y ∷ ys)
      → Distinct (i ∷ y ∷ ys)
      → (q : MemPool T) × (close_up_entry n p i ≡ done q) × Removed p q i y ys
  close_up_entry-Removed p i y ys r d =
      let (q, e, w) =
        close_up_entry_lem p i (last_of y ys) y (Chain-prev (links n p) y ys i r.2) r.0
          (Chain-next (links n p) y ys i r.2) r.1 (λ h. ground (arith, d.0, mem-last_of y ys)) in
      (q, e, Writes-Removed p q i y ys r d w)
