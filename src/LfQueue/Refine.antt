-- ===== src/LfQueue/Refine.antt =====
-- What the queue promises: a list of at most `capacity` elements, first in, first out.
use trade_system.Common.{
  ℕ, zero, suc, ◌+◌, ◌*◌, ◌%◌, ◌<◌, ◌≤◌, ◌≡◌, ◌∙◌, refl, ap, sym, ltb, ◌==◌, if◌then◌else◌, true,
  false, List, [], ◌∷◌, ◌++◌, length, update, arith, Bool-cases, inl, inr,
}
use trade_system.LfQueue.{LfQueue, next, distance, try_push}
use trade_system.LfQueue.Cursor.{
  distance_lem, ahead, ahead-suc, ahead_next, next-below, apart, used-ahead,
}

at_start : (room c : ℕ) → c < room * 2 → c ≡ ahead room c 0
at_start room c h = ground arith

module _ {ℓ} {T : Type ℓ} where
  -- The `n` elements from the cursor `c` on.
  abbrev pub window : ℕ → (ℕ → T) → ℕ → ℕ → List T
  window room store c zero = []
  window room store c (suc n) = store (c % room) ∷ window room store (next room c) n

  abbrev pub used : LfQueue T → ℕ
  used q = distance q.capacity q.tail q.head

  abbrev pub contents : LfQueue T → List T
  contents q = window q.capacity q.store q.head (used q)

  pub record IsValid (q : LfQueue T) : Type ℓ where
    pub positive : 0 < q.capacity
    pub head_below : q.head < q.capacity * 2
    pub tail_below : q.tail < q.capacity * 2
    pub bounded : used q ≤ q.capacity

  pub length-window : (room : ℕ) (store : ℕ → T) (c n : ℕ) → length (window room store c n) ≡ n
  length-window room store c zero = refl
  length-window room store c (suc n) = ap suc (length-window room store (next room c) n)

  window_snoc :
      (room : ℕ) (store : ℕ → T) (c n : ℕ)
      → c < room * 2
      → n < room * 2
      → window room store c (suc n) ≡ window room store c n ++ store (ahead room c n % room) ∷ []
  window_snoc room store c zero h k = ap (λ i. store (i % room) ∷ []) (at_start room c h)
  window_snoc room store c (suc n) h k =
      ap (λ l. store (c % room) ∷ l)
        (window_snoc room store (next room c) n (next-below room c h) (omega arith)
          ∙ ap (λ i. window room store (next room c) n ++ store (i % room) ∷ [])
              (ahead_next room c n h k))

  -- A write behind the window does not show in it.
  window-update :
      (room : ℕ) (store : ℕ → T) (c n : ℕ) (v : T)
      → c < room * 2
      → n < room
      → window room (update store (ahead room c n % room) v) c n ≡ window room store c n
  window-update room store c zero v h k = refl
  window-update room store c (suc n) v h k =
      let rest =
        ap (λ i. window room (update store (i % room) v) (next room c) n)
          (sym (ahead_next room c n h (omega arith)))
        ∙ window-update room store (next room c) n v (next-below room c h) (omega arith) in
      rw (rest) (
        ap (λ x. x ∷ window room store (next room c) n)
          (ground (arith, apart room c (suc n) h (omega arith) k)))

  -- One element written at the tail.
  pub window-push :
      (room : ℕ) (store : ℕ → T) (c n : ℕ) (v : T)
      → c < room * 2
      → n < room
      → window room (update store (ahead room c n % room) v) c (suc n)
        ≡ window room store c n ++ v ∷ []
  window-push room store c n v h k =
      window_snoc room (update store (ahead room c n % room) v) c n h (omega arith)
      ∙ rw (window-update room store c n v h k) ground arith

  pub tail_ahead : (q : LfQueue T) → IsValid q → q.tail ≡ ahead q.capacity q.head (used q)
  tail_ahead q v = ground (
    arith,
    distance_lem q.capacity q.tail q.head v.tail_below v.head_below,
    v.head_below,
    v.tail_below,
  )

  -- One more element in a queue that has room.
  abbrev pushed : LfQueue T → T → ℕ → LfQueue T
  pushed q v high = record q {
    store = update q.store (q.tail % q.capacity) v;
    tail = next q.capacity q.tail;
    high_watermark = high;
  }

  used-pushed :
      (q : LfQueue T) (v : T) (high : ℕ)
      → IsValid q
      → used q < q.capacity
      → used (pushed q v high) ≡ suc (used q)
  used-pushed q v high h k =
      ap (λ t. distance q.capacity (next q.capacity t) q.head) (tail_ahead q h)
      ∙ ap (λ t. distance q.capacity t q.head)
          (ahead-suc q.capacity q.head (used q) h.head_below (omega (arith, h.bounded)))
      ∙ used-ahead q.capacity q.head (suc (used q)) h.head_below (omega (arith, k, h.positive))

  pushed-IsValid :
      (q : LfQueue T) (v : T) (high : ℕ)
      → IsValid q
      → used q < q.capacity
      → IsValid (pushed q v high)
  pushed-IsValid q v high h k = record {
    positive = h.positive;
    head_below = h.head_below;
    tail_below = next-below q.capacity q.tail h.tail_below;
    bounded = omega (arith, used-pushed q v high h k);
  }

  contents-pushed :
      (q : LfQueue T) (v : T) (high : ℕ)
      → IsValid q
      → used q < q.capacity
      → contents (pushed q v high) ≡ contents q ++ v ∷ []
  contents-pushed q v high h k =
      ap (window q.capacity (update q.store (q.tail % q.capacity) v) q.head)
        (used-pushed q v high h k)
      ∙ ap (λ t. window q.capacity (update q.store (t % q.capacity) v) q.head (suc (used q)))
          (tail_ahead q h)
      ∙ window-push q.capacity q.store q.head (used q) v h.head_below k

  -- `try_push`: an element goes to the end of the queue exactly if there is room; a full queue is
  -- left as it is, and the call says so.
  pub try_push_lem :
      (q : LfQueue T) (v : T)
      → IsValid q
      → IsValid (try_push q v).1
        × ((try_push q v).0 ≡ ltb (length (contents q)) q.capacity)
        × (contents (try_push q v).1
            ≡ (if ltb (length (contents q)) q.capacity then contents q ++ v ∷ [] else contents q))
  unfolding try_push
  try_push_lem q v h = elim (Bool-cases (used q == q.capacity)) [
    | inl full ↦
        let no : ltb (length (contents q)) q.capacity ≡ false =
          ground (arith, full, length-window q.capacity q.store q.head (used q)) in
        rw (full, no)
          (
            record {
              positive = h.positive;
              head_below = h.head_below;
              tail_below = h.tail_below;
              bounded = h.bounded;
            },
            refl,
            refl,
          )
    | inr free ↦
        let room : used q < q.capacity = ground (arith, free, h.bounded) in
        let yes : ltb (length (contents q)) q.capacity ≡ true =
          ground (arith, room, length-window q.capacity q.store q.head (used q)) in
        let high = if ltb q.high_watermark (used q + 1) then used q + 1 else q.high_watermark in
        rw (free, yes) (pushed-IsValid q v high h room, refl, contents-pushed q v high h room)
  ]
