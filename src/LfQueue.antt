-- ===== src/LfQueue.antt =====
-- common/lf_queue.h: the single-producer, single-consumer queue. Each call is one step: the two
-- sides touch it only through their own cursor and a release or acquire of the other one.
-- A mask `x & (c - 1)` of a power of two `c` is `x % c`.
pub mod Cursor
pub mod Refine
pub mod Batch
pub mod Take
mod Tests
use trade_system.Common.{
  ℕ, zero, suc, ◌+◌, ◌-◌, ◌*◌, ◌^◌, ◌%◌, ◌==◌, ltb, ◌||◌, not, if◌then◌else◌, Bool, true, false,
  min, List, [], ◌∷◌, length, Option, none, some, Outcome, done, fault, update,
}

pub record LfQueue {ℓ} (T : Type ℓ) : Type ℓ where
  -- `store_.size()`; `mask_` and `cursor_mask_` are one less than it and than its double
  pub capacity : ℕ
  pub store : ℕ → T
  pub head : ℕ
  pub tail : ℕ
  pub full_count : ℕ
  pub high_watermark : ℕ

-- `std::has_single_bit` on the exponents below `n`.
abbrev pub is_power_below : ℕ → ℕ → Bool
is_power_below zero c = false
is_power_below (suc n) c = c == 2 ^ n || is_power_below n c

-- `next`
abbrev pub next : ℕ → ℕ → ℕ
next capacity i = (i + 1) % (capacity * 2)

-- `distance`: the difference of two cursors below the period, which divides 2^64, round it.
abbrev pub distance : ℕ → ℕ → ℕ → ℕ
distance capacity tail head = (tail + capacity * 2 - head) % (capacity * 2)

module _ {ℓ} {T : Type ℓ} where
  -- The constructor, of a vector of default values `blank`.
  unfoldable pub create : T → ℕ → Outcome (LfQueue T)
  create blank capacity =
      if not (is_power_below 64 capacity) || ltb (2 ^ 63 - 1) capacity
      then fault
      else done (record {
        capacity = capacity;
        store = λ _. blank;
        head = 0;
        tail = 0;
        full_count = 0;
        high_watermark = 0;
      })

  abbrev pub record_full : LfQueue T → LfQueue T
  record_full q = record q { full_count = q.full_count + 1 }

  -- `try_push`
  unfoldable pub try_push : LfQueue T → T → Bool × LfQueue T
  try_push q value =
      let used = distance q.capacity q.tail q.head in
      if used == q.capacity then (false, record_full q) else (
        true,
        record q {
          store = update q.store (q.tail % q.capacity) value;
          tail = next q.capacity q.tail;
          high_watermark = if ltb q.high_watermark (used + 1) then used + 1 else q.high_watermark;
        },
      )

  -- The loop of `try_push_batch`: the slots and the cursor after it.
  unfoldable pub write_all : ℕ → (ℕ → T) → ℕ → List T → (ℕ → T) × ℕ
  write_all capacity store write [] = (store, write)
  write_all capacity store write (v ∷ vs) =
      write_all capacity (update store (write % capacity) v) (next capacity write) vs

  -- `try_push_batch`
  unfoldable pub try_push_batch : LfQueue T → List T → Bool × LfQueue T
  try_push_batch q [] = (true, q)
  try_push_batch q (v ∷ vs) =
      let used = distance q.capacity q.tail q.head in
      let written = write_all q.capacity q.store q.tail (v ∷ vs) in
      let n = length (v ∷ vs) in
      if ltb (q.capacity - used) n then (false, record_full q) else (
        true,
        record q {
          store = written.0;
          tail = written.1;
          high_watermark = if ltb q.high_watermark (used + n) then used + n else q.high_watermark;
        },
      )

  -- `peek`: `none` for a null pointer.
  unfoldable pub peek : LfQueue T → Option T
  peek q = if q.head == q.tail then none else some (q.store (q.head % q.capacity))

  -- `pop`, with its ASSERT.
  unfoldable pub pop : LfQueue T → Outcome (LfQueue T)
  pop q = if q.head == q.tail then fault else done (record q { head = next q.capacity q.head })

  -- `try_pop`: the value and the queue, or `none` for `false`.
  unfoldable pub try_pop : LfQueue T → Option (T × LfQueue T)
  try_pop q =
      if q.head == q.tail
      then none
      else some (q.store (q.head % q.capacity), record q { head = next q.capacity q.head })

  -- `size`, with both cursors read at one moment.
  unfoldable pub size : LfQueue T → ℕ
  size q = min (distance q.capacity q.tail q.head) q.capacity
