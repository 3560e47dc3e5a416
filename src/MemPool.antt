-- ===== src/MemPool.antt =====
-- common/mem_pool.h, `MemPool`: a fixed number of slots, handed out and taken back by a stack of
-- free indices. A pointer into the pool is the index of its slot; `block i` holds the object of a
-- slot in use (`used`), and `none` otherwise, so a pointer to a released object reads `none`.
pub mod Valid
pub mod Pointers
mod Tests
use trade_system.Common.{
  ℕ, zero, suc, List, [], ◌∷◌, Option, none, some, Outcome, done, fault, length, update,
  if◌then◌else◌, ltb, leb, ◌+◌, ◌*◌, ◌-◌, ◌%◌, ◌/◌, ◌==◌, ◌||◌, ◌&&◌,
}

pub record MemPool {ℓ} (T : Type ℓ) : Type ℓ where
  pub capacity : ℕ
  pub block : ℕ → Option T
  -- `free_`, its back first
  pub free : List ℕ

-- `free_[i] = capacity - i - 1`, read from the back: 0 is handed out first.
pub count_up : ℕ → ℕ → List ℕ
count_up i zero = []
count_up i (suc n) = i ∷ count_up (suc i) n

module _ {ℓ} {T : Type ℓ} where
  -- The constructor past `checkedCapacity`.
  unfoldable pub init : ℕ → MemPool T
  unfolding count_up
  init capacity = record { capacity = capacity; block = λ _. none; free = count_up 0 capacity }

  -- The constructor: a capacity of 0 or beyond 32 bits throws.
  unfoldable pub create : ℕ → Outcome (MemPool T)
  unfolding init
  create capacity = if capacity == 0 || ltb 4294967295 capacity then fault else done (init capacity)

  -- `none` when the pool is exhausted; otherwise the slot, holding the object.
  unfoldable pub allocate : MemPool T → T → Option (ℕ × MemPool T)
  allocate p object = elim p.free [
    | [] ↦ none
    | index ∷ rest ↦
        some (index, record p { free = rest; block = update p.block index (some object) })
  ]

  -- The second half of `deallocate`: the index of a slot. A double release ends the process.
  unfoldable pub deallocate : MemPool T → ℕ → Outcome (MemPool T)
  deallocate p index =
      if ltb index p.capacity
      then elim (p.block index) [
        | none ↦ fault
        | some _ ↦ done (record p { free = index ∷ p.free; block = update p.block index none })
      ]
      else fault

  -- `deallocate` of a pointer, by the addresses of the pool and of the pointer and the size of a block:
  -- a foreign pointer, and one into the middle of a slot, end the process.
  unfoldable pub deallocate_pointer : ℕ → ℕ → MemPool T → ℕ → Outcome (MemPool T)
  unfolding deallocate
  deallocate_pointer base size p address =
      if leb base address && ltb address (base + p.capacity * size) && (address - base) % size == 0
      then deallocate p ((address - base) / size)
      else fault

  abbrev pub available : MemPool T → ℕ
  available p = length p.free

  -- A write through a pointer to a live object.
  abbrev pub store : MemPool T → ℕ → T → MemPool T
  store p index object = record p { block = update p.block index (some object) }
