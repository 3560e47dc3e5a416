-- ===== src/MemPool/Tests.antt =====
-- A pool of three slots, and the theorems about it at concrete inputs.
use trade_system.Common.{
  ℕ, ◌≡◌, refl, ◌⊎◌, ◌<◌, arith, some, none, done, fault, Outcome, ◌>>=◌, deref,
}
use trade_system.MemPool.{MemPool, init, allocate, deallocate, deallocate_pointer}
use trade_system.MemPool.Valid.{Took, Returned, used, init-IsValid, allocate_lem}
use trade_system.MemPool.Pointers.{PointsTo, deallocate_pointer_lem}

abbrev fresh : MemPool ℕ
fresh = init 3

-- Slots come back in the reverse order, and a second release of one is a fault.
reused_slots : Outcome (ℕ × ℕ × ℕ)
reused_slots = do
  (i, p) ← deref (allocate fresh 7)
  (j, q) ← deref (allocate p 8)
  r ← deallocate q i
  (k, s) ← deref (allocate r 9)
  done (i, j, k)

reuse : reused_slots ≡ done (0, 1, 0)
unfolding reused_slots allocate deallocate init
reuse = refl

double_release : (do (i, p) ← deref (allocate fresh 7); q ← deallocate p i; deallocate q i) ≡ fault
unfolding allocate deallocate init
double_release = refl

allocate_lem_example :
    ((allocate fresh 5 ≡ none) × (used fresh ≡ fresh.capacity))
    ⊎ ((i : ℕ) × (q : MemPool ℕ) × (allocate fresh 5 ≡ some (i, q))
        × (used fresh < fresh.capacity)
        × Took fresh 5 i q)
allocate_lem_example = allocate_lem fresh 5 (init-IsValid 3)

-- A pointer into the middle of a slot in use, and the one to its start, twice.
misaligned : (do (i, p) ← deref (allocate fresh 7); deallocate_pointer 1000 16 p 1008) ≡ fault
unfolding allocate deallocate deallocate_pointer init
misaligned = refl

released_twice :
    (do
      (i, p) ← deref (allocate fresh 7)
      q ← deallocate_pointer 1000 16 p 1000
      deallocate_pointer 1000 16 q 1000)
    ≡ fault
unfolding allocate deallocate deallocate_pointer init
released_twice = refl

deallocate_pointer_lem_example :
    ((deallocate_pointer 1000 16 fresh 1016 ≡ fault)
      × ((i : ℕ) → PointsTo 1000 16 fresh 1016 i → ⊥))
    ⊎ ((i : ℕ) × (q : MemPool ℕ) × PointsTo 1000 16 fresh 1016 i
        × (deallocate_pointer 1000 16 fresh 1016 ≡ done q)
        × Returned fresh i q)
deallocate_pointer_lem_example =
    deallocate_pointer_lem 1000 16 fresh 1016 (omega arith) (init-IsValid 3)
