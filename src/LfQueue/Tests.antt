-- ===== src/LfQueue/Tests.antt =====
-- Small queues, and the theorems about the queue at concrete inputs.
use trade_system.Common.{
  ℕ, ◌+◌, ◌*◌, ◌≡◌, false, refl, arith, [], ◌∷◌, ◌++◌, length, ltb, leb, if◌then◌else◌, done, fault,
  ◌>>=◌,
}
use trade_system.LfQueue.{LfQueue, create, try_push, try_push_batch}
use trade_system.LfQueue.Refine.{IsValid, contents, try_push_lem}
use trade_system.LfQueue.Batch.{try_push_batch_lem}
use trade_system.LfQueue.Take.{Taken, take_lem}

-- Two elements that go round the end of four slots, with the cursors past the first round.
abbrev wrapped : LfQueue ℕ
wrapped = record {
  capacity = 4;
  store = λ i. i * 10;
  head = 7;
  tail = 1;
  full_count = 0;
  high_watermark = 3;
}

wrapped-IsValid : IsValid wrapped
wrapped-IsValid = record {
  positive = omega arith;
  head_below = omega arith;
  tail_below = omega arith;
  bounded = omega arith;
}

contents-wrapped : contents wrapped ≡ 30 ∷ 0 ∷ []
contents-wrapped = refl

no_power_of_two : create {T = ℕ} 0 6 ≡ fault
unfolding create
no_power_of_two = refl

full_batch : (create {T = ℕ} 0 2 >>= λ q. done ((try_push_batch q (1 ∷ 2 ∷ 3 ∷ [])).0)) ≡ done false
unfolding create try_push_batch
full_batch = refl

try_push_lem_example :
    IsValid (try_push wrapped 5).1
    × ((try_push wrapped 5).0 ≡ ltb (length (contents wrapped)) 4)
    × (contents (try_push wrapped 5).1 ≡ (
        if ltb (length (contents wrapped)) 4 then contents wrapped ++ 5 ∷ [] else contents wrapped))
try_push_lem_example = try_push_lem wrapped 5 wrapped-IsValid

try_push_batch_lem_example :
    IsValid (try_push_batch wrapped (5 ∷ 6 ∷ [])).1
    × ((try_push_batch wrapped (5 ∷ 6 ∷ [])).0
        ≡ leb (length (contents wrapped) + length {A = ℕ} (5 ∷ 6 ∷ [])) 4)
    × (contents (try_push_batch wrapped (5 ∷ 6 ∷ [])).1 ≡ (
        if leb (length (contents wrapped) + length {A = ℕ} (5 ∷ 6 ∷ [])) 4
        then contents wrapped ++ 5 ∷ 6 ∷ []
        else contents wrapped))
try_push_batch_lem_example = try_push_batch_lem wrapped (5 ∷ 6 ∷ []) wrapped-IsValid

take_lem_example : Taken wrapped (contents wrapped)
take_lem_example = take_lem wrapped wrapped-IsValid
