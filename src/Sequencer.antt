-- ===== src/Sequencer.antt =====
-- exchange/order_server/fifo_sequencer.h: requests wait until the end of a round, are sorted by the
-- time they were received, and go to the queue of the matching engine.
pub mod Sort
pub mod Publish
mod Tests
use trade_system.Common.{
  ℕ, ◌<◌, ltb, leb, ◌==◌, if◌then◌else◌, Bool, true, false, List, [], ◌∷◌, ◌++◌, length, map,
}
use trade_system.Messages.{ClientRequest}
use trade_system.LfQueue
use trade_system.LfQueue.{LfQueue}

-- `ME_MAX_PENDING_REQUESTS`
abbrev pub max_pending_requests : ℕ
max_pending_requests = 1024

-- `RecvTimeClientRequest`; the time is a signed number of nanoseconds, kept as an unsigned one.
pub record TimedRequest : Type 0 where
  pub recv_time : ℕ
  pub request : ClientRequest

-- The valid part of `pending_client_requests_`, and the queue it goes to.
pub record Sequencer : Type 0 where
  pub pending : List TimedRequest
  pub incoming_requests : LfQueue ClientRequest

-- `addClientRequest`
unfoldable pub add_client_request : Sequencer → ℕ → ClientRequest → Bool × Sequencer
add_client_request s rx_time request =
    if leb max_pending_requests (length s.pending) then (false, s) else (
      true,
      record s { pending = s.pending ++ record { recv_time = rx_time; request = request } ∷ [] },
    )

-- `canAccept`
abbrev pub can_accept : Sequencer → Bool
can_accept s = ltb (length s.pending) max_pending_requests

-- `operator<`
abbrev pub is_earlier : TimedRequest → TimedRequest → Bool
is_earlier r s = ltb r.recv_time s.recv_time

-- `std::stable_sort` of the standard library, which the code calls, as a sort by insertion: an element
-- goes before the first one that is not earlier than it.
abbrev pub insert : TimedRequest → List TimedRequest → List TimedRequest
insert r [] = r ∷ []
insert r (s ∷ ss) = if is_earlier s r then s ∷ insert r ss else r ∷ s ∷ ss

abbrev pub stable_sort : List TimedRequest → List TimedRequest
stable_sort [] = []
stable_sort (r ∷ rs) = insert r (stable_sort rs)

-- The loop: what could not be pushed, from the first failure on, is kept.
unfoldable pub publish : LfQueue ClientRequest → List TimedRequest → Sequencer
publish q [] = record { pending = []; incoming_requests = q }
publish q (r ∷ rs) =
    let pushed = LfQueue.try_push q r.request in
    let rest = publish pushed.1 rs in
    if pushed.0 then rest else record { pending = r ∷ rs; incoming_requests = pushed.1 }

-- `sequenceAndPublish`
unfoldable pub sequence_and_publish : Sequencer → Sequencer
unfolding publish
sequence_and_publish s = publish s.incoming_requests (stable_sort s.pending)
