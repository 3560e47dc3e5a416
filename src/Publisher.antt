-- ===== src/Publisher.antt =====
-- exchange/market_data/market_data_publisher.cpp: the updates of the engine get their numbers, go
-- out as increments and then to the snapshot synthesizer. The thread, the log and the deadline of
-- the last flush are left out; `answer n` is what the kernel says to the flush of the n-th update.
pub mod Numbering
mod Tests
use trade_system.Common.{
  ℕ, zero, suc, ◌+◌, ◌%◌, ◌^◌, if◌then◌else◌, Bool, true, false, not, List, [], ◌∷◌, ◌++◌, Option,
  none, some, Outcome, done, out_of_fuel, ◌>>=◌, ◌>>◌, assert,
}
use trade_system.Messages.{MarketUpdate, SequencedUpdate}
use trade_system.LfQueue
use trade_system.LfQueue.{LfQueue}
use trade_system.Multicast
use trade_system.Multicast.{McastSocket, Answers}
use trade_system.Wire.Market.{encode_update}

-- `MarketDataPublisher`
pub record Publisher : Type 0 where
  pub outgoing_md_updates : LfQueue MarketUpdate
  pub snapshot_md_updates : LfQueue SequencedUpdate
  pub incremental_socket : McastSocket
  pub next_inc_seq_num : ℕ

-- An increment carries no data of a snapshot.
abbrev pub increment_of : ℕ → MarketUpdate → SequencedUpdate
increment_of n u = record {
  seq_num = n;
  update = u;
  snapshot_cycle = 0;
  watermark = 0;
  state_hash = 0;
}

-- `++` on a 64-bit number.
abbrev pub next_number : ℕ → ℕ
next_number n = (n + 1) % 2 ^ 64

-- What follows `send`: an update that the socket does not take stays in the queue.
abbrev pub sent :
    Publisher
    → MarketUpdate
    → Bool × McastSocket × List (List ℕ)
    → Outcome (Bool × Publisher × List (List ℕ))
sent p u (false, s, gone) = done (false, record p { incremental_socket = s }, gone)
sent p u (true, s, gone) = do
  q ← LfQueue.pop p.outgoing_md_updates
  let pushed = LfQueue.try_push p.snapshot_md_updates (increment_of p.next_inc_seq_num u)
  assert pushed.0
  done (
    true,
    record {
      outgoing_md_updates = q;
      snapshot_md_updates = pushed.1;
      incremental_socket = s;
      next_inc_seq_num = next_number p.next_inc_seq_num;
    },
    gone,
  )

-- One round of the inner loop of `run`.
unfoldable pub publish_one :
    Answers → Publisher → Option MarketUpdate → Outcome (Bool × Publisher × List (List ℕ))
publish_one answer p none = done (false, p, [])
publish_one answer p (some u) =
    Multicast.send answer p.incremental_socket (encode_update (increment_of p.next_inc_seq_num u))
    >>= sent p u

-- The inner loop, with the datagrams that went out.
unfoldable pub publish_all : (ℕ → Answers) → ℕ → ℕ → Publisher → Outcome (Publisher × List (List ℕ))
unfolding publish_one
publish_all answer zero n p = out_of_fuel
publish_all answer (suc fuel) n p = do
  (ok, p, gone) ← publish_one (answer n) p (LfQueue.peek p.outgoing_md_updates)
  if not ok
      then done (p, gone)
      else do (p, more) ← publish_all answer fuel (n + 1) p; done (p, gone ++ more)
