-- ===== src/Recovery/Tests.antt =====
-- A client that recovers from a snapshot of one order, and the theorems about it.
use trade_system.Common.{
  ℕ, ◌≡◌, refl, arith, ◌==◌, ◌&&◌, ◌||◌, not, ltb, [], ◌∷◌, false, none, some,
}
use trade_system.Common.Int.{pos}
use trade_system.Types.{Side}
use trade_system.Messages.{MarketUpdate, MarketUpdateType, SequencedUpdate}
use trade_system.Recovery.{Recovery, Cache, new_recovery, live_candidate, ingest}
use trade_system.Recovery.Apply.{apply}
use trade_system.Recovery.Build.{Batch, build_incremental}
use trade_system.Recovery.Cache.{Within, ingest-Within, live_candidate_lem}
use trade_system.Recovery.Gapless.{Closed, build_incremental-Closed}

abbrev event : MarketUpdateType → ℕ → ℕ → MarketUpdate
event type id ticker = record {
  type = type;
  order_id = id;
  ticker_id = ticker;
  side = Side.buy;
  price = pos 10;
  qty = 5;
  priority = 1;
}

abbrev live_frame : ℕ → MarketUpdate → SequencedUpdate
live_frame seq u = record {
  seq_num = seq;
  update = u;
  snapshot_cycle = 0;
  watermark = 0;
  state_hash = 0;
}

abbrev recovery : Recovery
recovery = new_recovery 12

abbrev late : Cache
late =
    live_frame 4 (event MarketUpdateType.add 6 0)
    ∷ live_frame 5 (event MarketUpdateType.cancel 6 0)
    ∷ []

abbrev batch : Batch
batch = record {
  events = event MarketUpdateType.add 6 0 ∷ event MarketUpdateType.cancel 6 0 ∷ [];
  watermark = 5;
}

built : build_incremental 4 (λ t. []) [] late ≡ some batch
unfolding build_incremental apply
built = refl

-- An order that is added twice spoils the batch.
added_twice :
    build_incremental 4
      (λ t. [])
      []
      (live_frame 4 (event MarketUpdateType.add 6 0)
        ∷ live_frame 5 (event MarketUpdateType.add 6 0)
        ∷ [])
    ≡ none
unfolding build_incremental apply
added_twice = refl

build_incremental-Closed_example : Closed recovery 4 [] late batch
build_incremental-Closed_example =
    build_incremental-Closed recovery 4 (λ t. []) [] late batch (omega arith) built

ingest-Within_example :
    Within recovery (ingest recovery false (live_frame 4 (event MarketUpdateType.add 6 0)))
ingest-Within_example =
    ingest-Within recovery false (live_frame 4 (event MarketUpdateType.add 6 0)) (omega arith)

abbrev arriving : SequencedUpdate
arriving = live_frame 4 (event MarketUpdateType.add 6 0)

live_candidate_lem_example :
    ((live_candidate recovery arriving).0
      ≡ (not recovery.recovering && arriving.seq_num == recovery.expected))
    × ((live_candidate recovery arriving).1.recovering
        ≡ (recovery.recovering || ltb recovery.expected arriving.seq_num))
    × ((live_candidate recovery arriving).1.expected ≡ recovery.expected)
live_candidate_lem_example = live_candidate_lem recovery arriving
