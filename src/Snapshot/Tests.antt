-- ===== src/Snapshot/Tests.antt =====
-- A synthesizer that is told of one order, and the theorem about its frames.
use trade_system.Common.{ℕ, ◌≡◌, refl, List, [], ◌∷◌, none, done, fault, ◌>>=◌}
use trade_system.Common.Int.{pos}
use trade_system.Types.{Side}
use trade_system.Messages.{MarketUpdate, MarketUpdateType, SequencedUpdate}
use trade_system.MemPool
use trade_system.Snapshot.{
  Synthesizer, known_order, change_orders, add_to_snapshot, live_from, snapshot_frames,
}
use trade_system.Snapshot.Frames.{CountsFrom, IsUniform, IsSnapshot, snapshot_frames-IsSnapshot}

abbrev empty : Synthesizer
empty = record {
  ticker_orders = λ t i. none;
  last_inc_seq_num = 0;
  snapshot_cycle = 4;
  order_pool = MemPool.init 2;
}

abbrev event : MarketUpdateType → ℕ → MarketUpdate
event type qty = record {
  type = type;
  order_id = 1;
  ticker_id = 0;
  side = Side.buy;
  price = pos 10;
  qty = qty;
  priority = 1;
}

abbrev framed : ℕ → MarketUpdate → SequencedUpdate
framed seq u = record {
  seq_num = seq;
  update = u;
  snapshot_cycle = 0;
  watermark = 0;
  state_hash = 0;
}

-- The quantity of a modified order is that of the modification.
modified :
    (do
      s₁ ← add_to_snapshot empty (framed 1 (event MarketUpdateType.add 5))
      s₂ ← add_to_snapshot s₁ (framed 2 (event MarketUpdateType.modify 3))
      live_from s₂ 0 0 3)
    ≡ done (event MarketUpdateType.add 3 ∷ [])
unfolding add_to_snapshot change_orders known_order live_from MemPool.allocate MemPool.init
modified = refl

-- A number that is left out ends the process.
missing_number :
    (add_to_snapshot empty (framed 2 (event MarketUpdateType.add 5)) >>= λ s.
    done s.last_inc_seq_num)
    ≡ fault
unfolding add_to_snapshot change_orders MemPool.allocate MemPool.init
missing_number = refl

abbrev one_event : List MarketUpdate
one_event = event MarketUpdateType.add 5 ∷ []

snapshot_frames-IsSnapshot_example :
    CountsFrom 0 (snapshot_frames 5 1 7 one_event)
    × IsUniform 5 1 7 (snapshot_frames 5 1 7 one_event)
    × IsSnapshot (snapshot_frames 5 1 7 one_event)
snapshot_frames-IsSnapshot_example = snapshot_frames-IsSnapshot 5 1 7 one_event
