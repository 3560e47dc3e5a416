-- ===== src/Consumer/Tests.antt =====
-- A client that is up to date, and the theorems about it.
use trade_system.Common.{arith, [], ◌∷◌, false, none, Returns}
use trade_system.Common.Int.{pos}
use trade_system.Types.{Side}
use trade_system.Messages.{MarketUpdate, MarketUpdateType, SequencedUpdate}
use trade_system.LfQueue.{LfQueue}
use trade_system.LfQueue.Refine.{IsValid}
use trade_system.Recovery.{new_recovery}
use trade_system.Consumer.{Consumer, process, receive}
use trade_system.Consumer.Output.{Processed, Valid, process-Processed, receive-Valid}

abbrev trade : SequencedUpdate
trade = record {
  seq_num = 1;
  update = record {
    type = MarketUpdateType.trade;
    order_id = 1;
    ticker_id = 0;
    side = Side.buy;
    price = pos 100;
    qty = 2;
    priority = 1;
  };
  snapshot_cycle = 0;
  watermark = 0;
  state_hash = 0;
}

abbrev updates : LfQueue MarketUpdate
updates = record {
  capacity = 2;
  store = λ _. trade.update;
  head = 0;
  tail = 0;
  full_count = 0;
  high_watermark = 0;
}

abbrev consumer : Consumer
consumer = record {
  output = updates;
  recovery = record (new_recovery 10) { recovering = false };
  candidate = none;
  generation = 2;
  observed_generation = 2;
}

updates-IsValid : IsValid updates
updates-IsValid = record {
  positive = omega arith;
  head_below = omega arith;
  tail_below = omega arith;
  bounded = omega arith;
}

process-Processed_example : Processed consumer false trade (process consumer false trade)
process-Processed_example = process-Processed consumer false trade updates-IsValid

receive-Valid_example : Returns Valid (receive consumer false false (84 ∷ 83 ∷ []))
receive-Valid_example = receive-Valid consumer false false (84 ∷ 83 ∷ []) updates-IsValid
