-- ===== src/Snapshot.antt =====
-- exchange/market_data/snapshot_synthesizer.h and snapshot_synthesizer.cpp: the live orders of
-- every ticker, kept up to date by the updates that were published, and the frames of a snapshot.
pub mod Frames
mod Tests
use trade_system.Common.{
  ℕ, zero, suc, ◌+◌, ◌%◌, ◌^◌, ◌==◌, ◌&&◌, not, ltb, if◌then◌else◌, Bool, true, false, List, [],
  ◌∷◌, ◌++◌, Option, none, some, Outcome, done, fault, ◌>>=◌, ◌>>◌, assert, deref,
}
use trade_system.Types.{
  Side, side_eq, max_tickers, max_order_ids, order_id_invalid, ticker_id_invalid, price_invalid,
  qty_invalid, priority_invalid,
}
use trade_system.Messages.{MarketUpdate, MarketUpdateType, SequencedUpdate}
use trade_system.MemPool
use trade_system.MemPool.{MemPool}
use trade_system.Matcher.Book.{update₂}
use trade_system.Recovery.Hash.{book_hash}

-- `SnapshotSynthesizer`: a pointer to an order is its slot in the pool.
pub record Synthesizer : Type 0 where
  pub ticker_orders : ℕ → ℕ → Option ℕ
  pub last_inc_seq_num : ℕ
  pub snapshot_cycle : ℕ
  pub order_pool : MemPool MarketUpdate

-- The order that a modification or a cancel names, with its slot, past the three ASSERTs.
unfoldable pub known_order : Synthesizer → MarketUpdate → Outcome (ℕ × MarketUpdate)
known_order s u = do
  i ← deref (s.ticker_orders u.ticker_id u.order_id)
  o ← deref (s.order_pool.block i)
  assert (o.order_id == u.order_id)
  assert (side_eq o.side u.side)
  done (i, o)

-- The `switch` of `addToSnapshot`.
unfoldable pub change_orders : Synthesizer → MarketUpdate → Outcome Synthesizer
unfolding known_order
change_orders s u = elim u.type [
  | MarketUpdateType.add ↦ elim (s.ticker_orders u.ticker_id u.order_id) [
    | some _ ↦ fault
    | none ↦ do
      (i, pool) ← deref (MemPool.allocate s.order_pool u)
      done (record s {
        ticker_orders = update₂ s.ticker_orders u.ticker_id u.order_id (some i);
        order_pool = pool;
      })
  ]
  | MarketUpdateType.modify ↦ do
    (i, o) ← known_order s u
    done (record s {
      order_pool = MemPool.store s.order_pool i (record o { qty = u.qty; price = u.price });
    })
  | MarketUpdateType.cancel ↦ do
    (i, o) ← known_order s u
    pool ← MemPool.deallocate s.order_pool i
    done (record s {
      ticker_orders = update₂ s.ticker_orders u.ticker_id u.order_id none;
      order_pool = pool;
    })
  | _ ↦ done s
]

abbrev pub names_order : MarketUpdateType → Bool
names_order MarketUpdateType.add = true
names_order MarketUpdateType.modify = true
names_order MarketUpdateType.cancel = true
names_order _ = false

-- `addToSnapshot`
unfoldable pub add_to_snapshot : Synthesizer → SequencedUpdate → Outcome Synthesizer
unfolding change_orders
add_to_snapshot s m = do
  let u = m.update
  assert (ltb u.ticker_id max_tickers)
  assert (if names_order u.type then ltb 0 u.order_id && ltb u.order_id max_order_ids else true)
  s₁ ← change_orders s u
  assert (m.seq_num == (s₁.last_inc_seq_num + 1) % 2 ^ 64)
  done (record s₁ { last_inc_seq_num = m.seq_num })

-- The live orders of a ticker with an id from `id` on, `n` ids; a dangling pointer is a fault.
unfoldable pub live_from : Synthesizer → ℕ → ℕ → ℕ → Outcome (List MarketUpdate)
live_from s ticker id zero = done []
live_from s ticker id (suc n) = do
  rest ← live_from s ticker (suc id) n
  elim (s.ticker_orders ticker id) [
    | none ↦ done rest
    | some i ↦ deref (s.order_pool.block i) >>= λ o. done (o ∷ rest)
  ]

-- A mark carries the watermark as its order id, a CLEAR the ticker.
abbrev pub mark : MarketUpdateType → ℕ → ℕ → MarketUpdate
mark type order_id ticker = record {
  type = type;
  order_id = order_id;
  ticker_id = ticker;
  side = Side.invalid;
  price = price_invalid;
  qty = qty_invalid;
  priority = priority_invalid;
}

-- The tickers from `t` on, `n` of them: the live orders, and the events of a snapshot.
unfoldable pub ticker_events : Synthesizer → ℕ → ℕ → Outcome (List MarketUpdate × List MarketUpdate)
unfolding live_from
ticker_events s t zero = done ([], [])
ticker_events s t (suc n) = do
  live ← live_from s t 0 max_order_ids
  rest ← ticker_events s (suc t) n
  done (live ++ rest.0, mark MarketUpdateType.clear order_id_invalid t ∷ live ++ rest.1)

-- The `publish` of `publishSnapshot`: each event gets the next number of the cycle.
unfoldable pub number_frames : ℕ → ℕ → ℕ → ℕ → List MarketUpdate → List SequencedUpdate
number_frames cycle watermark hash sequence [] = []
number_frames cycle watermark hash sequence (e ∷ es) =
    record {
      seq_num = sequence;
      update = e;
      snapshot_cycle = cycle;
      watermark = watermark;
      state_hash = hash;
    }
    ∷ number_frames cycle watermark hash (sequence + 1) es

-- A cycle: the events between the two marks.
abbrev pub snapshot_frames : ℕ → ℕ → ℕ → List MarketUpdate → List SequencedUpdate
snapshot_frames cycle watermark hash events = number_frames cycle watermark hash 0 (
    mark MarketUpdateType.snapshot_start watermark ticker_id_invalid ∷ events
    ++ mark MarketUpdateType.snapshot_end watermark ticker_id_invalid ∷ [])

-- `publishSnapshot`: the frames that go to the socket, which is taken to accept them.
unfoldable pub publish_snapshot : Synthesizer → Outcome (List SequencedUpdate × Synthesizer)
unfolding ticker_events
publish_snapshot s = do
  (live, events) ← ticker_events s 0 max_tickers
  let cycle = (s.snapshot_cycle + 1) % 2 ^ 64
  let watermark = s.last_inc_seq_num
  done
      (snapshot_frames cycle watermark (book_hash live) events, record s { snapshot_cycle = cycle })
