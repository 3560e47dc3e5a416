-- ===== src/Consumer.antt =====
-- trading/market_data/market_data_consumer.cpp: the client's end of the market data. The sockets,
-- the wait of a millisecond, the thread and the log are left out; a datagram comes as its bytes.
pub mod Output
mod Tests
use trade_system.Common.{
  ℕ, zero, suc, ◌+◌, ◌%◌, ◌^◌, ◌==◌, ◌&&◌, ◌||◌, not, ltb, leb, if◌then◌else◌, Bool, true, false,
  List, [], ◌∷◌, ◌++◌, length, take, drop, Option, none, some, Outcome, done, out_of_fuel, ◌>>=◌,
}
use trade_system.Types.{
  Side, order_id_invalid, ticker_id_invalid, price_invalid, qty_invalid, max_tickers,
}
use trade_system.Messages.{MarketUpdate, MarketUpdateType, SequencedUpdate}
use trade_system.LfQueue
use trade_system.LfQueue.{LfQueue}
use trade_system.Recovery.{Recovery, restart, live_candidate, commit_live, ingest}
use trade_system.Recovery.Build.{Batch, build, commit}
use trade_system.Wire.Enums.{update_type_bits}
use trade_system.Wire.Market.{decode_update}

-- `MarketSize`
abbrev pub market_size : ℕ
market_size = 70

-- `MarketDataConsumer`; the generation is shared with the trade engine.
pub record Consumer : Type 0 where
  pub output : LfQueue MarketUpdate
  pub recovery : Recovery
  pub candidate : Option Batch
  pub generation : ℕ
  pub observed_generation : ℕ

-- A new generation: the books of the old one are out of date.
abbrev pub renew : Consumer → Consumer
renew c = record c {
  generation = (c.generation + 1) % 2 ^ 64;
  observed_generation = (c.generation + 1) % 2 ^ 64;
}

-- `stale`
abbrev pub stale : Consumer → Consumer
stale c = record (renew c) { recovery = restart c.recovery; candidate = none }

-- A round of `run` starts again when the engine has asked for it.
abbrev pub follow : Consumer → Consumer
follow c = if c.generation == c.observed_generation then c else record c {
  observed_generation = c.generation;
  recovery = restart c.recovery;
  candidate = none;
}

-- `publishRecovery`: all of the batch, or nothing.
abbrev pub publish_batch : Consumer → Option Batch → Consumer
publish_batch c none = c
publish_batch c (some b) =
    let pushed = LfQueue.try_push_batch c.output b.events in
    if pushed.0
    then record c { output = pushed.1; recovery = commit c.recovery b; candidate = none }
    else record c { output = pushed.1 }

abbrev pub publish_recovery : Consumer → Consumer
publish_recovery c = publish_batch c c.candidate

-- The mark behind a batch, with its watermark and the generation that it brings.
abbrev pub commit_mark : ℕ → Batch → MarketUpdate
commit_mark generation b = record {
  type = MarketUpdateType.recovery_commit;
  order_id = b.watermark;
  ticker_id = ticker_id_invalid;
  side = Side.invalid;
  price = price_invalid;
  qty = qty_invalid;
  priority = generation;
}

abbrev pub marked : ℕ → Batch → Batch
marked generation b = record b { events = b.events ++ commit_mark generation b ∷ [] }

-- The end of `process`, with what `build` gave.
abbrev pub take_candidate : Consumer → Option Batch → Consumer
take_candidate c none = record c { candidate = none }
take_candidate c (some b) =
    publish_recovery (record c { candidate = some (marked c.observed_generation b) })

-- The frame goes into the caches, and a batch is tried.
unfoldable pub recover : Consumer → Bool → SequencedUpdate → Consumer
recover c snapshot u =
    let built = build (ingest c.recovery snapshot u).1 in
    take_candidate (record c { recovery = built.1 }) built.0

-- An increment for a client that is up to date. A gap starts a new generation, and the frame goes
-- into the caches.
unfoldable pub process_live : Consumer → SequencedUpdate → Consumer
process_live c u =
    let next = live_candidate c.recovery u in
    let pushed = LfQueue.try_push c.output u.update in
    let after = record c { recovery = next.1 } in
    if next.0
    then (if pushed.0
        then record after { output = pushed.1; recovery = commit_live next.1 }
        else recover (stale (record after { output = pushed.1 })) false u)
    else if not next.1.recovering
    then after
    else recover (record (renew after) { candidate = none }) false u

-- `process`
unfoldable pub process : Consumer → Bool → SequencedUpdate → Consumer
process c snapshot u =
    if c.recovery.recovering then recover c snapshot u else if snapshot then c else process_live c u

-- What an increment may not be.
abbrev pub is_foreign : SequencedUpdate → Bool
is_foreign u =
    let type = update_type_bits u.update.type in
    ltb type 1
    || ltb 5 type
    || leb max_tickers u.update.ticker_id
    || not (u.snapshot_cycle == 0)
    || not (u.watermark == 0)
    || not (u.state_hash == 0)

-- One frame of a datagram: whether to go on.
abbrev pub on_frame : Consumer → Bool → Option SequencedUpdate → Bool × Consumer
on_frame c snapshot none = (false, stale c)
on_frame c snapshot (some u) =
    if not snapshot && is_foreign u then (false, stale c) else (true, process c snapshot u)

-- The loop over the frames of a datagram.
unfoldable pub frames : ℕ → Consumer → Bool → List ℕ → Outcome Consumer
unfolding process
frames zero c snapshot input = out_of_fuel
frames (suc fuel) c snapshot input = if length input == 0 then done c else do
  u ← decode_update (take market_size input)
  let x = on_frame c snapshot u
  if x.0 then frames fuel x.1 snapshot (drop market_size input) else done x.1

-- `receive` of a datagram, by the flag for a cut one and the bytes.
unfoldable pub receive : Consumer → Bool → Bool → List ℕ → Outcome Consumer
receive c snapshot fault_ input =
    if snapshot && not c.recovery.recovering
    then done c
    else if fault_ || not (length input % market_size == 0)
    then done (stale c)
    else frames (suc (length input)) c snapshot input
