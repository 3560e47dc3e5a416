-- ===== src/Recovery.antt =====
-- trading/market_data/market_recovery.h and common/book_hash.h: a client that has missed market
-- data puts a snapshot and the updates after it together again. A `std::map` is the list of its
-- entries in the order of the keys.
pub mod Hash
pub mod Apply
pub mod Build
pub mod Cache
pub mod Gapless
mod Tests
use trade_system.Common.{
  ℕ, ◌+◌, ◌%◌, ◌^◌, ◌==◌, ◌&&◌, ◌||◌, not, ltb, leb, if◌then◌else◌, Bool, true, false, List, [],
  ◌∷◌, length, Option, none, some,
}
use trade_system.Types.{max_market_updates, max_tickers, side_eq}
use trade_system.Messages.{MarketUpdate, MarketUpdateType, SequencedUpdate}
use trade_system.Matcher.Book.{price_eq}
use trade_system.Wire.Enums.{update_type_bits}

abbrev pub Cache : Type 0
Cache = List SequencedUpdate

-- `MarketRecovery`
pub record Recovery : Type 0 where
  pub limit : ℕ
  pub recovering : Bool
  pub invalid_cycle : Bool
  pub cycle : ℕ
  pub expected : ℕ
  pub snapshot : Cache
  pub incremental : Cache
  pub gaps : ℕ
  pub duplicates : ℕ
  pub overflows : ℕ
  pub invalid : ℕ
  pub hash_failures : ℕ
  pub recoveries : ℕ

-- The constructor past its ASSERT.
abbrev pub new_recovery : ℕ → Recovery
new_recovery limit = record {
  limit = limit;
  recovering = true;
  invalid_cycle = false;
  cycle = 0;
  expected = 1;
  snapshot = [];
  incremental = [];
  gaps = 0;
  duplicates = 0;
  overflows = 0;
  invalid = 0;
  hash_failures = 0;
  recoveries = 0;
}

-- `restart`
abbrev pub restart : Recovery → Recovery
restart r = record r { recovering = true; snapshot = []; incremental = []; invalid_cycle = true }

-- `cached`
abbrev pub cached : Recovery → ℕ
cached r = length r.snapshot + length r.incremental

-- `liveCandidate`
unfoldable pub live_candidate : Recovery → SequencedUpdate → Bool × Recovery
live_candidate r u =
    if r.recovering
    then (false, r)
    else if u.seq_num == r.expected
    then (true, r)
    else if ltb u.seq_num r.expected
    then (false, record r { duplicates = r.duplicates + 1 })
    else (false, restart (record r { gaps = r.gaps + 1 }))

-- `commitLive`
abbrev pub commit_live : Recovery → Recovery
commit_live r = record r { expected = (r.expected + 1) % 2 ^ 64 }

-- `sameEvent`
abbrev pub same_event : MarketUpdate → MarketUpdate → Bool
same_event a b =
    update_type_bits a.type == update_type_bits b.type
    && a.order_id == b.order_id
    && a.ticker_id == b.ticker_id
    && side_eq a.side b.side
    && price_eq a.price b.price
    && a.qty == b.qty
    && a.priority == b.priority

-- `find` and `emplace` by the sequence number, and `erase` of all up to a number.
abbrev pub find_cached : Cache → ℕ → Option SequencedUpdate
find_cached [] seq = none
find_cached (u ∷ us) seq = if u.seq_num == seq then some u else find_cached us seq

abbrev pub emplace : Cache → SequencedUpdate → Cache
emplace [] u = u ∷ []
emplace (v ∷ vs) u = if ltb u.seq_num v.seq_num then u ∷ v ∷ vs else v ∷ emplace vs u

abbrev pub drop_covered : Cache → ℕ → Cache
drop_covered [] watermark = []
drop_covered (u ∷ us) watermark =
    if leb u.seq_num watermark then drop_covered us watermark else u ∷ us

-- A frame of a later cycle begins that cycle.
abbrev pub begin_cycle : Recovery → SequencedUpdate → Recovery
begin_cycle r u =
    if ltb r.cycle u.snapshot_cycle
    then record r {
      cycle = u.snapshot_cycle;
      snapshot = [];
      invalid_cycle = false;
      incremental = drop_covered r.incremental u.watermark;
    }
    else r

abbrev pub put_cached : Recovery → Bool → SequencedUpdate → Recovery
put_cached r true u = record r { snapshot = emplace r.snapshot u }
put_cached r false u = record r { incremental = emplace r.incremental u }

-- The check of the cache's size, at the end.
abbrev pub check_limit : Recovery → Bool × Recovery
check_limit r =
    if ltb r.limit (cached r)
    then (false, record (restart r) { overflows = r.overflows + 1 })
    else (true, r)

-- A number that is cached already: the same frame again, or another one, which spoils the cycle.
abbrev pub ingest_again : Recovery → Bool → SequencedUpdate → SequencedUpdate → Bool × Recovery
ingest_again r true old u =
    if same_event old.update u.update
      && old.watermark == u.watermark
      && old.state_hash == u.state_hash
    then (false, record r { duplicates = r.duplicates + 1 })
    else (false, record r { invalid_cycle = true; snapshot = []; invalid = r.invalid + 1 })
ingest_again r false old u =
    let r₁ = record r { duplicates = r.duplicates + 1 } in
    if same_event old.update u.update
    then check_limit r₁
    else (false, record (restart r₁) { invalid = r.invalid + 1 })

-- `ingest` from the choice of the cache on.
abbrev pub ingest_into : Recovery → Bool → SequencedUpdate → Bool × Recovery
ingest_into r snapshot u =
    elim (find_cached (if snapshot then r.snapshot else r.incremental) u.seq_num) [
      | none ↦ check_limit (put_cached r snapshot u)
      | some old ↦ ingest_again r snapshot old u
    ]

-- `ingest`
unfoldable pub ingest : Recovery → Bool → SequencedUpdate → Bool × Recovery
unfolding update_type_bits
ingest r snapshot u =
    if not r.recovering
    then (false, r)
    else if not snapshot
    then ingest_into r false u
    else if u.snapshot_cycle == 0 || ltb u.snapshot_cycle r.cycle
    then (false, r)
    else (let r₁ = begin_cycle r u in
        if r₁.invalid_cycle then (false, r₁) else ingest_into r₁ true u)
