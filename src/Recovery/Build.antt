-- ===== src/Recovery/Build.antt =====
-- trading/market_data/market_recovery.h: `build` and `commit`.
use trade_system.Common.{
  ℕ, zero, suc, ◌+◌, ◌-◌, ◌%◌, ◌^◌, ◌==◌, ◌&&◌, ◌||◌, not, leb, if◌then◌else◌, Bool, true, false,
  List, [], ◌∷◌, ◌++◌, length, Option, none, some, update,
}
use trade_system.Types.{max_tickers}
use trade_system.Messages.{MarketUpdate, MarketUpdateType, SequencedUpdate}
use trade_system.Recovery.{Recovery, Cache, drop_covered}
use trade_system.Recovery.Apply.{State, apply, flatten}
use trade_system.Recovery.Hash.{book_hash}

-- `Batch`
pub record Batch : Type 0 where
  pub events : List MarketUpdate
  pub watermark : ℕ

-- What the loop over the snapshot has so far: `cleared`, `state` and the events.
pub record Progress : Type 0 where
  pub cleared : ℕ → Bool
  pub state : State
  pub events : List MarketUpdate

abbrev pub last_frame : SequencedUpdate → Cache → SequencedUpdate
last_frame u [] = u
last_frame u (v ∷ vs) = last_frame v vs

abbrev pub is_start : MarketUpdateType → Bool
is_start MarketUpdateType.snapshot_start = true
is_start _ = false

abbrev pub is_end : MarketUpdateType → Bool
is_end MarketUpdateType.snapshot_end = true
is_end _ = false

-- The state after an event that the loop accepts.
abbrev pub advance : Progress → (ℕ → Bool) → MarketUpdate → Option Progress
advance p cleared e = elim (apply p.state e) [
  | none ↦ none
  | some s ↦ some (record { cleared = cleared; state = s; events = p.events ++ e ∷ [] })
]

-- One CLEAR for each ticker, before its orders.
abbrev pub add_frame : Progress → MarketUpdate → Option Progress
add_frame p e = if leb max_tickers e.ticker_id then none else elim e.type [
  | MarketUpdateType.clear ↦
      if p.cleared e.ticker_id then none else advance p (update p.cleared e.ticker_id true) e
  | MarketUpdateType.add ↦ if p.cleared e.ticker_id then advance p p.cleared e else none
  | _ ↦ none
]

abbrev pub and_then : Option Progress → (Progress → Option Progress) → Option Progress
and_then none f = none
and_then (some p) f = f p

-- The loop over the snapshot.
unfoldable pub build_snapshot :
    ℕ → SequencedUpdate → SequencedUpdate → Progress → Cache → Option Progress
build_snapshot cycle first last p [] = some p
build_snapshot cycle first last p (u ∷ us) =
    let rest = λ (q : Progress). build_snapshot cycle first last q us in
    if not (u.watermark == first.watermark)
      || not (u.snapshot_cycle == cycle)
      || not (u.state_hash == first.state_hash)
    then none
    else if u.seq_num == 0
    then rest p
    else if is_end u.update.type
    then (if u.seq_num == last.seq_num then rest p else none)
    else and_then (add_frame p u.update) rest

-- The loop over the updates after the snapshot, which count on from `next`.
unfoldable pub build_incremental : ℕ → State → List MarketUpdate → Cache → Option Batch
build_incremental next s events [] =
    some (record { events = events; watermark = (next + 2 ^ 64 - 1) % 2 ^ 64 })
build_incremental next s events (u ∷ us) =
    if u.seq_num == next
    then elim (apply s u.update) [
      | none ↦ none
      | some s' ↦ build_incremental ((next + 1) % 2 ^ 64) s' (events ++ u.update ∷ []) us
    ]
    else none

-- The first number is not 0, or the snapshot is not closed: wait.
abbrev pub is_framed : SequencedUpdate → SequencedUpdate → Bool
is_framed first last = first.seq_num == 0 && is_start first.update.type && is_end last.update.type

-- Both marks carry the watermark and the hash.
abbrev pub marks_agree : SequencedUpdate → SequencedUpdate → Bool
marks_agree first last =
    last.watermark == first.watermark
    && first.update.order_id == first.watermark
    && last.update.order_id == first.watermark
    && first.state_hash == last.state_hash

-- The updates that follow the snapshot begin right after it.
abbrev pub follows : ℕ → Cache → Bool
follows watermark [] = true
follows watermark (u ∷ us) = u.seq_num == (watermark + 1) % 2 ^ 64

abbrev pub all_cleared : ℕ → (ℕ → Bool) → Bool
all_cleared zero cleared = true
all_cleared (suc n) cleared = cleared n && all_cleared n cleared

abbrev pub build_checked : Recovery → SequencedUpdate → Progress → Option Batch × Recovery
build_checked r first p =
    if not (all_cleared max_tickers p.cleared)
    then (none, r)
    else if not (book_hash (flatten p.state) == first.state_hash)
    then (none, record r { hash_failures = r.hash_failures + 1; invalid_cycle = true })
    else (
      build_incremental ((first.watermark + 1) % 2 ^ 64) p.state p.events
          (drop_covered r.incremental first.watermark),
      r,
    )

abbrev pub build_framed : Recovery → SequencedUpdate → SequencedUpdate → Option Batch × Recovery
build_framed r first last =
    if not (last.seq_num == length r.snapshot - 1)
      || not (follows first.watermark (drop_covered r.incremental first.watermark))
    then (none, r)
    else elim (build_snapshot r.cycle first last
        (record { cleared = λ _. false; state = λ _. []; events = [] }) r.snapshot) [
          | none ↦ (none, r)
          | some p ↦ build_checked r first p
        ]

-- `build`
unfoldable pub build : Recovery → Option Batch × Recovery
unfolding build_snapshot build_incremental
build r = elim r.snapshot [
  | [] ↦ (none, r)
  | first ∷ rest ↦
      let last = last_frame first rest in
      if r.invalid_cycle || not (is_framed first last)
      then (none, r)
      else if not (marks_agree first last)
      then (none, record r { invalid_cycle = true; invalid = r.invalid + 1 })
      else build_framed r first last
]

-- `commit`
unfoldable pub commit : Recovery → Batch → Recovery
commit r b = record r {
  expected = (b.watermark + 1) % 2 ^ 64;
  recovering = false;
  snapshot = [];
  incremental = [];
  recoveries = r.recoveries + 1;
}
