-- ===== src/Recovery/Gapless.antt =====
-- A batch closes the gap: what it holds after the snapshot is the run of updates that follows it.
use trade_system.Common.{
  ℕ, ◌+◌, ◌-◌, ◌%◌, ◌^◌, ◌<◌, ◌≡◌, ◌∙◌, refl, ap, sym, ◌==◌, false, List, [], ◌∷◌, ◌++◌, length,
  some, arith, Bool-cases, Option-cases, inl, inr, append_assoc, append-nil,
}
use trade_system.Messages.{MarketUpdate}
use trade_system.Recovery.{Cache, Recovery}
use trade_system.Recovery.Apply.{State, apply}
use trade_system.Recovery.Build.{Batch, build_incremental, commit}

abbrev pub updates_in : Cache → List MarketUpdate
updates_in [] = []
updates_in (u ∷ us) = u.update ∷ updates_in us

-- The numbers of the frames are `n`, `n + 1` and so on, on 64 bits.
abbrev pub CountsFrom : ℕ → Cache → Type 0
CountsFrom n [] = Unit
CountsFrom n (u ∷ us) = (u.seq_num ≡ n) × CountsFrom ((n + 1) % 2 ^ 64) us

-- What a batch that was built of these frames holds, and what the client expects once it is
-- committed.
pub record Closed (r : Recovery) (next : ℕ) (events : List MarketUpdate) (us : Cache) (b : Batch)
    : Type 0 where
  pub counts : CountsFrom next us
  pub all_events : b.events ≡ events ++ updates_in us
  pub expected : (commit r b).expected ≡ (next + length us) % 2 ^ 64
  pub live : (commit r b).recovering ≡ false

-- A batch that `build` makes of the updates after a snapshot, from a number below 2^64 on, holds all
-- of them after the events of the snapshot, numbered without a gap and in their order; after `commit`
-- the client is live and expects the next one; all modulo 2^64.
pub build_incremental-Closed :
    (r : Recovery) (next : ℕ) (s : State) (events : List MarketUpdate) (us : Cache) (b : Batch)
    → next < 2 ^ 64
    → build_incremental next s events us ≡ some b
    → Closed r next events us b
unfolding build_incremental commit
build_incremental-Closed r next s events [] b pos h =
    let same : record { events = events; watermark = (next + 2 ^ 64 - 1) % 2 ^ 64 } ≡ b = cc in
    record {
      counts = tt;
      all_events = sym (ap (λ (x : Batch). x.events) same) ∙ sym (append-nil events);
      expected = omega (arith, pos, ap (λ (x : Batch). x.watermark) same);
      live = refl;
    }
build_incremental-Closed r next s events (u ∷ us) b pos h = elim (Bool-cases (u.seq_num == next)) [
  | inr e ↦ let k = rw (e) at h in cc
  | inl e ↦ elim (Option-cases (apply s u.update)) [
    | inl f ↦ let k = rw (e, f) at h in cc
    | inr (s', f) ↦
        let rest =
          build_incremental-Closed r ((next + 1) % 2 ^ 64) s' (events ++ u.update ∷ []) us b
            (omega arith) (rw (e, f) at h) in
        record {
          counts = (ground (arith, e), rest.counts);
          all_events = rest.all_events ∙ append_assoc events (u.update ∷ []) (updates_in us);
          expected = omega (arith, rest.expected);
          live = refl;
        }
  ]
]
