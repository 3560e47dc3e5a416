-- ===== src/Snapshot/Frames.antt =====
-- The frames of a snapshot are those that a recovering client looks for.
use trade_system.Common.{
  ℕ, suc, ◌+◌, ◌≡◌, ◌∙◌, refl, ap, true, List, [], ◌∷◌, ◌++◌, length, length-append, arith, All,
}
use trade_system.Types.{ticker_id_invalid}
use trade_system.Messages.{MarketUpdate, MarketUpdateType, SequencedUpdate}
use trade_system.Recovery.Build.{is_framed, marks_agree, last_frame}
use trade_system.Snapshot.{mark, number_frames, snapshot_frames}

-- The numbers of the frames are `n`, `n + 1` and so on.
abbrev pub CountsFrom : ℕ → List SequencedUpdate → Type 0
CountsFrom n [] = Unit {0}
CountsFrom n (u ∷ us) = (u.seq_num ≡ n) × CountsFrom (n + 1) us

-- All frames name one cycle, one watermark and one hash.
abbrev pub IsUniform : ℕ → ℕ → ℕ → List SequencedUpdate → Type 0
IsUniform cycle watermark hash us =
    All (λ u. (u.snapshot_cycle ≡ cycle) × (u.watermark ≡ watermark) × (u.state_hash ≡ hash)) us

-- A snapshot whose first and last frame a client accepts as the two marks of one snapshot, and
-- whose numbers tell that none is missing.
abbrev pub IsSnapshot : List SequencedUpdate → Type 0
IsSnapshot [] = ⊥
IsSnapshot (first ∷ rest) =
    (is_framed first (last_frame first rest) ≡ true)
    × (marks_agree first (last_frame first rest) ≡ true)
    × ((last_frame first rest).seq_num ≡ length rest)

module _ (cycle watermark hash : ℕ) where
  number_frames-CountsFrom :
      (n : ℕ) (es : List MarketUpdate) → CountsFrom n (number_frames cycle watermark hash n es)
  unfolding number_frames
  number_frames-CountsFrom n [] = tt
  number_frames-CountsFrom n (e ∷ es) = (refl, number_frames-CountsFrom (n + 1) es)

  number_frames-IsUniform :
      (n : ℕ) (es : List MarketUpdate)
      → IsUniform cycle watermark hash (number_frames cycle watermark hash n es)
  unfolding number_frames
  number_frames-IsUniform n [] = tt
  number_frames-IsUniform n (e ∷ es) = ((refl, refl, refl), number_frames-IsUniform (n + 1) es)

  length-number_frames :
      (n : ℕ) (es : List MarketUpdate)
      → length (number_frames cycle watermark hash n es) ≡ length es
  unfolding number_frames
  length-number_frames n [] = refl
  length-number_frames n (e ∷ es) = ap suc (length-number_frames (n + 1) es)

  frame : ℕ → MarketUpdate → SequencedUpdate
  frame n e = record {
    seq_num = n;
    update = e;
    snapshot_cycle = cycle;
    watermark = watermark;
    state_hash = hash;
  }

  last_frame-number_frames :
      (n : ℕ) (es : List MarketUpdate) (e : MarketUpdate) (u : SequencedUpdate)
      → last_frame u (number_frames cycle watermark hash n (es ++ e ∷ [])) ≡ frame (n + length es) e
  unfolding number_frames frame
  last_frame-number_frames n [] e u = ap (λ k. frame k e) (omega arith)
  last_frame-number_frames n (x ∷ es) e u =
      last_frame-number_frames (n + 1) es e (frame n x) ∙ ap (λ k. frame k e) (omega arith)

  -- `publishSnapshot`: whatever the events between the marks, the frames of a cycle carry one cycle,
  -- watermark and hash, are numbered from 0 without a gap, and are closed by the marks that
  -- `build` of a recovering client asks for.
  pub snapshot_frames-IsSnapshot :
      (es : List MarketUpdate)
      → CountsFrom 0 (snapshot_frames cycle watermark hash es)
        × IsUniform cycle watermark hash (snapshot_frames cycle watermark hash es)
        × IsSnapshot (snapshot_frames cycle watermark hash es)
  unfolding number_frames frame
  snapshot_frames-IsSnapshot es =
      let start = mark MarketUpdateType.snapshot_start watermark ticker_id_invalid in
      let end = mark MarketUpdateType.snapshot_end watermark ticker_id_invalid in
      let last = last_frame-number_frames 1 es end (frame 0 start) in
      (
        number_frames-CountsFrom 0 (start ∷ es ++ end ∷ []),
        number_frames-IsUniform 0 (start ∷ es ++ end ∷ []),
        rw (last) (
          refl,
          ground arith,
          omega (arith, length-number_frames 1 (es ++ end ∷ []), length-append es (end ∷ [])),
        ),
      )
