-- ===== src/Consumer/Output.antt =====
-- What reaches the trade engine: the next increment, or a whole batch with its mark.
use trade_system.Common.{
  ℕ, zero, suc, ◌+◌, ◌%◌, ◌^◌, ◌<◌, ◌≤◌, ◌≡◌, ◌∙◌, ◌⊎◌, inl, inr, refl, ap, sym, subst, ◌==◌, ◌&&◌,
  ◌||◌, not, ltb, leb, if◌then◌else◌, Bool, true, false, List, [], ◌∷◌, ◌++◌, length, length-take,
  length-drop, take, drop, Option, none, some, Returns, Returns-bind, arith, Bool-cases, if_both,
  if_true, if_false,
}
use trade_system.Messages.{MarketUpdate, SequencedUpdate}
use trade_system.LfQueue
use trade_system.LfQueue.{LfQueue}
use trade_system.LfQueue.Refine.{IsValid, contents, try_push_lem}
use trade_system.LfQueue.Batch.{try_push_batch_lem}
use trade_system.Recovery.{Recovery, live_candidate, ingest}
use trade_system.Recovery.Cache.{live_candidate_lem}
use trade_system.Recovery.Build.{Batch, build}
use trade_system.Wire.Market.{decode_update}
use trade_system.Wire.Total.{Any, decode_update-Returns}
use trade_system.Consumer.{
  Consumer, renew, stale, on_frame, is_foreign, frames, receive, commit_mark, take_candidate,
  recover, process_live, process,
}

-- The recovery that a frame is added to: the one there is, or for a client that was up to date a
-- new one with empty caches.
abbrev pub Collects : Consumer → Recovery → Type 0
Collects c r =
    ((c.recovery.recovering ≡ true) × (r ≡ c.recovery))
    ⊎ ((c.recovery.recovering ≡ false)
        × (r.recovering ≡ true)
        × (r.snapshot ≡ [])
        × (r.incremental ≡ []))

-- What one frame puts into the queue: nothing; or, for a client that is up to date, the frame
-- itself, which has the expected number, and then the next number is expected; or a whole batch
-- that could be built from the caches with this frame added, closed by the mark of the generation
-- that is observed now, and then the number behind its watermark is expected.
abbrev pub Put : Consumer → Bool → SequencedUpdate → Consumer → Type 0
Put c snapshot u d =
    (contents d.output ≡ contents c.output)
    ⊎ ((contents d.output ≡ contents c.output ++ u.update ∷ [])
        × (c.recovery.recovering ≡ false)
        × (snapshot ≡ false)
        × (u.seq_num ≡ c.recovery.expected)
        × (d.recovery.expected ≡ (u.seq_num + 1) % 2 ^ 64))
    ⊎ ((b : Batch) × (r : Recovery) × Collects c r
        × ((build (ingest r snapshot u).1).0 ≡ some b)
        × (d.recovery.recovering ≡ false)
        × (d.recovery.expected ≡ (b.watermark + 1) % 2 ^ 64)
        × (contents d.output
            ≡ contents c.output ++ (b.events ++ commit_mark d.observed_generation b ∷ [])))

-- A client that is up to date stays so, or a new generation begins.
abbrev pub InTime : Consumer → ℕ → Bool → Type 0
InTime c generation recovering =
    ((generation ≡ c.generation) × (c.recovery.recovering ≡ false → recovering ≡ false))
    ⊎ (generation ≡ (c.generation + 1) % 2 ^ 64)

-- The frame, and the queue stays valid.
pub record Processed (c : Consumer) (snapshot : Bool) (u : SequencedUpdate) (d : Consumer)
    : Type 0 where
  pub valid : IsValid d.output
  pub put : Put c snapshot u d
  pub in_time : InTime c d.generation d.recovery.recovering

-- Before the caches are used: the client was not up to date, or a new generation has begun.
abbrev Ready : Consumer → Consumer → Type 0
Ready c e =
    ((e.generation ≡ c.generation) × (c.recovery.recovering ≡ true))
    ⊎ (e.generation ≡ (c.generation + 1) % 2 ^ 64)

Ready-InTime : (c e : Consumer) (b : Bool) → Ready c e → InTime c e.generation b
Ready-InTime c e b (inl (a, h)) = inl (a, λ z. cc)
Ready-InTime c e b (inr a) = inr a

take_candidate-Processed :
    (c e : Consumer) (snapshot : Bool) (u : SequencedUpdate) (r : Recovery) (o : Option Batch)
    → IsValid e.output
    → contents e.output ≡ contents c.output
    → Collects c r
    → (build (ingest r snapshot u).1).0 ≡ o
    → Ready c e
    → Processed c snapshot u (take_candidate e o)
unfolding trade_system.Recovery.Build.commit
take_candidate-Processed c e snapshot u r none v q k h t = record {
  valid = v;
  put = inl q;
  in_time = Ready-InTime c e _ t;
}
take_candidate-Processed c e snapshot u r (some b) v q k h t =
    let events = b.events ++ commit_mark e.observed_generation b ∷ [] in
    let (a, answer, after) = try_push_batch_lem e.output events v in
    elim (Bool-cases (leb (length (contents e.output) + length events) e.output.capacity)) [
      | inl f ↦ rw (answer ∙ f) (record {
        valid = a;
        put = inr (
            inr (
              b,
              r,
              k,
              h,
              refl,
              refl,
              after
                  ∙ ap (λ z. if z then contents e.output ++ events else contents e.output) f
                  ∙ ap (λ l. l ++ events) q,
            ));
        in_time = Ready-InTime c e _ t;
      })
      | inr f ↦ rw (answer ∙ f) (record {
        valid = a;
        put =
            inl (
              after ∙ ap (λ z. if z then contents e.output ++ events else contents e.output) f ∙ q);
        in_time = Ready-InTime c e _ t;
      })
    ]

recover-Processed :
    (c e : Consumer) (snapshot : Bool) (u : SequencedUpdate)
    → IsValid e.output
    → contents e.output ≡ contents c.output
    → Collects c e.recovery
    → Ready c e
    → Processed c snapshot u (recover e snapshot u)
unfolding recover
recover-Processed c e snapshot u v q k t =
    let r = (ingest e.recovery snapshot u).1 in
    take_candidate-Processed c (record e { recovery = (build r).1 }) snapshot u e.recovery
      (build r).0 v q k refl t

-- A gap empties the caches.
gap_empties :
    (r : Recovery) (u : SequencedUpdate)
    → r.recovering ≡ false
    → (live_candidate r u).1.recovering ≡ true
    → ((live_candidate r u).1.snapshot ≡ []) × ((live_candidate r u).1.incremental ≡ [])
unfolding live_candidate
gap_empties r u l g = elim (Bool-cases (u.seq_num == r.expected)) [
  | inl a ↦ absurd (ground (arith, l, g, a))
  | inr a ↦ elim (Bool-cases (ltb u.seq_num r.expected)) [
    | inl b ↦ absurd (ground (arith, l, g, a, b))
    | inr b ↦ rw (l, a, b) (refl, refl)
  ]
]

process_live-Processed :
    (c : Consumer) (u : SequencedUpdate)
    → c.recovery.recovering ≡ false
    → IsValid c.output
    → Processed c false u (process_live c u)
unfolding process_live
process_live-Processed c u l v =
    let (first, mode, number) = live_candidate_lem c.recovery u in
    let next = live_candidate c.recovery u in
    let (a, answer, after) = try_push_lem c.output u.update v in
    let has_room = ltb (length (contents c.output)) c.output.capacity in
    let queue : Bool → List MarketUpdate =
      λ z. if z then contents c.output ++ u.update ∷ [] else contents c.output in
    elim (Bool-cases next.0) [
      | inl e ↦ elim (Bool-cases has_room) [
        | inl f ↦
            rw (e, answer ∙ f)
              (record {
                valid = a;
                put = inr (
                    inl (
                      after ∙ ap queue f,
                      l,
                      refl,
                      ground (arith, e, first),
                      ap (λ k. (k + 1) % 2 ^ 64) number ∙ ground (arith, e, first),
                    ));
                in_time = inl (refl, λ z. mode ∙ ground (arith, e, first, z));
              })
        | inr f ↦
            rw (e, answer ∙ f)
              (recover-Processed c
                (stale
                  (record c { recovery = next.1; output = (LfQueue.try_push c.output u.update).1 }))
                false u a (after ∙ ap queue f) (inr (l, refl, refl, refl)) (inr refl))
      ]
      | inr e ↦ elim (Bool-cases next.1.recovering) [
        | inl g ↦
            rw (e, g)
              (recover-Processed c
                (record (renew (record c { recovery = next.1 })) { candidate = none }) false u v
                refl
                (inr (l, g, (gap_empties c.recovery u l g).0, (gap_empties c.recovery u l g).1))
                (inr refl))
        | inr g ↦ rw (e, g) (record { valid = v; put = inl refl; in_time = inl (refl, λ z. g) })
      ]
    ]

-- `process` on any frame, with a valid queue: what goes into the queue is nothing, or the frame of
-- a client that is up to date and expects just this number, or all of a batch that was built from
-- the caches with this frame added (they were empty before, if the client was up to date) with the
-- mark of the observed generation behind it; the number behind the last one is expected next; and
-- a client that was up to date still is, or has begun a new generation.
pub process-Processed :
    (c : Consumer) (snapshot : Bool) (u : SequencedUpdate)
    → IsValid c.output
    → Processed c snapshot u (process c snapshot u)
unfolding process
process-Processed c snapshot u v = elim (Bool-cases c.recovery.recovering) [
  | inl e ↦
      subst (Processed c snapshot u) (sym (if_true c.recovery.recovering _ _ e))
        (recover-Processed c c snapshot u v refl (inl (e, refl)) (inl (refl, e)))
  | inr e ↦
      subst (Processed c snapshot u) (sym (if_false c.recovery.recovering _ _ e))
        (by_channel snapshot e)
]
  where
    by_channel :
        (b : Bool)
        → c.recovery.recovering ≡ false
        → Processed c b u (if b then c else process_live c u)
    by_channel true e = record { valid = v; put = inl refl; in_time = inl (refl, λ z. z) }
    by_channel false e = process_live-Processed c u e v

abbrev pub Valid : Consumer → Type 0
Valid c = IsValid c.output

frames-Returns :
    (fuel : ℕ) (c : Consumer) (snapshot : Bool) (input : List ℕ)
    → IsValid c.output
    → length input % 70 ≡ 0
    → length input < fuel
    → Returns Valid (frames fuel c snapshot input)
unfolding frames
frames-Returns zero c snapshot input v w f = absurd (omega (arith, f))
frames-Returns (suc fuel) c snapshot input v w f = elim (Bool-cases (length input == 0)) [
  | inl e ↦ rw (e) v
  | inr e ↦
      let full : 70 ≤ length input = ground (arith, e, w) in
      let fewer = length-drop 70 input in
      rw (e) (
        Returns-bind Any Valid (decode_update (take 70 input)) _
          (decode_update-Returns (take 70 input) (length-take 70 input full))
          (λ o u.
            if_both (Returns Valid) (on_frame c snapshot o).0
              (frames-Returns fuel (on_frame c snapshot o).1 snapshot (drop 70 input)
                (on_frame-Valid o) (omega (arith, fewer, full, w)) (omega (arith, fewer, full, f)))
              (on_frame-Valid o)))
]
  where
    on_frame-Valid : (o : Option SequencedUpdate) → IsValid (on_frame c snapshot o).1.output
    on_frame-Valid none = v
    on_frame-Valid (some u) =
        if_both (λ (x : Bool × Consumer). IsValid x.1.output) (not snapshot && is_foreign u) v
          (process-Processed c snapshot u v).valid

-- `receive` of any datagram, cut or not, on either channel: it returns, with a valid queue.
pub receive-Valid :
    (c : Consumer) (snapshot fault_ : Bool) (input : List ℕ)
    → IsValid c.output
    → Returns Valid (receive c snapshot fault_ input)
unfolding receive
receive-Valid c snapshot fault_ input v =
    if_both (Returns Valid) (snapshot && not c.recovery.recovering) v
      (elim (Bool-cases (fault_ || not (length input % 70 == 0))) [
        | inl e ↦ rw (e) v
        | inr e ↦ rw (e) (
            frames-Returns (suc (length input)) c snapshot input v (ground (arith, e))
              (omega arith))
      ])
