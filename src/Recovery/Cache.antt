-- ===== src/Recovery/Cache.antt =====
-- The cache of a client that recovers stays within its limit.
use trade_system.Common.{
  ℕ, ◌+◌, ◌≤◌, ◌≡◌, refl, ◌==◌, ltb, if◌then◌else◌, not, ◌||◌, Bool, true, false, [], ◌∷◌, length,
  arith, Bool-cases, Option-cases, inl, inr, ◌∙◌, sym, subst, if_both, ◌&&◌,
}
use trade_system.Messages.{SequencedUpdate}
use trade_system.Recovery.{
  Recovery, Cache, cached, live_candidate, find_cached, drop_covered, begin_cycle, put_cached,
  check_limit, ingest_again, ingest_into, ingest,
}

length-drop_covered : (us : Cache) (w : ℕ) → length (drop_covered us w) ≤ length us
length-drop_covered [] w = omega arith
length-drop_covered (u ∷ us) w = ground (arith, length-drop_covered us w)

-- The limit holds, and it is that of before.
abbrev pub Within : Recovery → Bool × Recovery → Type 0
Within r x = (x.1.limit ≡ r.limit) × (cached x.1 ≤ r.limit)

begin_cycle-Within :
    (r : Recovery) (u : SequencedUpdate) → cached r ≤ r.limit → Within r (false, begin_cycle r u)
begin_cycle-Within r u h =
    if_both (λ x. Within r (false, x)) (ltb r.cycle u.snapshot_cycle)
      (refl, omega (arith, h, length-drop_covered r.incremental u.watermark)) (refl, h)

check_limit-Within : (r : Recovery) → Within r (check_limit r)
check_limit-Within r = elim (Bool-cases (ltb r.limit (cached r))) [
  | inl e ↦ rw (e) (refl, omega arith)
  | inr e ↦ rw (e) (refl, ground (arith, e))
]

ingest_again-Within :
    (r : Recovery) (snapshot : Bool) (old u : SequencedUpdate)
    → cached r ≤ r.limit
    → Within r (ingest_again r snapshot old u)
ingest_again-Within r true old u h = if_both (Within r) _ (refl, h) (refl, omega (arith, h))
ingest_again-Within r false old u h =
    if_both (Within r) _ (check_limit-Within (record r { duplicates = r.duplicates + 1 }))
      (refl, omega arith)

limit-put_cached :
    (r : Recovery) (snapshot : Bool) (u : SequencedUpdate)
    → (put_cached r snapshot u).limit ≡ r.limit
limit-put_cached r true u = refl
limit-put_cached r false u = refl

ingest_into-Within :
    (r : Recovery) (snapshot : Bool) (u : SequencedUpdate)
    → cached r ≤ r.limit
    → Within r (ingest_into r snapshot u)
ingest_into-Within r snapshot u h =
    elim (Option-cases (find_cached (if snapshot then r.snapshot else r.incremental) u.seq_num)) [
      | inl e ↦
          let (same, small) = check_limit-Within (put_cached r snapshot u) in
          let l = limit-put_cached r snapshot u in
          rw (ingest_into, e)
            (same ∙ l, subst (λ n. cached (check_limit (put_cached r snapshot u)).1 ≤ n) l small)
      | inr (old, e) ↦ rw (ingest_into, e) (ingest_again-Within r snapshot old u h)
    ]

-- `ingest`: whatever frame arrives, the two caches together never hold more frames than the limit.
pub ingest-Within :
    (r : Recovery) (snapshot : Bool) (u : SequencedUpdate)
    → cached r ≤ r.limit
    → Within r (ingest r snapshot u)
unfolding ingest
ingest-Within r snapshot u h =
    let r₁ = begin_cycle r u in
    let (same, small) = begin_cycle-Within r u h in
    let (same', small') =
      ingest_into-Within r₁ true u (subst (λ n. cached r₁ ≤ n) (sym same) small) in
    let moved : Within r (ingest_into r₁ true u) =
      (same' ∙ same, subst (λ n. cached (ingest_into r₁ true u).1 ≤ n) same small') in
    if_both (Within r) (not r.recovering) (refl, h)
      (if_both (Within r) (not snapshot) (ingest_into-Within r false u h) (
        if_both (Within r) (u.snapshot_cycle == 0 || ltb u.snapshot_cycle r.cycle) (refl, h)
          (if_both (Within r) r₁.invalid_cycle (same, small) moved)))

-- `liveCandidate`: only the expected number is let through, a gap and nothing else makes the
-- client recover, and the expected number stays until `commitLive`.
pub live_candidate_lem :
    (r : Recovery) (u : SequencedUpdate)
    → ((live_candidate r u).0 ≡ (not r.recovering && u.seq_num == r.expected))
      × ((live_candidate r u).1.recovering ≡ (r.recovering || ltb r.expected u.seq_num))
      × ((live_candidate r u).1.expected ≡ r.expected)
unfolding live_candidate
live_candidate_lem r u = (ground arith, ground arith, ground arith)
