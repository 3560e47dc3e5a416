-- ===== src/LfQueue/Cursor.antt =====
-- The arithmetic of the cursors: round a period of twice the capacity, and into the slots.
use trade_system.Common.{
  ℕ, suc, ◌+◌, ◌-◌, ◌*◌, ◌%◌, ◌<◌, ◌≤◌, ◌≡◌, ◌∙◌, ◌⊎◌, inl, inr, ltb, ◌==◌, if◌then◌else◌, arith,
  false,
}
use trade_system.LfQueue.{next, distance}
use native.Mathlib.Nat.{mod-eq_of_lt, mod-eq-sub-mod}

mod_once : (a n : ℕ) → a < n + n → a % n ≡ (if ltb a n then a else a - n)
mod_once a n h = elim (compare-cases a n) [
  | inl lt ↦ ground (arith, mod-eq_of_lt lt)
  | inr ge ↦ mod-eq-sub-mod ge ∙ mod-eq_of_lt {n = a - n} {m = n} (omega arith) ∙ ground (arith, ge)
]
  where
    compare-cases : (a n : ℕ) → (a < n) ⊎ (n ≤ a)
    compare-cases a n = omega arith

-- The three functions of cursors, without division.
pub next_lem : (c i : ℕ) → i < c * 2 → next c i ≡ (if i + 1 == c * 2 then 0 else i + 1)
next_lem c i h = mod_once (i + 1) (c * 2) (omega arith) ∙ ground arith

pub slot_lem : (c i : ℕ) → i < c * 2 → i % c ≡ (if ltb i c then i else i - c)
slot_lem c i h = mod_once i c (omega arith)

pub distance_lem :
    (c t h : ℕ)
    → t < c * 2
    → h < c * 2
    → distance c t h ≡ (if ltb t h then t + c * 2 - h else t - h)
distance_lem c t h a b = mod_once (t + c * 2 - h) (c * 2) (omega arith) ∙ ground arith

-- The cursor `n` places after `c`.
abbrev pub ahead : ℕ → ℕ → ℕ → ℕ
ahead room c n = if ltb (c + n) (room * 2) then c + n else c + n - room * 2

pub ahead-suc :
    (room c n : ℕ) → c < room * 2 → n < room * 2 → next room (ahead room c n) ≡ ahead room c (suc n)
ahead-suc room c n h k = next_lem room (ahead room c n) (ground arith) ∙ ground arith

pub ahead_next :
    (room c n : ℕ)
    → c < room * 2
    → suc n < room * 2
    → ahead room (next room c) n ≡ ahead room c (suc n)
ahead_next room c n h k = ground (arith, next_lem room c h)

pub next-below : (room c : ℕ) → c < room * 2 → next room c < room * 2
next-below room c h = ground (arith, next_lem room c h)

pub apart :
    (room c n : ℕ) → c < room * 2 → 0 < n → n < room → (ahead room c n % room == c % room) ≡ false
apart room c n h p k =
    ground (arith, slot_lem room (ahead room c n) (ground arith), slot_lem room c h)

pub used-ahead : (room c n : ℕ) → c < room * 2 → n < room * 2 → distance room (ahead room c n) c ≡ n
used-ahead room c n h k = distance_lem room (ahead room c n) c (ground arith) h ∙ ground arith

pub ahead-below : (room c n : ℕ) → c < room * 2 → n < room * 2 → ahead room c n < room * 2
ahead-below room c n h k = ground arith
