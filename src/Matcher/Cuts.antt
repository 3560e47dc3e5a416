-- ===== src/Matcher/Cuts.antt =====
-- A side cut at one of its levels, and a queue at one of its orders: which slots are where.
use trade_system.Common.{
  ℕ, ◌≡◌, List, [], ◌∷◌, ◌++◌, mem, mem-append, Distinct, Apart, append_assoc, arith, Distinct-left,
  Distinct-right, Distinct-Apart, Bool-cases, inl, inr,
}
use trade_system.MemPool.{MemPool}
use trade_system.Intrusive.{Node}
use trade_system.Intrusive.Leave.{Left}
use trade_system.Matcher.Shape.{
  Level, SameOn, slots_of, orders_of, orders_of-append, slots_of-append, mem-cut,
}

pub slots_of-replace :
    (ls : List Level) (k l : Level) (rs : List Level)
    → k.slot ≡ l.slot
    → slots_of (ls ++ k ∷ rs) ≡ slots_of (ls ++ l ∷ rs)
slots_of-replace [] k l rs e = rw e
slots_of-replace (x ∷ ls) k l rs e = rw (slots_of-replace ls k l rs e)

-- All slots of a side around one level, and all orders around one order of that level.
pub slots_around :
    (ls : List Level) (l : Level) (rs ms : List Level)
    → slots_of (ls ++ l ∷ rs) ++ slots_of ms ≡ slots_of ls ++ l.slot ∷ (slots_of rs ++ slots_of ms)
slots_around ls l rs ms = simp (slots_of-append, append_assoc)

pub orders_around :
    (ls : List Level) (l : Level) (rs ms : List Level)
    → orders_of (ls ++ l ∷ rs) ++ orders_of ms
      ≡ orders_of ls ++ (l.queue ++ (orders_of rs ++ orders_of ms))
orders_around ls l rs ms = simp (orders_of-append, append_assoc)

pub orders_around_order :
    (ls : List Level) (l : Level) (rs ms : List Level) (us : List ℕ) (i : ℕ) (ws : List ℕ)
    → l.queue ≡ us ++ i ∷ ws
    → orders_of (ls ++ l ∷ rs) ++ orders_of ms
      ≡ (orders_of ls ++ us) ++ i ∷ (ws ++ (orders_of rs ++ orders_of ms))
orders_around_order ls l rs ms us i ws e = rw (orders_around ls l rs ms, e) (simp append_assoc)

pub orders_around_gap :
    (ls : List Level) (l : Level) (rs ms : List Level) (us ws : List ℕ)
    → l.queue ≡ us ++ ws
    → orders_of (ls ++ l ∷ rs) ++ orders_of ms
      ≡ (orders_of ls ++ us) ++ (ws ++ (orders_of rs ++ orders_of ms))
orders_around_gap ls l rs ms us ws e = rw (orders_around ls l rs ms, e) (simp append_assoc)

-- In a list without repetition the parts around a middle have nothing in common with it.
pub Distinct-middle :
    (xs q ys : List ℕ) → Distinct (xs ++ (q ++ ys)) → Distinct q × Apart xs q × Apart ys q
Distinct-middle xs q ys d =
    let inner = Distinct-right xs (q ++ ys) d in
    (
      Distinct-left q ys inner,
      λ j m. ground (arith, Distinct-Apart xs (q ++ ys) d j m, mem-append j q ys),
      λ j m. elim (Bool-cases (mem j q)) [
        | inl e ↦ ground (arith, Distinct-Apart q ys inner j e, m)
        | inr e ↦ e
      ],
    )

-- What leaves a queue changes nothing elsewhere.
pub Left-SameOn :
    {T : Type 0} (n : Node T) (p q : MemPool T) (us : List ℕ) (i : ℕ) (ws xs : List ℕ)
    → Left n p q us i ws
    → Apart xs (us ++ i ∷ ws)
    → SameOn n p q xs
Left-SameOn n p q us i ws xs l a j m = (
  (l.elsewhere j (a j m)).0,
  (l.elsewhere j (a j m)).1,
  l.others j (λ e. ground (arith, a j m, mem-cut j us i ws, e)),
)
