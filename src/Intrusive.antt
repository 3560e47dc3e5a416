-- ===== src/Intrusive.antt =====
-- The intrusive rings of exchange/matcher/me_order_book.h and trading/strategy/market_order_book.h:
-- nodes in a pool that hold their own two pointers. The two books have the same code for orders
-- (`prev_order_`, `next_order_`) and for price levels (`prev_entry_`, `next_entry_`), so it is
-- written once over the interface `Node`.
pub mod Laws
pub mod Insert
pub mod Unlink
pub mod Leave
pub mod Mapped
use trade_system.Common.{
  ℕ, ◌≡◌, ◌==◌, Bool, true, false, Option, none, some, Outcome, done, fault, deref, ◌>>=◌,
}
use trade_system.MemPool
use trade_system.MemPool.{MemPool}

-- A struct with the two pointers of a ring. `bare` is its contents without them.
pub record Node (T : Type 0) : Type 0 where
  pub next : T → Option ℕ
  pub prev : T → Option ℕ
  pub with_next : T → Option ℕ → T
  pub with_prev : T → Option ℕ → T
  pub bare : T → T
  pub next-with_next : (o : T) (v : Option ℕ) → next (with_next o v) ≡ v
  pub prev-with_next : (o : T) (v : Option ℕ) → prev (with_next o v) ≡ prev o
  pub bare-with_next : (o : T) (v : Option ℕ) → bare (with_next o v) ≡ bare o
  pub next-with_prev : (o : T) (v : Option ℕ) → next (with_prev o v) ≡ next o
  pub prev-with_prev : (o : T) (v : Option ℕ) → prev (with_prev o v) ≡ v
  pub bare-with_prev : (o : T) (v : Option ℕ) → bare (with_prev o v) ≡ bare o

-- `p == i`, of a pointer that may be null.
abbrev pub ptr_eq : Option ℕ → ℕ → Bool
ptr_eq none i = false
ptr_eq (some j) i = j == i

module _ {T : Type 0} (n : Node T) where
  -- `p->next`, `p->prev`, `p->next = v`, `p->prev = v`
  unfoldable pub get_next : MemPool T → ℕ → Outcome (Option ℕ)
  get_next p i = do o ← deref (p.block i); done (n.next o)

  unfoldable pub get_prev : MemPool T → ℕ → Outcome (Option ℕ)
  get_prev p i = do o ← deref (p.block i); done (n.prev o)

  unfoldable pub set_next : MemPool T → ℕ → Option ℕ → Outcome (MemPool T)
  set_next p i v = do o ← deref (p.block i); done (MemPool.store p i (n.with_next o v))

  unfoldable pub set_prev : MemPool T → ℕ → Option ℕ → Outcome (MemPool T)
  set_prev p i v = do o ← deref (p.block i); done (MemPool.store p i (n.with_prev o v))

  -- The last lines of `addOrder`: `i` goes before `first`, to the end of the queue.
  unfoldable pub push_back : MemPool T → ℕ → ℕ → Outcome (MemPool T)
  unfolding get_prev set_next set_prev
  push_back p first i = do
    last_ptr ← get_prev p first
    last ← deref last_ptr
    p₁ ← set_next p last (some i)
    before ← get_prev p₁ first
    p₂ ← set_prev p₁ i before
    p₃ ← set_next p₂ i (some first)
    set_prev p₃ first (some i)

  -- The last lines of `addOrdersAtPrice`: `i` goes before `target`.
  unfoldable pub insert_before : MemPool T → ℕ → ℕ → Outcome (MemPool T)
  unfolding get_prev set_next set_prev
  insert_before p target i = do
    before ← get_prev p target
    p₁ ← set_prev p i before
    p₂ ← set_next p₁ i (some target)
    last_ptr ← get_prev p₂ target
    last ← deref last_ptr
    p₃ ← set_next p₂ last (some i)
    set_prev p₃ target (some i)

  -- The middle of `removeOrder`: the neighbours of `i`, read first, close up.
  unfoldable pub close_up : MemPool T → ℕ → Outcome (MemPool T)
  unfolding get_next get_prev set_next set_prev
  close_up p i = do
    before_ptr ← get_prev p i
    after_ptr ← get_next p i
    before ← deref before_ptr
    p₁ ← set_next p before after_ptr
    after ← deref after_ptr
    set_prev p₁ after before_ptr

  -- The middle of `removeOrdersAtPrice`, which reads the pointers of `i` again for the second write.
  unfoldable pub close_up_entry : MemPool T → ℕ → Outcome (MemPool T)
  unfolding get_next get_prev set_next set_prev
  close_up_entry p i = do
    before_ptr ← get_prev p i
    before ← deref before_ptr
    after_ptr ← get_next p i
    p₁ ← set_next p before after_ptr
    after_again ← get_next p₁ i
    after ← deref after_again
    before_again ← get_prev p₁ i
    set_prev p₁ after before_again

  -- `p->prev = p->next = nullptr`
  unfoldable pub clear_links : MemPool T → ℕ → Outcome (MemPool T)
  unfolding set_next set_prev
  clear_links p i = do p₁ ← set_next p i none; set_prev p₁ i none
