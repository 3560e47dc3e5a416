-- ===== src/Tcp/Buffer.antt =====
-- The outbound buffer's memory: reading what was copied or moved.
use trade_system.Common.{
  ℕ, zero, suc, ◌+◌, ◌<◌, ◌≡◌, ◌∙◌, refl, ap, List, [], ◌∷◌, ◌++◌, length, arith, update,
}
use trade_system.Tcp.{copy, read, move_front}

pub read-congr :
    (m m' : ℕ → ℕ) (b b' n : ℕ)
    → ((j : ℕ) → j < n → m (b + j) ≡ m' (b' + j))
    → read m b n ≡ read m' b' n
read-congr m m' b b' zero h = refl
read-congr m m' b b' (suc n) h =
    let first : m b ≡ m' b' = ap m (omega arith) ∙ h 0 (omega arith) ∙ ap m' (omega arith) in
    ap (λ x. x ∷ read m (b + 1) n) first
    ∙ ap (λ xs. m' b' ∷ xs)
        (read-congr m m' (b + 1) (b' + 1) n
          (λ j l. ap m (omega arith) ∙ h (suc j) (omega (arith, l)) ∙ ap m' (omega arith)))

pub read-append : (m : ℕ → ℕ) (b k n : ℕ) → read m b (k + n) ≡ read m b k ++ read m (b + k) n
read-append m b zero n =
    let left : 0 + n ≡ n = omega arith in
    let right : b + 0 ≡ b = omega arith in rw (left, right) refl
read-append m b (suc k) n =
    let left : suc k + n ≡ suc (k + n) = omega arith in
    let right : b + suc k ≡ b + 1 + k = omega arith in
    rw (left, right) (ap (λ xs. m b ∷ xs) (read-append m (b + 1) k n))

pub copy-before : (m : ℕ → ℕ) (b : ℕ) (xs : List ℕ) (j : ℕ) → j < b → copy m b xs j ≡ m j
copy-before m b [] j h = refl
copy-before m b (x ∷ xs) j h =
    copy-before (update m b x) (b + 1) xs j (omega (arith, h)) ∙ ground (arith, h)

pub read-copy : (m : ℕ → ℕ) (b : ℕ) (xs : List ℕ) → read (copy m b xs) b (length xs) ≡ xs
read-copy m b [] = refl
read-copy m b (x ∷ xs) =
    ap (λ y. y ∷ read (copy (update m b x) (b + 1) xs) (b + 1) (length xs))
      (copy-before (update m b x) (b + 1) xs b (omega arith) ∙ ground arith)
    ∙ ap (λ ys. x ∷ ys) (read-copy (update m b x) (b + 1) xs)

-- Bytes copied behind `n` others.
pub read-append_copy :
    (m : ℕ → ℕ) (b n : ℕ) (xs : List ℕ)
    → read (copy m (b + n) xs) b (n + length xs) ≡ read m b n ++ xs
read-append_copy m b n xs =
    read-append (copy m (b + n) xs) b n (length xs)
    ∙ ap (λ ys. ys ++ read (copy m (b + n) xs) (b + n) (length xs))
        (read-congr (copy m (b + n) xs) m b b n
          (λ j h. copy-before m (b + n) xs (b + j) (omega (arith, h))))
    ∙ ap (λ ys. read m b n ++ ys) (read-copy m (b + n) xs)

pub read-move_front : (m : ℕ → ℕ) (b n : ℕ) → read (move_front m b n) 0 n ≡ read m b n
read-move_front m b n = read-congr (move_front m b n) m 0 b n (λ j h. ground (arith, h))
