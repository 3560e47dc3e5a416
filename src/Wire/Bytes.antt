-- ===== src/Wire/Bytes.antt =====
-- common/order_protocol.h: `put` and `get`, the big-endian bytes of an unsigned field. The width of
-- the field, `sizeof(T)`, is an argument, and a signed field comes as its bit pattern.
use trade_system.Common.{
  ℕ, zero, suc, ◌+◌, ◌*◌, ◌/◌, ◌%◌, ◌^◌, ◌<◌, ◌≤◌, ◌≡◌, ◌∙◌, refl, ap, sym, subst, List, [], ◌∷◌,
  ◌++◌, Outcome, done, fault, arith, ◌>>=◌, length, length-append,
}
use native.Mathlib.Nat.{
  mod-eq_of_lt, mod-lt, one-le-pow, div-add-mod, pow-suc, add-mul-mod_self_left, mul-le-mul_right,
  mul-le-mul_left,
}

-- The loop of `put` for the lowest `n` bytes: `bits >> ((n - 1) * 8)` first.
unfoldable pub put : ℕ → ℕ → List ℕ
put zero bits = []
put (suc n) bits = bits / 256 ^ n % 256 ∷ put n bits

-- The loop of `get`, in a field of `width` bytes of which `n` are to come. A read beyond the
-- buffer is a fault.
unfoldable pub get_from : ℕ → ℕ → ℕ → List ℕ → Outcome (ℕ × List ℕ)
get_from width zero bits input = done (bits, input)
get_from width (suc n) bits [] = fault
get_from width (suc n) bits (b ∷ input) = get_from width n ((bits * 256 + b) % 256 ^ width) input

unfoldable pub get : ℕ → List ℕ → Outcome (ℕ × List ℕ)
unfolding get_from
get width input = get_from width width 0 input

-- One field after the other.
infixr 60 ◌▸◌
abbrev pub ◌▸◌ : List ℕ → List ℕ → List ℕ
p ▸ q = p ++ q

pub length-put : (n bits : ℕ) → length (put n bits) ≡ n
unfolding put
length-put zero bits = refl
length-put (suc n) bits = ap suc (length-put n bits)

regroup : (a c r p : ℕ) → p * (a * 256 + c) + r ≡ c * p + r + p * 256 * a
regroup a c r p = omega arith

top_byte : (c r p : ℕ) → c < 256 → r < p → c * p + r < p * 256
top_byte c r p h k = let top : c ≤ 255 = omega arith in omega (arith, mul-le-mul_right p top)

-- The lowest bytes of a number, and the one above them.
mod-split : (v n : ℕ) → v % 256 ^ suc n ≡ v / 256 ^ n % 256 * 256 ^ n + v % 256 ^ n
mod-split v n =
    let p = 256 ^ n in
    let q = v / p in
    let pos_p : 0 < p = one-le-pow n 256 (omega arith) in
    let whole : v ≡ q % 256 * p + v % p + p * 256 * (q / 256) =
      sym (div-add-mod v p)
      ∙ ap (λ x. p * x + v % p) (omega arith)
      ∙ regroup (q / 256) (q % 256) (v % p) p in
    ap (λ x. x % 256 ^ suc n) whole
    ∙ ap (λ m. (q % 256 * p + v % p + p * 256 * (q / 256)) % m) (pow-suc 256 n)
    ∙ add-mul-mod_self_left (q % 256 * p + v % p) (p * 256) (q / 256)
    ∙ mod-eq_of_lt (top_byte (q % 256) (v % p) p (omega arith) (mod-lt v pos_p))

widen : (bits c p : ℕ) → (bits * 256 + c) * p ≡ bits * (p * 256) + c * p
widen bits c p = omega arith

total :
    (bits v n : ℕ)
    → (bits * 256 + v / 256 ^ n % 256) * 256 ^ n + v % 256 ^ n
      ≡ bits * 256 ^ suc n + v % 256 ^ suc n
total bits v n = omega (
  arith,
  mod-split v n,
  widen bits (v / 256 ^ n % 256) (256 ^ n),
  ap (λ m. bits * m) (pow-suc 256 n),
)

get_from-put :
    (width n bits v : ℕ) (rest : List ℕ)
    → bits * 256 ^ n + v % 256 ^ n < 256 ^ width
    → get_from width n bits (put n v ++ rest) ≡ done (bits * 256 ^ n + v % 256 ^ n, rest)
unfolding get_from put
get_from-put width zero bits v rest h = ap (λ b. done (b, rest)) (omega arith)
get_from-put width (suc n) bits v rest h =
    let bits' = bits * 256 + v / 256 ^ n % 256 in
    let small : bits' < 256 ^ width =
      omega (arith, mul-le-mul_left bits' (one-le-pow n 256 (omega arith)), total bits v n, h) in
    ap (λ b. get_from width n b (put n v ++ rest)) (mod-eq_of_lt small)
    ∙ get_from-put width n bits' v rest (subst (λ t. t < 256 ^ width) (sym (total bits v n)) h)
    ∙ ap (λ b. done (b, rest)) (total bits v n)

-- `get` after `put`, of a value that fits the field.
pub get-put : (n v : ℕ) (rest : List ℕ) → v < 256 ^ n → get n (put n v ++ rest) ≡ done (v, rest)
unfolding get
get-put n v rest h =
    let small : 0 * 256 ^ n + v % 256 ^ n < 256 ^ n =
      omega (arith, mod-lt v (one-le-pow n 256 (omega arith))) in
    let same : 0 * 256 ^ n + v % 256 ^ n ≡ v = omega (arith, mod-eq_of_lt h) in
    get_from-put n n 0 v rest small ∙ ap (λ b. done (b, rest)) same

pub get-put_bind {ℓ} :
    {A : Type ℓ} (n : ℕ) {v : ℕ} {rest : List ℕ} (f : ℕ × List ℕ → Outcome A)
    → v < 256 ^ n
    → (get n (put n v ▸ rest) >>= f) ≡ f (v, rest)
get-put_bind n {v} {rest} f h = ap (λ m. m >>= f) (get-put n v rest h)

pub length-▸ : (n v : ℕ) (rest : List ℕ) → length (put n v ▸ rest) ≡ n + length rest
length-▸ n v rest = omega (arith, length-append (put n v) rest, length-put n v)
