-- ===== src/Wire/Total.antt =====
-- Decoding a frame of the full length reads no byte beyond it.
use trade_system.Common.{
  ℕ, zero, suc, ◌+◌, ◌≡◌, List, [], ◌∷◌, length, arith, Outcome, ◌>>=◌, Returns, Returns-bind,
  Option, none, some, if_both, not, leb, ◌&&◌, ◌==◌,
}
use trade_system.Wire.Bytes.{get, get_from}
use trade_system.Wire.Orders.{
  get_magic, get_header, header_fields, request_fields, response_fields, decode_request,
  decode_response,
}
use trade_system.Wire.Market.{decode_update, update_fields}

get_from-Returns :
    (width n bits m : ℕ) (p : List ℕ)
    → length p ≡ n + m
    → Returns (λ x. length x.1 ≡ m) (get_from width n bits p)
unfolding get_from
get_from-Returns width zero bits m p h = omega (arith, h)
get_from-Returns width (suc n) bits m [] h = absurd (omega (arith, h))
get_from-Returns width (suc n) bits m (b ∷ p) h = get_from-Returns width n _ m p (omega (arith, h))

-- One field of `n` bytes, and `m` more behind it.
read_field {ℓ} :
    {B : Type ℓ} (Q : B → Type 0) (n m : ℕ) (p : List ℕ) (f : ℕ × List ℕ → Outcome B)
    → length p ≡ n + m
    → ((v : ℕ) (r : List ℕ) → length r ≡ m → Returns Q (f (v, r)))
    → Returns Q (get n p >>= f)
unfolding get
read_field Q n m p f h k =
    Returns-bind (λ x. length x.1 ≡ m) Q (get_from n n 0 p) f (get_from-Returns n n 0 m p h)
      (λ x e. k x.0 x.1 e)

-- The magic leaves the rest of the frame, if the frame is not refused.
abbrev Leaves : ℕ → Option (List ℕ) → Type 0
Leaves m none = Unit {0}
Leaves m (some p) = length p ≡ m

get_magic-Returns :
    (kind m : ℕ) (p : List ℕ) → length p ≡ 4 + m → Returns (Leaves m) (get_magic kind p)
unfolding get_magic
get_magic-Returns kind m p h = read_field (Leaves m) 1 (3 + m) p _ (omega (arith, h)) (λ t p h.
    if_both (Returns (Leaves m)) (not (t == 84)) tt (
      read_field (Leaves m) 1 (2 + m) p _ (omega (arith, h)) (λ s p h.
        if_both (Returns (Leaves m)) (not (s == 83)) tt (
          read_field (Leaves m) 1 (1 + m) p _ (omega (arith, h)) (λ v p h.
            if_both (Returns (Leaves m)) (not (v == 1)) tt (
              read_field (Leaves m) 1 m p _ (omega (arith, h))
                (λ k p h. if_both (Returns (Leaves m)) (not (k == kind)) tt h)))))))

abbrev LeavesFields : ℕ → Option (ℕ × ℕ × List ℕ) → Type 0
LeavesFields m none = Unit {0}
LeavesFields m (some (sequence, epoch, p)) = length p ≡ m

header_fields-Returns :
    (m : ℕ) (h : Option (List ℕ)) → Leaves (16 + m) h → Returns (LeavesFields m) (header_fields h)
header_fields-Returns m none h = tt
header_fields-Returns m (some p) h =
    read_field (LeavesFields m) 8 (8 + m) p _ (omega (arith, h))
      (λ sequence p h. read_field (LeavesFields m) 8 m p _ h (λ epoch p h. h))

get_header-Returns :
    (kind m : ℕ) (p : List ℕ) → length p ≡ 20 + m → Returns (LeavesFields m) (get_header kind p)
unfolding get_header
get_header-Returns kind m p h =
    Returns-bind (Leaves (16 + m)) (LeavesFields m) (get_magic kind p) (λ x. header_fields x)
      (get_magic-Returns kind (16 + m) p (omega (arith, h))) (λ x. header_fields-Returns m x)

abbrev pub Any {ℓ} : {A : Type ℓ} → A → Type 0
Any a = Unit {0}

request_fields-Returns :
    (x : Option (ℕ × ℕ × List ℕ)) → LeavesFields 30 x → Returns Any (request_fields x)
request_fields-Returns none h = tt
request_fields-Returns (some (sequence, epoch, p)) h =
    read_field Any 1 29 p _ (omega (arith, h)) (λ v p h.
      read_field Any 4 25 p _ (omega (arith, h)) (λ v p h.
        read_field Any 4 21 p _ (omega (arith, h)) (λ v p h.
          read_field Any 8 13 p _ (omega (arith, h)) (λ v p h.
            read_field Any 1 12 p _ (omega (arith, h)) (λ v p h.
              read_field Any 8 4 p _ (omega (arith, h))
                (λ v p h. read_field Any 4 0 p _ (omega (arith, h)) (λ v p h. tt)))))))

response_fields-Returns :
    (x : Option (ℕ × ℕ × List ℕ)) → LeavesFields 59 x → Returns Any (response_fields x)
response_fields-Returns none h = tt
response_fields-Returns (some (sequence, epoch, p)) h =
    read_field Any 1 58 p _ (omega (arith, h)) (λ v p h.
      read_field Any 4 54 p _ (omega (arith, h)) (λ v p h.
        read_field Any 4 50 p _ (omega (arith, h)) (λ v p h.
          read_field Any 8 42 p _ (omega (arith, h)) (λ v p h.
            read_field Any 8 34 p _ (omega (arith, h)) (λ v p h.
              read_field Any 1 33 p _ (omega (arith, h)) (λ v p h.
                read_field Any 8 25 p _ (omega (arith, h)) (λ v p h.
                  read_field Any 4 21 p _ (omega (arith, h)) (λ v p h.
                    read_field Any 4 17 p _ (omega (arith, h)) (λ v p h.
                      read_field Any 1 16 p _ (omega (arith, h)) (λ v p h.
                        read_field Any 8 8 p _ (omega (arith, h)) (λ v p h.
                          read_field Any 8 0 p _ (omega (arith, h)) (λ v p h. tt))))))))))))

pub decode_request-Returns : (p : List ℕ) → length p ≡ 50 → Returns Any (decode_request p)
unfolding decode_request
decode_request-Returns p h =
    Returns-bind (LeavesFields 30) Any (get_header 1 p) (λ x. request_fields x)
      (get_header-Returns 1 30 p (omega (arith, h))) request_fields-Returns

pub decode_response-Returns : (p : List ℕ) → length p ≡ 79 → Returns Any (decode_response p)
unfolding decode_response
decode_response-Returns p h =
    Returns-bind (LeavesFields 59) Any (get_header 2 p) (λ x. response_fields x)
      (get_header-Returns 2 59 p (omega (arith, h))) response_fields-Returns

update_fields-Returns : (x : Option (List ℕ)) → Leaves 66 x → Returns Any (update_fields x)
update_fields-Returns none h = tt
update_fields-Returns (some p) h = read_field Any 8 58 p _ (omega (arith, h)) (λ v p h.
    read_field Any 8 50 p _ (omega (arith, h)) (λ v p h.
      read_field Any 8 42 p _ (omega (arith, h)) (λ v p h.
        read_field Any 8 34 p _ (omega (arith, h)) (λ v p h.
          read_field Any 1 33 p _ (omega (arith, h)) (λ type p h.
            read_field Any 8 25 p _ (omega (arith, h)) (λ v p h.
              read_field Any 4 21 p _ (omega (arith, h)) (λ v p h.
                read_field Any 1 20 p _ (omega (arith, h)) (λ v p h.
                  read_field Any 8 12 p _ (omega (arith, h)) (λ v p h.
                    read_field Any 4 8 p _ (omega (arith, h)) (λ v p h.
                      read_field Any 8 0 p _ (omega (arith, h))
                        (λ v p h. if_both (Returns Any) (leb 1 type && leb type 7) tt tt)))))))))))

pub decode_update-Returns : (p : List ℕ) → length p ≡ 70 → Returns Any (decode_update p)
unfolding decode_update
decode_update-Returns p h =
    Returns-bind (Leaves 66) Any (get_magic 3 p) (λ x. update_fields x)
      (get_magic-Returns 3 66 p (omega (arith, h))) update_fields-Returns
