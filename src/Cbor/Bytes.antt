-- ===== src/Cbor/Bytes.antt =====
-- Big-endian bytes, and the cutting of a list, as the encoder and the decoder use them
-- (kernel/conversations/cbor.rs, cbor_decode.rs).
use native.Mathlib.Nat.{pow-suc}
use citadel_agent.Prelude.{
  ℕ, zero, suc, ◌+◌, ◌*◌, ◌/◌, ◌%◌, ◌^◌, ◌<◌, ◌≡◌, refl, ap, ◌∙◌, List, [], ◌∷◌, ◌++◌, length,
  length-append, le→leb, arith,
}
use citadel_agent.Cbor.{to_be_bytes}
use citadel_agent.Cbor.Decode.{ok, Floats, cut, from_be, from_be_bytes, take, number}

from_be-append : (acc b : ℕ) (bs : List ℕ) → from_be acc (bs ++ b ∷ []) ≡ from_be acc bs * 256 + b
from_be-append acc b [] = refl
from_be-append acc b (c ∷ bs) = from_be-append (acc * 256 + c) b bs

pub from_be_bytes-to_be_bytes : (k n : ℕ) → n < 256 ^ k → from_be_bytes (to_be_bytes k n) ≡ n
from_be_bytes-to_be_bytes zero n h = omega arith
from_be_bytes-to_be_bytes (suc k) n h =
    let bound : n < 256 ^ k * 256 = rw (pow-suc 256 k) at h in
    from_be-append 0 (n % 256) (to_be_bytes k (n / 256))
    ∙ omega (arith, from_be_bytes-to_be_bytes k (n / 256) (omega arith))

pub length-to_be_bytes : (k n : ℕ) → length (to_be_bytes k n) ≡ k
length-to_be_bytes zero n = refl
length-to_be_bytes (suc k) n =
    length-append (to_be_bytes k (n / 256)) (n % 256 ∷ [])
    ∙ omega (arith, length-to_be_bytes k (n / 256))

pub cut-append : (n : ℕ) (xs ys : List ℕ) → length xs ≡ n → cut n (xs ++ ys) ≡ (xs, ys)
cut-append zero [] ys e = refl
cut-append zero (x ∷ xs) ys e = absurd (omega arith)
cut-append (suc n) [] ys e = absurd (omega arith)
cut-append (suc n) (x ∷ xs) ys e =
    ap (λ (r : List ℕ × List ℕ). (x ∷ r.0, r.1)) (cut-append n xs ys (omega arith))

pub take-append :
    (floats : Floats) (total n : ℕ) (xs ys : List ℕ)
    → length xs ≡ n
    → take floats total n (xs ++ ys) ≡ ok (xs, ys)
unfolding take
take-append floats total n xs ys e =
    rw (le→leb n (length (xs ++ ys)) (omega (arith, length-append xs ys)), cut-append n xs ys e)
      refl

pub number-to_be_bytes :
    (floats : Floats) (total k n : ℕ) (ys : List ℕ)
    → n < 256 ^ k
    → number floats total k (to_be_bytes k n ++ ys) ≡ ok (n, ys)
unfolding number
number-to_be_bytes floats total k n ys h =
    rw
      (
        take-append floats total k (to_be_bytes k n) ys (length-to_be_bytes k n),
        from_be_bytes-to_be_bytes k n h,
      )
      refl
