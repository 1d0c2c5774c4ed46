-- ===== src/Bits.antt =====
-- A mask of leading ones keeps what division by a power of two keeps, and `|` of numbers without
-- a common digit is their sum.
use Prim.Native.Nat.{bit_and, bit_or, digits, bit_and-bitwise, bit_or-bitwise}
use native.Mathlib.Nat.{pow-suc, eq_of_mul-eq-mul_right, zero-div, div-div-eq-div-mul, mul_comm}
use citadel_agent.Prelude.{
  ℕ, zero, suc, ◌*◌, ◌/◌, ◌%◌, ◌^◌, ◌≤◌, ◌<◌, ◌+◌, min, max, ◌≡◌, ◌↔◌, refl, sym, ap, ◌∙◌, arith,
}

pub pow-pos : (n : ℕ) → 0 < 2 ^ n
pow-pos zero = omega arith
pow-pos (suc n) = rw pow-suc (omega (arith, pow-pos n))

-- The digits of `a` and `b`, lowest first, as far as `n` of them go.
abbrev common : ℕ → ℕ → ℕ → ℕ
common n a b = digits (λ _. zero) min n a b

-- `q` is p ones; `a` fits p + k digits.
common-ones :
    (n p k q a : ℕ)
    → a ≤ n
    → suc q ≡ 2 ^ p
    → a < 2 ^ p * 2 ^ k
    → common n a (q * 2 ^ k) ≡ a / 2 ^ k * 2 ^ k
common-ones zero p k q zero h e l = rw zero-div (omega arith)
common-ones zero p k q (suc a) h e l = absurd (omega arith)
common-ones (suc n) p k q zero h e l = rw zero-div (omega arith)
common-ones (suc n) zero zero q (suc a) h e l = absurd (omega arith)
common-ones (suc n) (suc p) zero q (suc a) h e l =
    let e₂ : suc q ≡ 2 ^ p * 2 = e ∙ pow-suc 2 p in
    let halved : q * 2 ^ 0 / 2 ≡ q / 2 * 2 ^ 0 = omega arith in
    let ih : common n (suc a / 2) (q / 2 * 2 ^ 0) ≡ suc a / 2 / 2 ^ 0 * 2 ^ 0 =
      common-ones n p zero (q / 2) (suc a / 2) (omega arith) (omega arith)
        (omega (arith, pow-suc 2 p)) in
    rw halved (omega (arith, ih))
common-ones (suc n) p (suc k) q (suc a) h e l =
    let bound : suc a < 2 ^ p * (2 ^ k * 2) = rw (pow-suc 2 k) at l in
    let ih : common n (suc a / 2) (q * 2 ^ k) ≡ suc a / 2 / 2 ^ k * 2 ^ k =
      common-ones n p k q (suc a / 2) (omega arith) e (omega arith) in
    let halved : q * 2 ^ suc k / 2 ≡ q * 2 ^ k = rw (pow-suc 2 k) (omega arith) in
    let even : q * 2 ^ suc k % 2 ≡ 0 = rw (pow-suc 2 k) (omega arith) in
    let nested : suc a / 2 ^ suc k ≡ suc a / 2 / 2 ^ k =
      rw (pow-suc 2 k, mul_comm (2 ^ k) 2) (sym (div-div-eq-div-mul (suc a) 2 (2 ^ k))) in
    rw (halved, even, nested, pow-suc 2 k) (omega (arith, ih))

pub bit_and-ones :
    (p k q a : ℕ) → suc q ≡ 2 ^ p → a < 2 ^ p * 2 ^ k → bit_and a (q * 2 ^ k) ≡ a / 2 ^ k * 2 ^ k
bit_and-ones p k q a e l = bit_and-bitwise a (q * 2 ^ k) ∙ common-ones a p k q a (omega arith) e l

-- Two numbers agree under a mask of leading ones exactly when they have the same quotient.
pub bit_and-eq_iff :
    (p k q a b : ℕ)
    → suc q ≡ 2 ^ p
    → a < 2 ^ p * 2 ^ k
    → b < 2 ^ p * 2 ^ k
    → 0 < 2 ^ k
    → (bit_and a (q * 2 ^ k) ≡ bit_and b (q * 2 ^ k)) ↔ (a / 2 ^ k ≡ b / 2 ^ k)
bit_and-eq_iff p k q a b e la lb pos = (
  λ h.
      eq_of_mul-eq-mul_right (2 ^ k) pos _ _
        (sym (bit_and-ones p k q a e la) ∙ h ∙ bit_and-ones p k q b e lb),
  λ h. bit_and-ones p k q a e la ∙ ap (λ n. n * 2 ^ k) h ∙ sym (bit_and-ones p k q b e lb),
)

-- The digits of `b` lie below those of `a`.
both_digits :
    (n k q a b : ℕ) → a ≤ n → a ≡ q * 2 ^ k → b < 2 ^ k → digits (λ c. c) max n a b ≡ a + b
both_digits zero k q a b h e l = omega arith
both_digits (suc n) k q zero b h e l = omega arith
both_digits (suc n) zero q (suc a) b h e l =
    let none : b ≡ 0 = omega arith in
    let ih : digits (λ c. c) max n (suc a / 2) (b / 2) ≡ suc a / 2 + b / 2 =
      both_digits n zero (q / 2) (suc a / 2) (b / 2) (omega arith) (omega arith) (omega arith) in
    omega (arith, ih)
both_digits (suc n) (suc k) q (suc a) b h e l =
    let e₂ : suc a ≡ q * (2 ^ k * 2) = rw (pow-suc 2 k) at e in
    let l₂ : b < 2 ^ k * 2 = rw (pow-suc 2 k) at l in
    let ih : digits (λ c. c) max n (suc a / 2) (b / 2) ≡ suc a / 2 + b / 2 =
      both_digits n k q (suc a / 2) (b / 2) (omega arith) (omega arith) (omega arith) in
    omega (arith, ih)

pub bit_or-sum : (k q b : ℕ) → b < 2 ^ k → bit_or (q * 2 ^ k) b ≡ q * 2 ^ k + b
bit_or-sum k q b l =
    bit_or-bitwise (q * 2 ^ k) b ∙ both_digits (q * 2 ^ k) k q (q * 2 ^ k) b (omega arith) refl l
