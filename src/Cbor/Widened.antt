-- ===== src/Cbor/Widened.antt =====
-- The bits that a narrower float is widened to (kernel/conversations/cbor_decode.rs, `half`).
use citadel_agent.Prelude.{
  ℕ, zero, suc, ◌-◌, ◌*◌, ◌/◌, ◌%◌, ◌^◌, ◌≤◌, ◌<◌, inl, inr, Bool, Bool-cases, not, ◌&&◌, leb, ◌==◌,
  if_known, arith,
}
use citadel_agent.Cbor.Decode.{Floats, normalised, magnitude, half}

-- The bits of a float are 64.
abbrev pub Widens : Floats → Type 0
Widens floats = ((b : Bool) → floats.nan b < 2 ^ 64) × ((n : ℕ) → floats.single n < 2 ^ 64)

normalised-bounded :
    (rounds exponent f : ℕ)
    → exponent ≤ 1009
    → f < 2048
    → normalised rounds exponent f < 1010 * 2 ^ 52
normalised-bounded zero exponent f l h = omega arith
normalised-bounded (suc rounds) exponent f l h = elim (Bool-cases (leb 1024 f)) [
  | inl e ↦ rw e (omega (arith, l, h))
  | inr e ↦
      let small : f < 1024 = ground arith in
      rw e (normalised-bounded rounds (exponent - 1) (2 * f) (omega arith) (omega (arith, small)))
]

magnitude-bounded :
    (exponent fraction : ℕ) → exponent < 32 → fraction < 1024 → magnitude exponent fraction < 2 ^ 63
magnitude-bounded exponent fraction l h =
    if_known (λ n. n < 2 ^ 63) (exponent == 0) _ _
      (λ _. omega (arith, normalised-bounded 11 1009 fraction (omega arith) (omega (arith, h))))
      (λ _.
        if_known (λ n. n < 2 ^ 63) (exponent == 31) _ _ (λ _. omega arith)
          (λ _. omega (arith, l, h)))

pub half-bounded : (floats : Floats) (n : ℕ) → Widens floats → half floats n < 2 ^ 64
unfolding half
half-bounded floats n w =
    if_known (λ m. m < 2 ^ 64) ((n / 2 ^ 10 % 32 == 31) && not (n % 1024 == 0)) _ _ (λ _. w.0 _)
      (λ _.
        let rest : magnitude (n / 2 ^ 10 % 32) (n % 1024) < 2 ^ 63 =
          magnitude-bounded (n / 2 ^ 10 % 32) (n % 1024) (omega arith) (omega arith) in
        omega (arith, rest))
