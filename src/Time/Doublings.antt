-- ===== src/Time/Doublings.antt =====
-- `1u32.checked_shl(n).unwrap_or(u32::MAX)`: positive, and no less for a greater shift.
use native.Mathlib.Nat.{pow-suc, add-zero, add-suc}
use native.Mathlib.Numerals.{towards_suc}
use citadel_agent.Bits.{pow-pos}
use citadel_agent.Prelude.{ℕ, zero, suc, ◌+◌, ◌-◌, ◌*◌, ◌^◌, ◌≤◌, ◌<◌, ◌≡◌, arith}
use citadel_agent.Time.{doublings}

pow-double : (n : ℕ) → 2 ^ (n + 1) ≡ 2 * 2 ^ n
pow-double n = simp towards_suc (rw pow-suc (omega arith))

pow_grows : (n k : ℕ) → 2 ^ n ≤ 2 ^ (n + k)
pow_grows n zero = rw add-zero (omega arith)
pow_grows n (suc k) = rw (add-suc, pow-suc) (omega (arith, pow_grows n k))

pow-le : (n : ℕ) → n ≤ 31 → 2 ^ n ≤ 2147483648
pow-le n h =
    let e : n + (31 - n) ≡ 31 = omega arith in
    let grown : 2 ^ n ≤ 2 ^ (n + (31 - n)) = pow_grows n (31 - n) in rw e at grown

pub doublings-pos : (n : ℕ) → 0 < doublings n
unfolding doublings
doublings-pos n = ground (arith, pow-pos n)

pub doublings_mono : (n : ℕ) → doublings n ≤ doublings (n + 1)
unfolding doublings
doublings_mono n = ground (arith, pow-double n, pow-le n)
