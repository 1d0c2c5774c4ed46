-- ===== src/Supervisor/Backoff/Bounds.antt =====
-- What jitter and doubling leave of a backoff (kernel/supervisor/core/peer.rs, `Rng::delay`).
use native.Mathlib.Nat.{mod-lt, mul-le-mul_left, mul-le-mul}
use citadel_agent.Prelude.{
  ℕ, ◌+◌, ◌-◌, ◌*◌, ◌%◌, ◌≤◌, ◌<◌, ◌≡◌, refl, inl, inr, arith, Bool-cases, ◌==◌,
}
use citadel_agent.Time.{from_millis, doublings}
use citadel_agent.Time.Doublings.{doublings-pos, doublings_mono}
use citadel_agent.Supervisor.Policy.{Backoff}
use citadel_agent.Supervisor.Backoff.{Rng, next, capped, span, delay}

capped-pos : (b : Backoff) (n : ℕ) → 1000000 ≤ b.initial → 1000000 ≤ b.max → 0 < capped b n
unfolding capped
capped-pos b n hi hm =
    let enough : 1000000 * 1 ≤ b.initial * doublings n = mul-le-mul hi (doublings-pos n) in
    omega arith

-- Jitter takes less than `span` of a backoff that it changes.
span-le : (m j : ℕ) → j ≤ 1000 → span m j ≤ m
unfolding span
span-le m j h = let most : m * j ≤ m * 1000 = mul-le-mul_left m h in omega arith

-- The milliseconds that `delay` waits.
pub drawn_bounds :
    (rng : Rng) (b : Backoff) (n j : ℕ)
    → j ≤ 1000
    → (m : ℕ) × ((delay rng b n j).0 ≡ from_millis m)
      × (m ≤ capped b n)
      × (capped b n ≤ m + span (capped b n) j)
      × (0 < capped b n → 0 < m)
unfolding delay
drawn_bounds rng b n j h = elim (Bool-cases (span (capped b n) j == 0)) [
  | inl none_to_cut ↦ (capped b n, rw none_to_cut refl, omega arith, omega arith, λ p. p)
  | inr some_to_cut ↦ (
    capped b n - (next rng).0 % span (capped b n) j,
    rw some_to_cut refl,
    omega arith,
    ground (arith, mod-lt (next rng).0 {m = span (capped b n) j}),
    ground (arith, mod-lt (next rng).0 {m = span (capped b n) j}, span-le (capped b n) j h),
  )
]

-- The jittered delay never passes the backoff's cap, and jitter takes no more than its share.
pub delay_bounds :
    (rng : Rng) (b : Backoff) (n j : ℕ)
    → j ≤ 1000
    → let wait = (delay rng b n j).0 in
      (wait ≤ b.max)
      × (wait ≤ from_millis (capped b n))
      × (from_millis (capped b n) ≤ wait + from_millis (span (capped b n) j))
unfolding capped
delay_bounds rng b n j h = let (m, e, below, above, pos) = drawn_bounds rng b n j h in omega arith

-- A backoff of a millisecond or more is never jittered away.
pub delay-pos :
    (rng : Rng) (b : Backoff) (n j : ℕ)
    → j ≤ 1000
    → 1000000 ≤ b.initial
    → 1000000 ≤ b.max
    → 1000000 ≤ (delay rng b n j).0
delay-pos rng b n j h hi hm =
    let (m, e, below, above, pos) = drawn_bounds rng b n j h in
    let m_pos : 0 < m = pos (capped-pos b n hi hm) in omega arith

-- Before jitter the backoff only grows.
pub capped_mono : (b : Backoff) (n : ℕ) → capped b n ≤ capped b (n + 1)
unfolding capped
capped_mono b n =
    let more : b.initial * doublings n ≤ b.initial * doublings (n + 1) =
      mul-le-mul_left b.initial (doublings_mono n) in
    omega arith
