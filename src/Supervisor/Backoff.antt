-- ===== src/Supervisor/Backoff.antt =====
-- kernel/supervisor/core/peer.rs: the jitter generator and the backoff arithmetic.
pub mod Bounds
use Prim.Native.Nat.{bit_xor}
use citadel_agent.Prelude.{ℕ, ◌+◌, ◌-◌, ◌*◌, ◌/◌, ◌%◌, ◌^◌, min, ◌==◌, if◌then◌else◌}
use citadel_agent.Time.{Duration, u64_max, from_millis, as_u64_millis, saturating_mul, doublings}
use citadel_agent.Supervisor.Types.{Cid}
use citadel_agent.Supervisor.Policy.{Backoff}

-- The one 64-bit state of splitmix64.
abbrev pub Rng : Type 0
Rng = ℕ

unfoldable pub seeded : ℕ → Cid → Rng
seeded seed cid = bit_xor seed cid

abbrev wrapping : ℕ → ℕ
wrapping n = n % 2 ^ 64

-- One multiply-xorshift round of `next`.
abbrev mix : ℕ → ℕ → ℕ → ℕ
mix z shift factor = wrapping (bit_xor z (z / 2 ^ shift) * factor)

-- The state after a draw, and the number drawn.
unfoldable pub next : Rng → ℕ × Rng
next s =
    let s' = wrapping (s + 0x9E3779B97F4A7C15) in
    let z = mix (mix s' 30 0xBF58476D1CE4E5B9) 27 0x94D049BB133111EB in (bit_xor z (z / 2 ^ 31), s')

-- The backoff before jitter, in milliseconds.
unfoldable pub capped : Backoff → ℕ → ℕ
capped backoff attempts =
    as_u64_millis (min (saturating_mul backoff.initial (doublings attempts)) backoff.max)

-- What jitter may remove, in milliseconds.
unfoldable pub span : ℕ → ℕ → ℕ
span millis jitter_permille = min (millis * jitter_permille) u64_max / 1000

unfoldable pub delay : Rng → Backoff → ℕ → ℕ → Duration × Rng
delay rng backoff attempts jitter_permille =
    let millis = capped backoff attempts in
    let room = span millis jitter_permille in
    let (drawn, rng') = next rng in
    if room == 0 then (from_millis millis, rng) else (from_millis (millis - drawn % room), rng')
