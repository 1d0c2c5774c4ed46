-- ===== src/Time.antt =====
-- Rust's `std::time::Duration` as a number of nanoseconds, and the saturating `u32` and `u64`
-- arithmetic that the policies use (supervisor/types.rs, supervisor/core, reconnect/policy.rs).
pub mod Doublings
use citadel_agent.Prelude.{ℕ, ◌+◌, ◌*◌, ◌/◌, ◌^◌, min, ltb, if◌then◌else◌}

abbrev pub u32_max : ℕ
u32_max = 4294967295

abbrev pub u64_max : ℕ
u64_max = 18446744073709551615

-- `u32::saturating_add(1)`.
abbrev pub saturating_suc : ℕ → ℕ
saturating_suc n = min (n + 1) u32_max

abbrev pub Duration : Type 0
Duration = ℕ

-- `Duration::MAX`: 2^64 - 1 seconds and 999,999,999 nanoseconds.
abbrev pub duration_max : ℕ
duration_max = 18446744073709551615999999999

abbrev pub from_millis : ℕ → Duration
from_millis m = m * 1000000

abbrev pub from_secs : ℕ → Duration
from_secs s = s * 1000000000

-- `as_secs`.
abbrev pub as_secs : Duration → ℕ
as_secs d = d / 1000000000

-- `u64::try_from(d.as_millis()).unwrap_or(u64::MAX)`.
abbrev pub as_u64_millis : Duration → ℕ
as_u64_millis d = min (d / 1000000) u64_max

abbrev pub saturating_mul : Duration → ℕ → Duration
saturating_mul d k = min (d * k) duration_max

abbrev pub saturating_add : Duration → Duration → Duration
saturating_add d e = min (d + e) duration_max

-- `1u32.checked_shl(n).unwrap_or(u32::MAX)`.
unfoldable pub doublings : ℕ → ℕ
doublings n = if ltb n 32 then 2 ^ n else u32_max
