-- ===== src/NetPolicy/Ranges.antt =====
-- citadel-app-net-policy/src/ranges.rs: what kind of address an IP is.
pub mod Tables
pub mod Blocks
pub mod Classes
pub mod Embedded
use Prim.Native.Nat.{bit_and}
use citadel_agent.Prelude.{
  ℕ, ◌+◌, ◌-◌, ◌*◌, ◌/◌, ◌%◌, ◌^◌, Bool, ◌&&◌, Option, none, some, ◌==◌, if◌then◌else◌,
}

-- `Ipv4Addr` by its octets, `Ipv6Addr` by its segments.
pub record Ipv4Addr : Type 0 where
  pub a : ℕ
  pub b : ℕ
  pub c : ℕ
  pub d : ℕ

pub record Ipv6Addr : Type 0 where
  pub s0 : ℕ
  pub s1 : ℕ
  pub s2 : ℕ
  pub s3 : ℕ
  pub s4 : ℕ
  pub s5 : ℕ
  pub s6 : ℕ
  pub s7 : ℕ

pub data IpAddr : Type 0 where
  v4 : Ipv4Addr → IpAddr
  v6 : Ipv6Addr → IpAddr

abbrev pub ipv4 : ℕ → ℕ → ℕ → ℕ → Ipv4Addr
ipv4 a b c d = record { a = a; b = b; c = c; d = d }

abbrev pub ipv6 : ℕ → ℕ → ℕ → ℕ → ℕ → ℕ → ℕ → ℕ → Ipv6Addr
ipv6 s0 s1 s2 s3 s4 s5 s6 s7 = record {
  s0 = s0;
  s1 = s1;
  s2 = s2;
  s3 = s3;
  s4 = s4;
  s5 = s5;
  s6 = s6;
  s7 = s7;
}

-- `u32::from` and `u128::from`.
abbrev pub to_u32 : Ipv4Addr → ℕ
to_u32 ip = ip.a * 2 ^ 24 + ip.b * 2 ^ 16 + ip.c * 2 ^ 8 + ip.d

abbrev pub to_u128 : Ipv6Addr → ℕ
to_u128 ip =
    ip.s0 * 2 ^ 112
    + ip.s1 * 2 ^ 96
    + ip.s2 * 2 ^ 80
    + ip.s3 * 2 ^ 64
    + ip.s4 * 2 ^ 48
    + ip.s5 * 2 ^ 32
    + ip.s6 * 2 ^ 16
    + ip.s7

-- The two octets of a segment: `(s >> 8) as u8` and `s as u8`.
abbrev pub high : ℕ → ℕ
high s = s / 256 % 256

abbrev pub low : ℕ → ℕ
low s = s % 256

abbrev pub embedding : Ipv6Addr → Bool × Bool × Bool
embedding ip =
    let zeros = ip.s2 == 0 && (ip.s3 == 0 && ip.s4 == 0) in
    (
      ip.s0 == 0 && (ip.s1 == 0 && (zeros && ip.s5 == 0xffff)),
      ip.s0 == 0x64 && (ip.s1 == 0xff9b && (zeros && ip.s5 == 0)),
      ip.s0 == 0x2002,
    )

unfoldable pub embedded_v4 : Ipv6Addr → Option Ipv4Addr
embedded_v4 ip =
    let (mapped, nat64, six_to_four) = embedding ip in
    let lowest = ipv4 (high ip.s6) (low ip.s6) (high ip.s7) (low ip.s7) in
    if mapped
    then some lowest
    else if nat64
    then some lowest
    else if six_to_four
    then some (ipv4 (high ip.s1) (low ip.s1) (high ip.s2) (low ip.s2))
    else none

unfoldable pub canonical : IpAddr → IpAddr
unfolding embedded_v4
canonical (v4 ip) = v4 ip
canonical (v6 ip) = elim (embedded_v4 ip) [ none ↦ v6 ip | some ip4 ↦ v4 ip4 ]

-- A mask of `prefix` ones in `bits` bits: `uN::MAX << (bits - prefix)`.
unfoldable pub mask : ℕ → ℕ → ℕ
mask bits prefix = if prefix == 0 then 0 else (2 ^ bits - 1) * 2 ^ (bits - prefix) % 2 ^ bits

unfoldable pub in_net : ℕ → ℕ → ℕ → ℕ → Bool
in_net bits ip net prefix = bit_and ip (mask bits prefix) == bit_and net (mask bits prefix)

unfoldable pub in_v4 : Ipv4Addr → Ipv4Addr → ℕ → Bool
in_v4 ip net prefix = in_net 32 (to_u32 ip) (to_u32 net) prefix

unfoldable pub in_v6 : Ipv6Addr → Ipv6Addr → ℕ → Bool
in_v6 ip net prefix = in_net 128 (to_u128 ip) (to_u128 net) prefix
