-- ===== src/NetPolicy/Ranges/Embedded.antt =====
-- The IPv4 address inside an IPv6 one (citadel-app-net-policy/src/ranges.rs, `embedded_v4`,
-- `canonical`, `classify`).
use citadel_agent.Prelude.{ℕ, ◌+◌, ◌*◌, ◌<◌, ◌≡◌, refl, ap, some, arith}
use citadel_agent.NetPolicy.Ranges.{
  Ipv4Addr, Ipv6Addr, v4, v6, ipv4, ipv6, embedded_v4, canonical, high, low,
}
use citadel_agent.NetPolicy.Ranges.Blocks.{IsOctets}
use citadel_agent.NetPolicy.Ranges.Tables.{classify, class_of}

-- Two octets as one segment.
abbrev pub segment : ℕ → ℕ → ℕ
segment h l = h * 256 + l

-- The three forms an IPv4 address takes in IPv6: mapped, through NAT64, and 6to4.
pub data IsEmbedding (ip : Ipv4Addr) : Ipv6Addr → Type 0 where
  mapped : IsEmbedding ip (ipv6 0 0 0 0 0 0xffff (segment ip.a ip.b) (segment ip.c ip.d))
  nat64 : IsEmbedding ip (ipv6 0x64 0xff9b 0 0 0 0 (segment ip.a ip.b) (segment ip.c ip.d))
  six_to_four :
      (s3 s4 s5 s6 s7 : ℕ)
      → IsEmbedding ip (ipv6 0x2002 (segment ip.a ip.b) (segment ip.c ip.d) s3 s4 s5 s6 s7)

module _ (h l : ℕ) (vh : h < 256) (vl : l < 256) where
  high-segment : high (segment h l) ≡ h
  high-segment = omega arith

  low-segment : low (segment h l) ≡ l
  low-segment = omega arith

-- Octets read back.
octets_back :
    (ip : Ipv4Addr)
    → IsOctets ip
    → ipv4
        (high (segment ip.a ip.b))
        (low (segment ip.a ip.b))
        (high (segment ip.c ip.d))
        (low (segment ip.c ip.d))
      ≡ ip
octets_back ip v =
    rw
      (
        high-segment ip.a ip.b v.a v.b,
        low-segment ip.a ip.b v.a v.b,
        high-segment ip.c ip.d v.c v.d,
        low-segment ip.c ip.d v.c v.d,
      )
      refl

embedded_back :
    (ip : Ipv4Addr) (ip6 : Ipv6Addr) → IsOctets ip → IsEmbedding ip ip6 → embedded_v4 ip6 ≡ some ip
unfolding embedded_v4
embedded_back ip _ v mapped = ap some (octets_back ip v)
embedded_back ip _ v nat64 = ap some (octets_back ip v)
embedded_back ip _ v (six_to_four s3 s4 s5 s6 s7) = ap some (octets_back ip v)

canonical_back :
    (ip : Ipv4Addr) (ip6 : Ipv6Addr) → IsOctets ip → IsEmbedding ip ip6 → canonical (v6 ip6) ≡ v4 ip
unfolding canonical
canonical_back ip ip6 v e = rw (embedded_back ip ip6 v e, canonical) refl

-- An IPv4 address that is written as an IPv6 one, mapped, through NAT64 or as 6to4, is that IPv4
-- address to the policy, and has its class.
pub classify-embedded :
    (ip : Ipv4Addr) (ip6 : Ipv6Addr)
    → IsOctets ip
    → IsEmbedding ip ip6
    → (canonical (v6 ip6) ≡ v4 ip) × (classify (v6 ip6) ≡ classify (v4 ip))
unfolding classify canonical
classify-embedded ip ip6 v e = (canonical_back ip ip6 v e, ap class_of (canonical_back ip ip6 v e))
