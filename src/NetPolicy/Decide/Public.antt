-- ===== src/NetPolicy/Decide/Public.antt =====
-- Where a grant that is not private lets a request connect (citadel-app-net-policy/src/decide.rs).
use citadel_agent.Prelude.{
  ℕ, ◌<◌, ◌≡◌, ◌≢◌, inl, inr, refl, sym, subst, Bool, true, false, Option, none, some, List, [],
  ◌∷◌, map, arith, All, if◌then◌else◌, leb, leb→le, Bool-cases,
}
use citadel_agent.Text.{Text, split, is_plain_decimal, decimal_from, parse_decimal}
use citadel_agent.NetPolicy.Ranges.{
  Ipv4Addr, Ipv6Addr, IpAddr, v4, v6, canonical, embedded_v4, embedding, high, low, ipv4,
}
use citadel_agent.NetPolicy.Ranges.Blocks.{IsOctets}
use citadel_agent.NetPolicy.Ranges.Tables.{is_public, classify, class_of, classify_v6}
use citadel_agent.NetPolicy.Ranges.Classes.{IsSpecial, classify_v4-public_iff}
use citadel_agent.NetPolicy.Url.{TargetUrl, ip_literal, canonical_ipv4, parse_octet, quad, quad_of}
use citadel_agent.NetPolicy.Grant.{NetGrant, Deployment, private}
use citadel_agent.NetPolicy.Decide.{EgressRequest, Allowed, SocketAddr, allow, addresses_of, decide}
use citadel_agent.NetPolicy.Decide.Allows.{IsReachable}
use citadel_agent.NetPolicy.Decide.Sound.{decide-IsAllowed}

some-inj {ℓ} : {A : Type ℓ} (a b : A) → Option.some a ≡ some b → a ≡ b
some-inj a b e = cc

none≢some {ℓ} : {A : Type ℓ} (a : A) → Option.none ≢ some a
none≢some a e = cc

parse_octet-lt : (t : Text) (n : ℕ) → parse_octet t ≡ some n → n < 256
unfolding parse_octet parse_decimal
parse_octet-lt t n h = elim (Bool-cases (is_plain_decimal t)) [
  | inr e ↦ absurd (none≢some n (rw (e, parse_octet) at h))
  | inl e ↦ elim (Bool-cases (leb (decimal_from 0 t) 255)) [
    | inl f ↦
        let same : decimal_from 0 t ≡ n =
          some-inj _ _ (rw (e, f, parse_octet, parse_decimal) at h) in
        let bound = leb→le (decimal_from 0 t) 255 f in omega arith
    | inr f ↦ absurd (none≢some n (rw (e, f, parse_octet, parse_decimal) at h))
  ]
]

quad-IsOctets :
    (o p q r : Option ℕ) (ip : Ipv4Addr)
    → ((n : ℕ) → o ≡ some n → n < 256)
    → ((n : ℕ) → p ≡ some n → n < 256)
    → ((n : ℕ) → q ≡ some n → n < 256)
    → ((n : ℕ) → r ≡ some n → n < 256)
    → quad o p q r ≡ some ip
    → IsOctets ip
quad-IsOctets (some a) (some b) (some c) (some d) ip f g h k e =
    subst IsOctets (some-inj _ _ e)
      (record { a = f a refl; b = g b refl; c = h c refl; d = k d refl })
quad-IsOctets none p q r ip f g h k e = absurd (cc)
quad-IsOctets (some a) none q r ip f g h k e = absurd (cc)
quad-IsOctets (some a) (some b) none r ip f g h k e = absurd (cc)
quad-IsOctets (some a) (some b) (some c) none ip f g h k e = absurd (cc)

quad_of-IsOctets : (ts : List Text) (ip : Ipv4Addr) → quad_of ts ≡ some ip → IsOctets ip
unfolding quad_of
quad_of-IsOctets [] ip e = absurd (none≢some ip e)
quad_of-IsOctets (p ∷ []) ip e = absurd (none≢some ip e)
quad_of-IsOctets (p ∷ q ∷ []) ip e = absurd (none≢some ip e)
quad_of-IsOctets (p ∷ q ∷ r ∷ []) ip e = absurd (none≢some ip e)
quad_of-IsOctets (p ∷ q ∷ r ∷ s ∷ []) ip e =
    quad-IsOctets (parse_octet p) (parse_octet q) (parse_octet r) (parse_octet s) ip
      (parse_octet-lt p) (parse_octet-lt q) (parse_octet-lt r) (parse_octet-lt s) e
quad_of-IsOctets (p ∷ q ∷ r ∷ s ∷ t ∷ ts) ip e = absurd (none≢some ip e)

-- The address that the policy judges.
abbrev pub IsValid : IpAddr → Type 0
IsValid (v4 ip) = IsOctets ip
IsValid (v6 ip) = Unit

-- Public: in none of the special IPv4 blocks, or of the public IPv6 ones.
abbrev pub IsOutside : IpAddr → Type 0
IsOutside (v4 ip) = ¬ IsSpecial ip
IsOutside (v6 ip) = classify_v6 ip ≡ is_public

private_refused :
    (grant : NetGrant) (ip : IpAddr)
    → private grant ≡ false
    → IsReachable grant ip
    → classify ip ≡ is_public
private_refused grant ip h reach = elim reach.class [ inl e ↦ e | inr (p, _) ↦ absurd (cc) ]

abbrev chosen : Ipv6Addr → Option Ipv4Addr → IpAddr
chosen ip o = elim o [ none ↦ v6 ip | some ip4 ↦ v4 ip4 ]

octets : (s t : ℕ) → IsOctets (ipv4 (high s) (low s) (high t) (low t))
octets s t = record { a = omega arith; b = omega arith; c = omega arith; d = omega arith }

chosen-IsValid :
    (ip : Ipv6Addr) (x y z : Bool) (a b : Ipv4Addr)
    → IsOctets a
    → IsOctets b
    → IsValid (chosen ip (if x then some a else if y then some a else if z then some b else none))
chosen-IsValid ip true y z a b va vb = va
chosen-IsValid ip false true z a b va vb = va
chosen-IsValid ip false false true a b va vb = vb
chosen-IsValid ip false false false a b va vb = tt

canonical-IsValid : (ip : IpAddr) → IsValid ip → IsValid (canonical ip)
unfolding canonical embedded_v4
canonical-IsValid (v4 ip) v = v
canonical-IsValid (v6 ip) v =
    let (mapped, nat64, six_to_four) = embedding ip in
    chosen-IsValid ip mapped nat64 six_to_four _ _ (octets ip.s6 ip.s7) (octets ip.s1 ip.s2)

class_of→IsOutside : (ip : IpAddr) → IsValid ip → class_of ip ≡ is_public → IsOutside ip
unfolding class_of
class_of→IsOutside (v4 ip) v e = (classify_v4-public_iff ip v).0 e
class_of→IsOutside (v6 ip) v e = e

reachable-IsOutside :
    (grant : NetGrant) (ip : IpAddr)
    → private grant ≡ false
    → IsValid ip
    → IsReachable grant ip
    → IsOutside (canonical ip)
unfolding classify
reachable-IsOutside grant ip h v reach =
    class_of→IsOutside (canonical ip) (canonical-IsValid ip v) (private_refused grant ip h reach)

addresses-IsValid :
    (o : Option Ipv4Addr) (resolved : List IpAddr)
    → ((ip : Ipv4Addr) → o ≡ some ip → IsOctets ip)
    → All IsValid resolved
    → All IsValid (addresses_of o resolved)
addresses-IsValid (some ip) resolved f v = (f ip refl, tt)
addresses-IsValid none resolved f v = v

abbrev socket : ℕ → IpAddr → SocketAddr
socket port ip = record { ip = ip; port = port }

connect-IsOutside :
    (grant : NetGrant) (port : ℕ) (ips : List IpAddr)
    → private grant ≡ false
    → All IsValid ips
    → All (IsReachable grant) ips
    → All (λ s. IsOutside (canonical s.ip)) (map (socket port) ips)
connect-IsOutside grant port [] h v r = tt
connect-IsOutside grant port (ip ∷ ips) h v r =
    (reachable-IsOutside grant ip h v.0 r.0, connect-IsOutside grant port ips h v.1 r.1)

ip_literal-IsOctets : (t : TargetUrl) (ip : Ipv4Addr) → ip_literal t ≡ some ip → IsOctets ip
unfolding ip_literal canonical_ipv4
ip_literal-IsOctets t ip e = quad_of-IsOctets (split b'.' t.host) ip e

-- Under a grant that is not private, whatever the names resolve to, every address that an allowed
-- request connects to is public once an embedded IPv4 address is taken out of it: an IPv4 address
-- lies in none of the special blocks, and an IPv6 address has the class public.
pub decide-public :
    (request : EgressRequest) (resolved : List IpAddr) (grant : NetGrant) (deployment : Deployment)
    (allowed : Allowed)
    → private grant ≡ false
    → All IsValid resolved
    → decide request resolved grant deployment ≡ allow allowed
    → All (λ s. IsOutside (canonical s.ip)) allowed.connect
decide-public request resolved grant deployment allowed h v e =
    let granted = decide-IsAllowed request resolved grant deployment allowed e in
    subst (All (λ s. IsOutside (canonical s.ip))) (sym granted.connects) (
      connect-IsOutside grant allowed.target.port
        (addresses_of (ip_literal allowed.target) resolved) h
        (addresses-IsValid (ip_literal allowed.target) resolved (ip_literal-IsOctets allowed.target)
          v)
        granted.reachable)
