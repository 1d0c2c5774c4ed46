-- ===== src/NetPolicy/Ranges/Tables.antt =====
-- citadel-app-net-policy/src/ranges.rs: the tables of the address ranges, and the class they give.
use citadel_agent.Prelude.{ℕ, List, [], ◌∷◌, if◌then◌else◌}
use citadel_agent.NetPolicy.Ranges.{
  Ipv4Addr, Ipv6Addr, IpAddr, v4, v6, ipv4, ipv6, canonical, in_v4, in_v6,
}

pub data PrivateRange : Type 0 where
  loopback rfc1918 link_local shared unique_local site_local : PrivateRange

pub data ForbiddenRange : Type 0 where
  this_network unspecified ietf_protocol benchmarking documentation : ForbiddenRange
  multicast reserved ipv4_compatible teredo discard : ForbiddenRange

pub data AddressClass : Type 0 where
  is_public : AddressClass
  is_private : PrivateRange → AddressClass
  forbidden : ForbiddenRange → AddressClass

abbrev pub v4_table : List (Ipv4Addr × ℕ × AddressClass)
v4_table =
    (ipv4 0 0 0 0, 8, forbidden this_network)
    ∷ (ipv4 10 0 0 0, 8, is_private rfc1918)
    ∷ (ipv4 100 64 0 0, 10, is_private shared)
    ∷ (ipv4 127 0 0 0, 8, is_private loopback)
    ∷ (ipv4 169 254 0 0, 16, is_private link_local)
    ∷ (ipv4 172 16 0 0, 12, is_private rfc1918)
    ∷ (ipv4 192 0 0 0, 24, forbidden ietf_protocol)
    ∷ (ipv4 192 0 2 0, 24, forbidden documentation)
    ∷ (ipv4 192 88 99 0, 24, forbidden reserved)
    ∷ (ipv4 192 168 0 0, 16, is_private rfc1918)
    ∷ (ipv4 198 18 0 0, 15, forbidden benchmarking)
    ∷ (ipv4 198 51 100 0, 24, forbidden documentation)
    ∷ (ipv4 203 0 113 0, 24, forbidden documentation)
    ∷ (ipv4 224 0 0 0, 4, forbidden multicast)
    ∷ (ipv4 240 0 0 0, 4, forbidden reserved)
    ∷ (ipv4 255 255 255 255, 32, forbidden reserved)
    ∷ []

abbrev pub v6_table : List (Ipv6Addr × ℕ × AddressClass)
v6_table =
    (ipv6 0 0 0 0 0 0 0 0, 128, forbidden unspecified)
    ∷ (ipv6 0 0 0 0 0 0 0 1, 128, is_private loopback)
    ∷ (ipv6 0 0 0 0 0 0 0 0, 96, forbidden ipv4_compatible)
    ∷ (ipv6 0x64 0xff9b 1 0 0 0 0 0, 48, forbidden reserved)
    ∷ (ipv6 0x100 0 0 0 0 0 0 0, 64, forbidden discard)
    ∷ (ipv6 0x2001 0xdb8 0 0 0 0 0 0, 32, forbidden documentation)
    ∷ (ipv6 0x2001 0 0 0 0 0 0 0, 32, forbidden teredo)
    ∷ (ipv6 0x2000 0 0 0 0 0 0 0, 3, is_public)
    ∷ (ipv6 0xfc00 0 0 0 0 0 0 0, 7, is_private unique_local)
    ∷ (ipv6 0xfe80 0 0 0 0 0 0 0, 10, is_private link_local)
    ∷ (ipv6 0xfec0 0 0 0 0 0 0 0, 10, is_private site_local)
    ∷ (ipv6 0xff00 0 0 0 0 0 0 0, 8, forbidden multicast)
    ∷ []

-- The class of the first entry that holds the address.
unfoldable pub find_v4 : Ipv4Addr → List (Ipv4Addr × ℕ × AddressClass) → AddressClass
find_v4 ip [] = is_public
find_v4 ip ((net, prefix, class) ∷ rest) = if in_v4 ip net prefix then class else find_v4 ip rest

unfoldable pub find_v6 : Ipv6Addr → List (Ipv6Addr × ℕ × AddressClass) → AddressClass
find_v6 ip [] = forbidden reserved
find_v6 ip ((net, prefix, class) ∷ rest) = if in_v6 ip net prefix then class else find_v6 ip rest

unfoldable pub classify_v4 : Ipv4Addr → AddressClass
unfolding find_v4
classify_v4 ip = find_v4 ip v4_table

unfoldable pub classify_v6 : Ipv6Addr → AddressClass
unfolding find_v6
classify_v6 ip = find_v6 ip v6_table

unfoldable pub class_of : IpAddr → AddressClass
unfolding classify_v4 classify_v6
class_of (v4 ip) = classify_v4 ip
class_of (v6 ip) = classify_v6 ip

unfoldable pub classify : IpAddr → AddressClass
classify ip = class_of (canonical ip)
