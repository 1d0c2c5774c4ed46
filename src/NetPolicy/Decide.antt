-- ===== src/NetPolicy/Decide.antt =====
-- citadel-app-net-policy/src/decide.rs: may this request leave, and to which addresses.
pub mod Allows
pub mod Sound
pub mod Public
use citadel_agent.Prelude.{
  ℕ, Bool, true, false, not, ◌&&◌, ◌||◌, Option, none, some, List, [], ◌∷◌, ltb, ◌==◌,
  if◌then◌else◌, map,
}
use citadel_agent.Text.{Text, bytes, ◌=ₜ◌, contains_text, ends_with}
use citadel_agent.NetPolicy.Limits.{
  agent_loopback_host, agent_port as agent_tcp_port, max_redirects, max_request_body_bytes,
}
use citadel_agent.NetPolicy.Ranges.{Ipv4Addr, Ipv6Addr, IpAddr, v4, v6, ipv4, ipv6, canonical}
use citadel_agent.NetPolicy.Ranges.Tables.{AddressClass, is_public, is_private, forbidden, classify}
use citadel_agent.NetPolicy.Url.{
  UrlFault, TargetUrl, Scheme, https, http, Parse, ok, err, parse, ip_literal,
}
use citadel_agent.NetPolicy.Grant.{NetGrant, Deployment, private, admits}
use citadel_agent.NetPolicy.Headers.{headers_allowed}

abbrev pub v4_eq : Ipv4Addr → Ipv4Addr → Bool
v4_eq x y = x.a == y.a && (x.b == y.b && (x.c == y.c && x.d == y.d))

abbrev pub v6_eq : Ipv6Addr → Ipv6Addr → Bool
v6_eq x y =
    x.s0 == y.s0
    && (x.s1 == y.s1
        && (x.s2 == y.s2
            && (x.s3 == y.s3
                && (x.s4 == y.s4 && (x.s5 == y.s5 && (x.s6 == y.s6 && x.s7 == y.s7))))))

abbrev pub ip_eq : IpAddr → IpAddr → Bool
ip_eq (v4 x) (v4 y) = v4_eq x y
ip_eq (v6 x) (v6 y) = v6_eq x y
ip_eq _ _ = false

-- `METADATA.contains`.
unfoldable pub is_metadata : IpAddr → Bool
is_metadata ip =
    ip_eq ip (v4 (ipv4 169 254 169 254))
    || (ip_eq ip (v4 (ipv4 100 100 100 200)) || ip_eq ip (v6 (ipv6 0xfd00 0xec2 0 0 0 0 0 0x254)))

abbrev pub methods : List Text
methods =
    bytes "GET" ∷ bytes "POST" ∷ bytes "PUT" ∷ bytes "DELETE" ∷ bytes "PATCH" ∷ bytes "HEAD" ∷ []

pub record EgressRequest : Type 0 where
  pub method : Text
  pub url : Text
  pub headers : List (Text × Text)
  pub body_len : ℕ

pub data DenyReason : Type 0 where
  url : UrlFault → DenyReason
  scheme method body headers not_listed agent_host page_origin no_address agent_port : DenyReason
  metadata : IpAddr → DenyReason
  address : IpAddr → AddressClass → DenyReason
  too_many_redirects redirect_off_host redirect_downgrade : DenyReason

pub record SocketAddr : Type 0 where
  pub ip : IpAddr
  pub port : ℕ

pub record Allowed : Type 0 where
  pub target : TargetUrl
  pub connect : List SocketAddr

pub data Verdict : Type 0 where
  allow : Allowed → Verdict
  policy : DenyReason → Verdict

-- `host.ends_with(".local.avarok.net")`.
unfoldable pub is_agent_host : Text → Bool
is_agent_host host = host =ₜ agent_loopback_host || ends_with (b'.' ∷ agent_loopback_host) host

abbrev pub is_http : Scheme → Bool
is_http http = true
is_http https = false

abbrev pub is_bodiless : Text → Bool
is_bodiless m = m =ₜ bytes "GET" || m =ₜ bytes "HEAD"

-- The refusal for a class, unless it may be reached.
abbrev pub refuse_class : Bool → IpAddr → AddressClass → Option DenyReason
refuse_class private ip is_public = none
refuse_class true ip (is_private r) = none
refuse_class false ip (is_private r) = some (address ip (is_private r))
refuse_class private ip (forbidden r) = some (address ip (forbidden r))

unfoldable pub check_address : IpAddr → NetGrant → Option DenyReason
check_address ip grant =
    if is_metadata (canonical ip) || is_metadata ip
    then some (metadata ip)
    else refuse_class (private grant) ip (classify ip)

-- The first refusal among the addresses.
unfoldable pub check_addresses : List IpAddr → NetGrant → Option DenyReason
check_addresses [] grant = none
check_addresses (ip ∷ ips) grant = elim (check_address ip grant) [
  | some r ↦ some r
  | none ↦ check_addresses ips grant
]

abbrev pub addresses_of : Option Ipv4Addr → List IpAddr → List IpAddr
addresses_of (some literal) resolved = v4 literal ∷ []
addresses_of none resolved = resolved

-- The tests on the target and the request, before any address is looked at.
unfoldable pub check_request : EgressRequest → TargetUrl → NetGrant → Deployment → Option DenyReason
check_request request target grant deployment =
    if is_agent_host target.host
    then some agent_host
    else if target.host =ₜ deployment.page_origin_host
    then some page_origin
    else if target.port == agent_tcp_port
    then some agent_port
    else if is_http target.scheme && not (private grant)
    then some scheme
    else if not (contains_text methods request.method)
    then some method
    else if ltb max_request_body_bytes request.body_len
        || is_bodiless request.method && ltb 0 request.body_len
    then some body
    else if not (headers_allowed request.headers)
    then some headers
    else if not (admits grant target.host target.port)
    then some not_listed
    else none

abbrev pub is_empty {ℓ} : {A : Type ℓ} → List A → Bool
is_empty [] = true
is_empty (x ∷ xs) = false

-- The addresses to connect to, once the request has passed.
unfoldable pub check_resolved : TargetUrl → List IpAddr → NetGrant → Verdict
check_resolved target addresses grant =
    if is_empty addresses then policy no_address else elim (check_addresses addresses grant) [
      | some r ↦ policy r
      | none ↦ allow (record {
        target = target;
        connect = map (λ ip. record { ip = ip; port = target.port }) addresses;
      })
    ]

unfoldable pub check_target :
    EgressRequest → TargetUrl → List IpAddr → NetGrant → Deployment → Verdict
unfolding check_request check_resolved
check_target request target resolved grant deployment =
    elim (check_request request target grant deployment) [
      | some r ↦ policy r
      | none ↦ check_resolved target (addresses_of (ip_literal target) resolved) grant
    ]

unfoldable pub decide : EgressRequest → List IpAddr → NetGrant → Deployment → Verdict
unfolding check_target
decide request resolved grant deployment = elim (parse request.url) [
  | err fault ↦ policy (url fault)
  | ok target ↦ check_target request target resolved grant deployment
]

-- The scheme of the next hop against that of the last.
abbrev pub is_downgrade : Scheme → Scheme → Bool
is_downgrade https http = true
is_downgrade _ _ = false

-- A parsed hop against the request that it follows.
unfoldable pub follow_to :
    Allowed → TargetUrl → EgressRequest → List IpAddr → NetGrant → Deployment → Verdict
follow_to previous target next resolved grant deployment =
    if not (target.host =ₜ previous.target.host)
    then policy redirect_off_host
    else if is_downgrade previous.target.scheme target.scheme
    then policy redirect_downgrade
    else decide next resolved grant deployment

unfoldable pub decide_redirect :
    Allowed → ℕ → EgressRequest → List IpAddr → NetGrant → Deployment → Verdict
unfolding follow_to
decide_redirect previous hop next resolved grant deployment =
    let decided : Verdict = elim (parse next.url) [
      | err fault ↦ policy (url fault)
      | ok target ↦ follow_to previous target next resolved grant deployment
    ] in
    if hop == 0 || ltb max_redirects hop then policy too_many_redirects else decided
