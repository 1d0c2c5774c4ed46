-- ===== src/NetPolicy/Decide/Allows.antt =====
-- What an allowed request satisfies (citadel-app-net-policy/src/decide.rs, `check`,
-- `check_address`, `decide_redirect`).
use citadel_agent.Prelude.{
  ◌≤◌, ◌<◌, ◌≡◌, ◌≢◌, ◌↔◌, ◌⊎◌, refl, inl, inr, Bool, true, false, not, ◌&&◌, ◌||◌, Option, none,
  some, List, [], ◌∷◌, map, arith, All, Bool-cases, Option-cases, ltb, ◌==◌, if◌then◌else◌, length,
}
use citadel_agent.Text.{◌=ₜ◌, contains_text}
use citadel_agent.Text.Laws.{=ₜ_refl}
use citadel_agent.NetPolicy.Limits.{agent_port as agent_tcp_port, max_request_body_bytes}
use citadel_agent.NetPolicy.Ranges.{IpAddr, canonical}
use citadel_agent.NetPolicy.Ranges.Tables.{
  AddressClass, PrivateRange, is_public, is_private, forbidden, classify,
}
use citadel_agent.NetPolicy.Url.{TargetUrl, http, ok, parse, ip_literal}
use citadel_agent.NetPolicy.Grant.{NetGrant, Deployment, private, admits}
use citadel_agent.NetPolicy.Headers.{headers_allowed}
use citadel_agent.NetPolicy.Decide.{
  EgressRequest, DenyReason, agent_host, page_origin, agent_port, scheme, method, body, headers,
  not_listed, no_address, Allowed, allow, policy, is_metadata, is_agent_host, is_http, is_bodiless,
  methods, refuse_class, check_address, check_addresses, addresses_of, check_request, is_empty,
  check_resolved,
}

-- An address that the grant may connect to.
pub record IsReachable (grant : NetGrant) (ip : IpAddr) : Type 0 where
  pub not_metadata : is_metadata ip ≡ false
  pub plain_not_metadata : is_metadata (canonical ip) ≡ false
  pub class :
      (classify ip ≡ is_public)
      ⊎ ((private grant ≡ true) × ((r : PrivateRange) × (classify ip ≡ is_private r)))

-- A request to a target that the grant permits, whatever its addresses are.
pub record IsPermitted (request : EgressRequest) (target : TargetUrl) (grant : NetGrant)
    (deployment : Deployment) : Type 0 where
  pub not_agent : is_agent_host target.host ≡ false
  pub not_page : target.host ≢ deployment.page_origin_host
  pub not_agent_port : target.port ≢ agent_tcp_port
  pub secure : target.scheme ≡ http → private grant ≡ true
  pub known_method : contains_text methods request.method ≡ true
  pub small : request.body_len ≤ max_request_body_bytes
  pub bodiless : is_bodiless request.method ≡ true → request.body_len ≡ 0
  pub headers : headers_allowed request.headers ≡ true
  pub listed : admits grant target.host target.port ≡ true

-- What `decide` promises of the request that it allows.
pub record IsAllowed (request : EgressRequest) (resolved : List IpAddr) (grant : NetGrant)
    (deployment : Deployment) (allowed : Allowed) : Type 0 where
  pub parsed : parse request.url ≡ ok allowed.target
  pub permitted : IsPermitted request allowed.target grant deployment
  pub somewhere : 0 < length allowed.connect
  pub connects :
      allowed.connect
      ≡ map
          (λ ip. record { ip = ip; port = allowed.target.port })
          (addresses_of (ip_literal allowed.target) resolved)
  pub reachable : All (IsReachable grant) (addresses_of (ip_literal allowed.target) resolved)

guard_iff {ℓ} :
    {A : Type ℓ} (b : Bool) (r : A) (x : Option A)
    → ((if b then some r else x) ≡ none) ↔ ((b ≡ false) × (x ≡ none))
guard_iff true r x = (λ h. absurd (cc), λ h. absurd (cc))
guard_iff false r x = (λ h. (refl, h), λ h. h.1)

or→neither : (a b : Bool) → (a || b) ≡ false → (a ≡ false) × (b ≡ false)
or→neither true b h = absurd (cc)
or→neither false b h = (refl, h)

not-false : (b : Bool) → not b ≡ false → b ≡ true
not-false true h = refl
not-false false h = absurd (cc)

check_address→IsReachable :
    (ip : IpAddr) (grant : NetGrant) → check_address ip grant ≡ none → IsReachable grant ip
unfolding check_address
check_address→IsReachable ip grant h =
    let guard = (guard_iff _ _ _).0 h in
    let neither = or→neither _ _ guard.0 in
    record {
      not_metadata = neither.1;
      plain_not_metadata = neither.0;
      class = reached (private grant) (classify ip) guard.1;
    }
  where
    reached :
        (p : Bool) (c : AddressClass)
        → refuse_class p ip c ≡ none
        → (c ≡ is_public) ⊎ ((p ≡ true) × ((r : PrivateRange) × (c ≡ is_private r)))
    reached p is_public e = inl refl
    reached true (is_private r) e = inr (refl, (r, refl))
    reached false (is_private r) e = absurd (cc)
    reached p (forbidden r) e = absurd (cc)

some≢none {ℓ} : {A : Type ℓ} (r : A) → Option.some r ≢ none
some≢none r e = cc

check_addresses→All :
    (ips : List IpAddr) (grant : NetGrant)
    → check_addresses ips grant ≡ none
    → All (IsReachable grant) ips
unfolding check_addresses
check_addresses→All [] grant h = tt
check_addresses→All (ip ∷ ips) grant h = elim (Option-cases (check_address ip grant)) [
  | inl e ↦ (
    check_address→IsReachable ip grant e,
    check_addresses→All ips grant (rw (e, check_addresses) at h),
  )
  | inr (r, e) ↦ absurd (some≢none r (rw (e, check_addresses) at h))
]

-- Eight guards in a row, none of which refuses.
no_guard {ℓ} :
    {A : Type ℓ} (u v w x y z s t : Bool) (r0 r1 r2 r3 r4 r5 r6 r7 : A)
    → (if u
        then some r0
        else if v
        then some r1
        else if w
        then some r2
        else if x
        then some r3
        else if y
        then some r4
        else if z
        then some r5
        else if s
        then some r6
        else if t
        then some r7
        else none)
      ≡ none
    → (u ≡ false)
      × (v ≡ false)
      × (w ≡ false)
      × (x ≡ false)
      × (y ≡ false)
      × (z ≡ false)
      × (s ≡ false)
      × (t ≡ false)
no_guard true v w x y z s t r0 r1 r2 r3 r4 r5 r6 r7 h = absurd (cc)
no_guard false true w x y z s t r0 r1 r2 r3 r4 r5 r6 r7 h = absurd (cc)
no_guard false false true x y z s t r0 r1 r2 r3 r4 r5 r6 r7 h = absurd (cc)
no_guard false false false true y z s t r0 r1 r2 r3 r4 r5 r6 r7 h = absurd (cc)
no_guard false false false false true z s t r0 r1 r2 r3 r4 r5 r6 r7 h = absurd (cc)
no_guard false false false false false true s t r0 r1 r2 r3 r4 r5 r6 r7 h = absurd (cc)
no_guard false false false false false false true t r0 r1 r2 r3 r4 r5 r6 r7 h = absurd (cc)
no_guard false false false false false false false true r0 r1 r2 r3 r4 r5 r6 r7 h = absurd (cc)
no_guard false false false false false false false false r0 r1 r2 r3 r4 r5 r6 r7 h =
    (refl, refl, refl, refl, refl, refl, refl, refl)

pub check_request→IsPermitted :
    (request : EgressRequest) (target : TargetUrl) (grant : NetGrant) (deployment : Deployment)
    → check_request request target grant deployment ≡ none
    → IsPermitted request target grant deployment
unfolding check_request
check_request→IsPermitted request target grant deployment h =
    let (agent, page, port, plain, verb, bulk, named, listed) =
      no_guard (is_agent_host target.host) (target.host =ₜ deployment.page_origin_host)
        (target.port == agent_tcp_port) (is_http target.scheme && not (private grant))
        (not (contains_text methods request.method))
        (ltb max_request_body_bytes request.body_len
          || is_bodiless request.method && ltb 0 request.body_len)
        (not (headers_allowed request.headers)) (not (admits grant target.host target.port))
        agent_host page_origin agent_port scheme method body headers not_listed h in
    let (large, bodied) =
      or→neither (ltb max_request_body_bytes request.body_len)
        (is_bodiless request.method && ltb 0 request.body_len) bulk in
    record {
      not_agent = agent;
      not_page = λ e. same_host e page;
      not_agent_port = λ e. ground arith;
      secure = λ e. secured (rw e at plain);
      known_method = not-false _ verb;
      small = ground arith;
      bodiless = λ e. unbodied (rw e at bodied);
      headers = not-false _ named;
      listed = not-false _ listed;
    }
  where
    same_host :
        target.host ≡ deployment.page_origin_host
        → (target.host =ₜ deployment.page_origin_host) ≡ false
        → ⊥
    same_host e f = cc (=ₜ_refl deployment.page_origin_host, rw e at f)

    secured : not (private grant) ≡ false → private grant ≡ true
    secured = not-false (private grant)

    unbodied : ltb 0 request.body_len ≡ false → request.body_len ≡ 0
    unbodied f = ground arith

allow-inj : (a b : Allowed) → allow a ≡ allow b → a ≡ b
allow-inj a b e = cc

pub length-map {ℓ κ} :
    {A : Type ℓ} {B : Type κ} (f : A → B) (xs : List A) → length (map f xs) ≡ length xs
length-map f [] = refl
length-map f (x ∷ xs) = omega (arith, length-map f xs)

not_empty {ℓ} : {A : Type ℓ} (xs : List A) → is_empty xs ≡ false → 0 < length xs
not_empty [] h = absurd (cc)
not_empty (x ∷ xs) h = omega arith

-- The addresses are checked one by one and all of them are connected to.
pub check_resolved_lem :
    (target : TargetUrl) (addresses : List IpAddr) (grant : NetGrant) (allowed : Allowed)
    → check_resolved target addresses grant ≡ allow allowed
    → (0 < length addresses)
      × All (IsReachable grant) addresses
      × (record {
        target = target;
        connect = map (λ ip. record { ip = ip; port = target.port }) addresses;
      }
          ≡ allowed)
unfolding check_resolved
check_resolved_lem target addresses grant allowed h = elim (Bool-cases (is_empty addresses)) [
  | inl e ↦ absurd (refused no_address (rw (e, check_resolved) at h))
  | inr e ↦ elim (Option-cases (check_addresses addresses grant)) [
    | inl f ↦ (
      not_empty addresses e,
      check_addresses→All addresses grant f,
      allow-inj _ _ (rw (e, f, check_resolved) at h),
    )
    | inr (r, f) ↦ absurd (refused r (rw (e, f, check_resolved) at h))
  ]
]
  where
    refused : (r : DenyReason) → policy r ≡ allow allowed → ⊥
    refused r e = cc
