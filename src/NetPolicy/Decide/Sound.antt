-- ===== src/NetPolicy/Decide/Sound.antt =====
-- The verdicts of `decide` and `decide_redirect` (citadel-app-net-policy/src/decide.rs).
use citadel_agent.Prelude.{
  ℕ, ◌≤◌, ◌<◌, ◌≡◌, ◌⊎◌, refl, inl, inr, false, ◌||◌, List, sym, subst, ap, ◌∙◌, arith, Bool-cases,
  Option-cases, ltb, ◌==◌,
}
use citadel_agent.Text.{◌=ₜ◌}
use citadel_agent.Text.Laws.{=ₜ→eq}
use citadel_agent.NetPolicy.Limits.{max_redirects}
use citadel_agent.NetPolicy.Ranges.{IpAddr}
use citadel_agent.NetPolicy.Url.{
  UrlFault, TargetUrl, Scheme, https, http, Parse, ok, err, parse, ip_literal,
}
use citadel_agent.NetPolicy.Grant.{NetGrant, Deployment}
use citadel_agent.NetPolicy.Decide.{
  EgressRequest, DenyReason, url, redirect_off_host, redirect_downgrade, too_many_redirects,
  Allowed, allow, policy, addresses_of, check_request, check_resolved, check_target, decide,
  is_downgrade, follow_to, decide_redirect,
}
use citadel_agent.NetPolicy.Decide.Allows.{
  IsAllowed, IsPermitted, check_request→IsPermitted, check_resolved_lem, length-map,
}

refused : (r : DenyReason) (a : Allowed) → policy r ≡ allow a → ⊥
refused r a e = cc

Parse-cases {ℓ} :
    {A : Type ℓ} (p : Parse A) → ((e : UrlFault) × (p ≡ err e)) ⊎ ((a : A) × (p ≡ ok a))
Parse-cases (ok a) = inr (a, refl)
Parse-cases (err e) = inl (e, refl)

module _ (request : EgressRequest) (resolved : List IpAddr) (grant : NetGrant)
    (deployment : Deployment) where
  resolved-IsAllowed :
      (target : TargetUrl) (allowed : Allowed)
      → parse request.url ≡ ok target
      → IsPermitted request target grant deployment
      → check_resolved target (addresses_of (ip_literal target) resolved) grant ≡ allow allowed
      → IsAllowed request resolved grant deployment allowed
  resolved-IsAllowed target allowed p permitted h =
      let addresses = addresses_of (ip_literal target) resolved in
      let (some_address, reachable, same) = check_resolved_lem target addresses grant allowed h in
      subst (IsAllowed request resolved grant deployment) same (record {
        parsed = p;
        permitted = permitted;
        somewhere = subst (λ n. 0 < n) (sym (length-map _ addresses)) some_address;
        connects = refl;
        reachable = reachable;
      })

  -- A request that `decide` allows has a URL that parses to the target allowed; the target is
  -- neither the agent's host nor the page's, not on the agent's port, in plain HTTP only if the
  -- grant is private, and listed in the grant; the method, the body and the headers are permitted;
  -- and the addresses to connect to, at least one, are those of the target and no others, each
  -- public, or private under a private grant, and none of them a cloud's metadata service.
  pub decide-IsAllowed :
      (allowed : Allowed)
      → decide request resolved grant deployment ≡ allow allowed
      → IsAllowed request resolved grant deployment allowed
  unfolding decide check_target
  decide-IsAllowed allowed h = elim (Parse-cases (parse request.url)) [
    | inl (fault, e) ↦ absurd (refused (url fault) allowed (rw (e, decide) at h))
    | inr (target, e) ↦ elim (Option-cases (check_request request target grant deployment)) [
      | inl f ↦
          resolved-IsAllowed target allowed e
            (check_request→IsPermitted request target grant deployment f)
            (rw (e, f, decide, check_target) at h)
      | inr (r, f) ↦ absurd (refused r allowed (rw (e, f, decide, check_target) at h))
    ]
  ]

module _ (previous : Allowed) (hop : ℕ) (next : EgressRequest) (resolved : List IpAddr)
    (grant : NetGrant) (deployment : Deployment) where
  -- What `decide_redirect` promises of the hop that it allows.
  pub record IsFollowed (allowed : Allowed) : Type 0 where
    pub counted : (1 ≤ hop) × (hop ≤ max_redirects)
    pub same_host : allowed.target.host ≡ previous.target.host
    pub secure : previous.target.scheme ≡ https → allowed.target.scheme ≡ https
    pub decided : IsAllowed next resolved grant deployment allowed

  secured : (s t : Scheme) → is_downgrade s t ≡ false → s ≡ https → t ≡ https
  secured s https h e = refl
  secured https http h e = absurd (cc)
  secured http http h e = absurd (cc)

  same_target : (s t : TargetUrl) → Parse.ok s ≡ ok t → s ≡ t
  same_target s t e = cc

  follow_to-IsFollowed :
      (target : TargetUrl) (allowed : Allowed)
      → (1 ≤ hop) × (hop ≤ max_redirects)
      → parse next.url ≡ ok target
      → follow_to previous target next resolved grant deployment ≡ allow allowed
      → IsFollowed allowed
  unfolding follow_to
  follow_to-IsFollowed target allowed l p h =
      elim (Bool-cases (target.host =ₜ previous.target.host)) [
        | inr e ↦ absurd (refused redirect_off_host allowed (rw (e, follow_to) at h))
        | inl e ↦ elim (Bool-cases (is_downgrade previous.target.scheme target.scheme)) [
          | inl f ↦ absurd (refused redirect_downgrade allowed (rw (e, f, follow_to) at h))
          | inr f ↦
              let decided =
                decide-IsAllowed next resolved grant deployment allowed
                  (rw (e, f, follow_to) at h) in
              let same = same_target target allowed.target (sym p ∙ decided.parsed) in
              record {
                counted = l;
                same_host = ap (λ t. t.host) (sym same) ∙ =ₜ→eq target.host previous.target.host e;
                secure = λ s.
                    ap (λ t. t.scheme) (sym same)
                    ∙ secured previous.target.scheme target.scheme f s;
                decided = decided;
              }
        ]
      ]

  -- A redirect that is allowed is the first, second or third; it goes to the host of the hop
  -- before, never from https to http, and satisfies what every allowed request does.
  pub decide_redirect-IsFollowed :
      (allowed : Allowed)
      → decide_redirect previous hop next resolved grant deployment ≡ allow allowed
      → IsFollowed allowed
  unfolding decide_redirect
  decide_redirect-IsFollowed allowed h = elim (Bool-cases (hop == 0 || ltb max_redirects hop)) [
    | inl e ↦ absurd (refused too_many_redirects allowed (rw (e, decide_redirect) at h))
    | inr e ↦ elim (Parse-cases (parse next.url)) [
      | inl (fault, p) ↦ absurd (refused (url fault) allowed (rw (e, p, decide_redirect) at h))
      | inr (target, p) ↦
          follow_to-IsFollowed target allowed (in_range hop e) p (rw (e, p, decide_redirect) at h)
    ]
  ]
    where
      in_range : (n : ℕ) → (n == 0 || ltb max_redirects n) ≡ false → (1 ≤ n) × (n ≤ max_redirects)
      in_range n f = ground arith
