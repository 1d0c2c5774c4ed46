-- ===== src/NetPolicy/Grant/Built.antt =====
-- What a grant that `NetGrant::new` builds holds (citadel-app-net-policy/src/grant.rs).
use citadel_agent.Prelude.{
  ◌+◌, ◌≤◌, ◌≡◌, refl, subst, Bool, true, false, List, [], ◌∷◌, ◌++◌, arith, All, All-append, ltb,
  if◌then◌else◌, length, length-append, any, Bool-cases, inl, inr,
}
use citadel_agent.Text.{Text}
use citadel_agent.NetPolicy.Limits.{max_hosts}
use citadel_agent.NetPolicy.Grant.{
  Egress, AllowedHost, GrantFault, no_hosts, too_many_hosts, duplicate, Granted, granted, fault,
  ◌>>=◌, parse_allowed, host_eq, NetGrant, add_hosts, grant_of, new_grant,
}

-- No host is the same as a later one.
abbrev pub IsDistinct : List AllowedHost → Type 0
IsDistinct [] = Unit
IsDistinct (h ∷ hs) = All (λ k. host_eq h k ≡ false) hs × IsDistinct hs

granted-inj {ℓ} : {A : Type ℓ} (a b : A) → Granted.granted a ≡ granted b → a ≡ b
granted-inj a b e = cc

fault≢granted {ℓ} : {A : Type ℓ} (f : GrantFault) (a : A) → Granted.fault f ≡ granted a → ⊥
fault≢granted f a e = cc

bind-granted {ℓ κ} :
    {A : Type ℓ} {B : Type κ} (p : Granted A) (f : A → Granted B) (b : B)
    → (p >>= f) ≡ granted b
    → (a : A) × ((p ≡ granted a) × (f a ≡ granted b))
bind-granted (granted a) f b h = (a, (refl, h))
bind-granted (fault e) f b h = absurd (fault≢granted e b h)

unguard {ℓ} :
    {A : Type ℓ} (c : Bool) (e : GrantFault) (p : Granted A) (a : A)
    → (if c then fault e else p) ≡ granted a
    → (c ≡ false) × (p ≡ granted a)
unguard true e p a h = absurd (fault≢granted e a h)
unguard false e p a h = (refl, h)

any-false {ℓ} :
    {A : Type ℓ} (p : A → Bool) (xs : List A) → any p xs ≡ false → All (λ x. p x ≡ false) xs
any-false p [] h = tt
any-false p (x ∷ xs) h = elim (Bool-cases (p x)) [
  | inl e ↦ absurd (true≢false (rw e at h))
  | inr e ↦ (e, any-false p xs (rw e at h))
]
  where
    true≢false : true ≡ false → ⊥
    true≢false e = cc

-- A host that none of the others is goes last.
IsDistinct-append :
    (hs : List AllowedHost) (h : AllowedHost)
    → IsDistinct hs
    → All (λ k. host_eq k h ≡ false) hs
    → IsDistinct (hs ++ h ∷ [])
IsDistinct-append [] h d a = (tt, tt)
IsDistinct-append (k ∷ ks) h d a = (
  All-append (λ m. host_eq k m ≡ false) ks (h ∷ []) d.0 (a.0, tt),
  IsDistinct-append ks h d.1 a.1,
)

add_hosts_lem :
    (entries : List Text) (hosts built : List AllowedHost)
    → IsDistinct hosts
    → add_hosts hosts entries ≡ granted built
    → IsDistinct built × (length built ≡ length hosts + length entries)
unfolding add_hosts
add_hosts_lem [] hosts built d h =
    let same = granted-inj hosts built h in
    (subst IsDistinct same d, subst (λ b. length b ≡ length hosts + 0) same (omega arith))
add_hosts_lem (entry ∷ entries) hosts built d h =
    let (host, (_, h1)) =
      bind-granted (parse_allowed entry)
        (λ k.
          if any (λ m. host_eq m k) hosts
          then fault (duplicate entry)
          else add_hosts (hosts ++ k ∷ []) entries)
        built h in
    let (fresh, h2) =
      unguard (any (λ m. host_eq m host) hosts) (duplicate entry)
        (add_hosts (hosts ++ host ∷ []) entries) built h1 in
    let longer : IsDistinct (hosts ++ host ∷ []) =
      IsDistinct-append hosts host d (any-false (λ m. host_eq m host) hosts fresh) in
    let (distinct, count) = add_hosts_lem entries (hosts ++ host ∷ []) built longer h2 in
    (distinct, omega (arith, count, length-append hosts (host ∷ [])))

pub record IsGrant (egress : Egress) (entries : List Text) (grant : NetGrant) : Type 0 where
  pub same_egress : grant.egress ≡ egress
  pub each : length grant.hosts ≡ length entries
  pub some_hosts : 1 ≤ length grant.hosts
  pub few_hosts : length grant.hosts ≤ max_hosts
  pub distinct : IsDistinct grant.hosts

-- A grant that is built keeps the egress, has a host for each entry, one to eight of them, and no
-- two that are the same.
pub new_grant-IsGrant :
    (egress : Egress) (entries : List Text) (grant : NetGrant)
    → new_grant egress entries ≡ granted grant
    → IsGrant egress entries grant
unfolding new_grant
new_grant-IsGrant egress [] grant h = absurd (fault≢granted no_hosts grant h)
new_grant-IsGrant egress (e ∷ es) grant h =
    let (few, h1) =
      unguard (ltb max_hosts (length (e ∷ es))) too_many_hosts
        (grant_of egress (add_hosts [] (e ∷ es))) grant h in
    built (add_hosts [] (e ∷ es)) refl h1 (ground arith)
  where
    built :
        (r : Granted (List AllowedHost))
        → add_hosts [] (e ∷ es) ≡ r
        → grant_of egress r ≡ granted grant
        → length (e ∷ es) ≤ max_hosts
        → IsGrant egress (e ∷ es) grant
    built (fault f) p g l = absurd (fault≢granted f grant g)
    built (granted hosts) p g l =
        let (distinct, count) = add_hosts_lem (e ∷ es) [] hosts tt p in
        subst (IsGrant egress (e ∷ es)) (granted-inj _ grant g) (record {
          same_egress = refl;
          each = omega (arith, count);
          some_hosts = omega (arith, count);
          few_hosts = omega (arith, count);
          distinct = distinct;
        })
