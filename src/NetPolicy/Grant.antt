-- ===== src/NetPolicy/Grant.antt =====
-- citadel-app-net-policy/src/grant.rs: what an install was granted.
pub mod Built
use citadel_agent.Prelude.{
  ℕ, Bool, true, false, not, ◌&&◌, ◌||◌, Option, none, some, List, [], ◌∷◌, ◌++◌, ltb, ◌==◌,
  if◌then◌else◌, length, any,
}
use citadel_agent.Text.{Text, ◌=ₜ◌, contains_byte, to_lowercase}
use citadel_agent.NetPolicy.Limits.{default_ports, max_hosts}
use citadel_agent.NetPolicy.Url.{Parse, ok, err, split_host_port}

pub data Egress : Type 0 where
  host : Bool → Egress
  server : Egress

pub record AllowedHost : Type 0 where
  pub name : Text
  pub port : Option ℕ

pub data GrantFault : Type 0 where
  no_hosts too_many_hosts : GrantFault
  wildcard malformed duplicate : Text → GrantFault

pub data Granted {ℓ} (A : Type ℓ) : Type ℓ where
  granted : A → Granted A
  fault : GrantFault → Granted A

infixl 5 ◌>>=◌
abbrev pub ◌>>=◌ {ℓ κ} : {A : Type ℓ} {B : Type κ} → Granted A → (A → Granted B) → Granted B
granted a >>= f = f a
fault e >>= f = fault e

-- `entry.contains(['/', '@', '?', '#'])`.
abbrev pub has_delimiter : Text → Bool
has_delimiter = any (λ b. b == b'/' || (b == b'@' || (b == b'?' || b == b'#')))

-- The entry's host and port, or the one fault that a bad one is.
abbrev pub allowed_of : Text → Parse (Text × Option ℕ) → Granted AllowedHost
allowed_of entry (ok (h, p)) = granted (record { name = h; port = p })
allowed_of entry (err e) = fault (malformed entry)

unfoldable pub parse_allowed : Text → Granted AllowedHost
parse_allowed entry =
    if contains_byte b'*' entry
    then fault (wildcard entry)
    else if has_delimiter entry || not (entry =ₜ to_lowercase entry)
    then fault (malformed entry)
    else allowed_of entry (split_host_port entry)

abbrev pub admits_port : Option ℕ → ℕ → Bool
admits_port (some listed) port = listed == port
admits_port none port = any (λ p. port == p) default_ports

unfoldable pub host_admits : AllowedHost → Text → ℕ → Bool
host_admits entry name port = entry.name =ₜ name && admits_port entry.port port

-- The derived equality of `AllowedHost`.
abbrev pub port_eq : Option ℕ → Option ℕ → Bool
port_eq none none = true
port_eq (some a) (some b) = a == b
port_eq _ _ = false

abbrev pub host_eq : AllowedHost → AllowedHost → Bool
host_eq x y = x.name =ₜ y.name && port_eq x.port y.port

pub record NetGrant : Type 0 where
  pub egress : Egress
  pub hosts : List AllowedHost

-- The loop of `NetGrant::new`, over the hosts so far.
unfoldable pub add_hosts : List AllowedHost → List Text → Granted (List AllowedHost)
add_hosts hosts [] = granted hosts
add_hosts hosts (entry ∷ entries) = parse_allowed entry >>= λ h.
    let rest = add_hosts (hosts ++ h ∷ []) entries in
    if any (λ k. host_eq k h) hosts then fault (duplicate entry) else rest

abbrev pub grant_of : Egress → Granted (List AllowedHost) → Granted NetGrant
grant_of egress (granted hosts) = granted (record { egress = egress; hosts = hosts })
grant_of egress (fault f) = fault f

unfoldable pub new_grant : Egress → List Text → Granted NetGrant
unfolding add_hosts
new_grant egress [] = fault no_hosts
new_grant egress (e ∷ es) =
    if ltb max_hosts (length (e ∷ es))
    then fault too_many_hosts
    else grant_of egress (add_hosts [] (e ∷ es))

abbrev pub is_private_egress : Egress → Bool
is_private_egress (host p) = p
is_private_egress server = false

unfoldable pub private : NetGrant → Bool
private g = is_private_egress g.egress

unfoldable pub admits : NetGrant → Text → ℕ → Bool
admits g name port = any (λ entry. host_admits entry name port) g.hosts

pub record Deployment : Type 0 where
  pub page_origin_host : Text
