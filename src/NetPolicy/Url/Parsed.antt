-- ===== src/NetPolicy/Url/Parsed.antt =====
-- What a parsed URL is (citadel-app-net-policy/src/url.rs, `TargetUrl::parse`).
use citadel_agent.Prelude.{
  ℕ, ◌≤◌, ◌≡◌, inl, inr, refl, subst, ap, ap₂, Bool, true, false, not, ◌&&◌, ◌||◌, Option, none,
  some, [], ◌∷◌, arith, ltb, leb, ◌==◌, if◌then◌else◌, length, all, unwrap_or, is_some, Bool-cases,
  leb→le,
}
use citadel_agent.Text.{
  Text, bytes, contains_byte, starts_with, split_where, rsplit_once, is_graphic, lower,
  to_lowercase, decimal_from, parse_decimal, is_plain_decimal,
}
use citadel_agent.NetPolicy.Limits.{max_url_bytes}
use citadel_agent.NetPolicy.Url.{
  Scheme, https, http, default_port, UrlFault, too_long, character, fragment, credentials,
  TargetUrl, Parse, ok, err, ◌>>=◌, canonical_ipv4, parse_port, is_name, parse_host, optional_port,
  host_part, port_part, host_and_port, split_host_port, split_scheme, path_of, target_of,
  parse_rest, parse_graphic, parse,
}

-- A port that a connection can be made to.
abbrev pub IsPort : ℕ → Type 0
IsPort n = (1 ≤ n) × (n ≤ 65535)

-- A dotted quad or a name, and all in lower case.
pub record IsHost (host : Text) : Type 0 where
  pub form : (is_some (canonical_ipv4 host) || is_name host) ≡ true
  pub lowercase : to_lowercase host ≡ host

ok-inj {ℓ} : {A : Type ℓ} (a b : A) → Parse.ok a ≡ ok b → a ≡ b
ok-inj a b e = cc

err≢ok {ℓ} : {A : Type ℓ} (e : UrlFault) (a : A) → Parse.err e ≡ ok a → ⊥
err≢ok e a h = cc

-- A chain that succeeds has a first part that does.
bind-ok {ℓ κ} :
    {A : Type ℓ} {B : Type κ} (p : Parse A) (f : A → Parse B) (b : B)
    → (p >>= f) ≡ ok b
    → (a : A) × ((p ≡ ok a) × (f a ≡ ok b))
bind-ok (ok a) f b h = (a, (refl, h))
bind-ok (err e) f b h = absurd (err≢ok e b h)

-- A guard that fails the parse is passed over by one that succeeds.
unguard {ℓ} :
    {A : Type ℓ} (c : Bool) (e : UrlFault) (p : Parse A) (a : A)
    → (if c then err e else p) ≡ ok a
    → (c ≡ false) × (p ≡ ok a)
unguard true e p a h = absurd (err≢ok e a h)
unguard false e p a h = (refl, h)

parse_port-IsPort : (text : Text) (n : ℕ) → parse_port text ≡ ok n → IsPort n
unfolding parse_port parse_decimal
parse_port-IsPort text n h = elim (Bool-cases (is_plain_decimal text)) [
  | inr e ↦ absurd (err≢ok UrlFault.port n (rw (e, parse_port) at h))
  | inl e ↦ elim (Bool-cases (leb (decimal_from 0 text) 65535)) [
    | inr f ↦ absurd (err≢ok UrlFault.port n (rw (e, f, parse_port, parse_decimal) at h))
    | inl f ↦
        let (nonzero, same) =
          unguard (decimal_from 0 text == 0) UrlFault.port (ok (decimal_from 0 text)) n
            (rw (e, f, parse_port, parse_decimal) at h) in
        let bound = leb→le (decimal_from 0 text) 65535 f in
        subst IsPort (ok-inj _ _ same) (positive (decimal_from 0 text) nonzero, bound)
  ]
]
  where
    positive : (m : ℕ) → (m == 0) ≡ false → 1 ≤ m
    positive m f = ground arith

lower-lower : (c : ℕ) → lower (lower c) ≡ lower c
lower-lower c = ground arith

to_lowercase-to_lowercase : (t : Text) → to_lowercase (to_lowercase t) ≡ to_lowercase t
to_lowercase-to_lowercase [] = refl
to_lowercase-to_lowercase (c ∷ cs) =
    ap₂ (λ x xs. x ∷ xs) (lower-lower c) (to_lowercase-to_lowercase cs)

parse_host-IsHost : (text host : Text) → parse_host text ≡ ok host → IsHost host
unfolding parse_host
parse_host-IsHost text host h =
    elim (Bool-cases
      (is_some (canonical_ipv4 (to_lowercase text)) || is_name (to_lowercase text))) [
        | inl e ↦
            subst IsHost (ok-inj _ _ (rw (e, parse_host) at h))
              (record { form = e; lowercase = to_lowercase-to_lowercase text })
        | inr e ↦ absurd (err≢ok UrlFault.host host (rw (e, parse_host) at h))
      ]

-- The port that was written, if one was.
abbrev IsPortOption : Option ℕ → Type 0
IsPortOption none = Unit
IsPortOption (some n) = IsPort n

optional_port-IsPort : (o : Option Text) (p : Option ℕ) → optional_port o ≡ ok p → IsPortOption p
unfolding optional_port
optional_port-IsPort none p h = subst IsPortOption (ok-inj _ _ h) tt
optional_port-IsPort (some text) p h =
    let (n, (parsed, same)) = bind-ok (parse_port text) (λ n. ok (some n)) p h in
    subst IsPortOption (ok-inj _ _ same) (parse_port-IsPort text n parsed)

split_host_port_lem :
    (authority : Text) (host : Text) (p : Option ℕ)
    → split_host_port authority ≡ ok (host, p)
    → IsHost host × IsPortOption p
unfolding split_host_port host_and_port
split_host_port_lem authority host p h =
    let (bracketed, h1) =
      unguard (starts_with (bytes "[") authority) UrlFault.host (host_and_port authority) (host, p)
        h in
    let (q, (port_parsed, h2)) =
      bind-ok (optional_port (port_part (rsplit_once b':' authority)))
        (λ q. parse_host (host_part authority (rsplit_once b':' authority)) >>= λ k. ok (k, q))
        (host, p) h1 in
    let (k, (host_parsed, h3)) =
      bind-ok (parse_host (host_part authority (rsplit_once b':' authority))) (λ k. ok (k, q))
        (host, p) h2 in
    let same = ok-inj (k, q) (host, p) h3 in
    (
      subst IsHost (ap (λ r. r.0) same)
          (parse_host-IsHost (host_part authority (rsplit_once b':' authority)) k host_parsed),
      subst IsPortOption (ap (λ r. r.1) same)
          (optional_port-IsPort (port_part (rsplit_once b':' authority)) q port_parsed),
    )

pub record IsTarget (text : Text) (target : TargetUrl) : Type 0 where
  pub short : length text ≤ max_url_bytes
  pub printable : all (λ b. is_graphic b && not (b == 0x5c)) text ≡ true
  pub whole : contains_byte b'#' text ≡ false
  pub host : IsHost target.host
  pub port : IsPort target.port

target_of_lem :
    (s : Scheme) (authority tail : Text) (target : TargetUrl)
    → target_of s authority tail ≡ ok target
    → IsHost target.host × IsPort target.port
unfolding target_of
target_of_lem s authority tail target h =
    let ((host, p), (parsed, same)) =
      bind-ok (split_host_port authority)
        (λ r. ok (record {
          scheme = s;
          host = r.0;
          port = unwrap_or r.1 (default_port s);
          path_and_query = path_of tail;
        }))
        target h in
    let (good_host, good_port) = split_host_port_lem authority host p parsed in
    let t = ok-inj _ _ same in
    (
      subst IsHost (ap (λ t. t.host) t) good_host,
      subst IsPort (ap (λ t. t.port) t) (port_of s p good_port),
    )
  where
    port_of : (s : Scheme) (p : Option ℕ) → IsPortOption p → IsPort (unwrap_or p (default_port s))
    port_of https none v = (omega arith, omega arith)
    port_of http none v = (omega arith, omega arith)
    port_of s (some n) v = v

parse_rest_lem :
    (s : Scheme) (rest : Text) (target : TargetUrl)
    → parse_rest s rest ≡ ok target
    → IsHost target.host × IsPort target.port
unfolding parse_rest
parse_rest_lem s rest target h =
    let split = split_where (λ b. b == b'/' || b == b'?') rest in
    target_of_lem s split.0 split.1 target
      (unguard (contains_byte b'@' split.0) credentials (target_of s split.0 split.1) target h).1

not-false : (b : Bool) → not b ≡ false → b ≡ true
not-false true h = refl
not-false false h = absurd (cc)

-- A URL that parses is at most 8192 printable bytes with no backslash and no fragment; its host is
-- a dotted quad or a name, in lower case whatever was written; and its port, written or that of
-- the scheme, is one of 1 to 65535.
pub parse-IsTarget :
    (text : Text) (target : TargetUrl) → parse text ≡ ok target → IsTarget text target
unfolding parse parse_graphic
parse-IsTarget text target h =
    let (short, h1) = unguard (ltb max_url_bytes (length text)) too_long _ target h in
    let (plain, h2) =
      unguard (not (all (λ b. is_graphic b && not (b == 0x5c)) text)) character _ target h1 in
    let (whole, h3) = unguard (contains_byte b'#' text) fragment (parse_graphic text) target h2 in
    let ((s, rest), (_, h4)) = bind-ok (split_scheme text) (λ r. parse_rest r.0 r.1) target h3 in
    let (good_host, good_port) = parse_rest_lem s rest target h4 in
    record {
      short = ground arith;
      printable = not-false _ plain;
      whole = whole;
      host = good_host;
      port = good_port;
    }
