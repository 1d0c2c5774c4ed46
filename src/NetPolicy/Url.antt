-- ===== src/NetPolicy/Url.antt =====
-- citadel-app-net-policy/src/url.rs: the one URL shape that an app may ask for.
pub mod Parsed
use citadel_agent.Prelude.{
  ℕ, ◌≡◌, Bool, true, false, not, ◌&&◌, ◌||◌, Option, none, some, List, [], ◌∷◌, ◌++◌, ltb, leb,
  ◌==◌, if◌then◌else◌, length, any, all, unwrap_or, is_some, map,
}
use citadel_agent.Text.{
  Text, bytes, ◌=ₜ◌, contains_byte, strip_prefix, starts_with, split_where, split, rsplit_once,
  is_digit, is_lower, is_graphic, to_lowercase, parse_decimal, is_plain_decimal,
}
use citadel_agent.NetPolicy.Limits.{max_url_bytes}
use citadel_agent.NetPolicy.Ranges.{Ipv4Addr}

pub data Scheme : Type 0 where
  https http : Scheme

abbrev pub default_port : Scheme → ℕ
default_port https = 443
default_port http = 80

pub data UrlFault : Type 0 where
  too_long character scheme credentials fragment host port : UrlFault

pub record TargetUrl : Type 0 where
  pub scheme : Scheme
  pub host : Text
  pub port : ℕ
  pub path_and_query : Text

pub data Parse {ℓ} (A : Type ℓ) : Type ℓ where
  ok : A → Parse A
  err : UrlFault → Parse A

infixl 5 ◌>>=◌
abbrev pub ◌>>=◌ {ℓ κ} : {A : Type ℓ} {B : Type κ} → Parse A → (A → Parse B) → Parse B
ok a >>= f = f a
err e >>= f = err e

-- One octet of a dotted quad.
unfoldable pub parse_octet : Text → Option ℕ
parse_octet part = if is_plain_decimal part then parse_decimal 255 part else none

abbrev pub quad : Option ℕ → Option ℕ → Option ℕ → Option ℕ → Option Ipv4Addr
quad (some a) (some b) (some c) (some d) = some (record { a = a; b = b; c = c; d = d })
quad _ _ _ _ = none

unfoldable pub quad_of : List Text → Option Ipv4Addr
unfolding parse_octet
quad_of (p ∷ q ∷ r ∷ s ∷ []) = quad (parse_octet p) (parse_octet q) (parse_octet r) (parse_octet s)
quad_of _ = none

unfoldable pub canonical_ipv4 : Text → Option Ipv4Addr
unfolding parse_octet
canonical_ipv4 text = quad_of (split b'.' text)

unfoldable pub ip_literal : TargetUrl → Option Ipv4Addr
unfolding canonical_ipv4
ip_literal t = canonical_ipv4 t.host

unfoldable pub parse_port : Text → Parse ℕ
parse_port text =
    if is_plain_decimal text
    then elim (parse_decimal 65535 text) [
      | none ↦ err port
      | some n ↦ if n == 0 then err port else ok n
    ]
    else err port

abbrev pub label_byte : ℕ → Bool
label_byte b = is_lower b || (is_digit b || b == b'-')

abbrev pub last_byte : ℕ → Text → ℕ
last_byte c [] = c
last_byte c (d ∷ ds) = last_byte d ds

unfoldable pub label_ok : Text → Bool
label_ok [] = false
label_ok (c ∷ cs) =
    leb (length (c ∷ cs)) 63
    && (not (c == b'-') && (not (last_byte c cs == b'-') && all label_byte (c ∷ cs)))

abbrev pub last_label : List Text → Text
last_label [] = []
last_label (l ∷ []) = l
last_label (l ∷ m ∷ ms) = last_label (m ∷ ms)

-- The tests of `parse_host` on a lowercased name that is no IPv4 address.
unfoldable pub is_name : Text → Bool
unfolding label_ok
is_name name =
    let labels = split b'.' name in
    let last = last_label labels in
    not (name =ₜ [])
    && (leb (length name) 253
        && (all label_ok labels && (any is_lower last && not (starts_with (bytes "0x") last))))

unfoldable pub parse_host : Text → Parse Text
unfolding is_name canonical_ipv4
parse_host text =
    let lowered = to_lowercase text in
    if is_some (canonical_ipv4 lowered) || is_name lowered then ok lowered else err host

-- A text after the host, if there is a colon.
unfoldable pub optional_port : Option Text → Parse (Option ℕ)
unfolding parse_port
optional_port none = ok none
optional_port (some text) = do n ← parse_port text; ok (some n)

abbrev pub host_part : Text → Option (Text × Text) → Text
host_part authority none = authority
host_part authority (some (l, r)) = l

abbrev pub port_part : Option (Text × Text) → Option Text
port_part none = none
port_part (some (l, r)) = some r

-- The host and the port of an authority with no bracket.
unfoldable pub host_and_port : Text → Parse (Text × Option ℕ)
unfolding parse_port parse_host
host_and_port authority = do
  p ← optional_port (port_part (rsplit_once b':' authority))
  h ← parse_host (host_part authority (rsplit_once b':' authority))
  ok (h, p)

unfoldable pub split_host_port : Text → Parse (Text × Option ℕ)
split_host_port authority =
    if starts_with (bytes "[") authority then err host else host_and_port authority

-- The scheme and what follows it.
abbrev pub split_scheme : Text → Parse (Scheme × Text)
split_scheme text = elim (strip_prefix (bytes "https://") text) [
  | some rest ↦ ok (https, rest)
  | none ↦ elim (strip_prefix (bytes "http://") text) [
    | some rest ↦ ok (http, rest)
    | none ↦ err scheme
  ]
]

abbrev pub path_of : Text → Text
path_of [] = bytes "/"
path_of (c ∷ cs) = if c == b'?' then bytes "/?" ++ cs else c ∷ cs

-- The target that an authority and what follows it make.
unfoldable pub target_of : Scheme → Text → Text → Parse TargetUrl
target_of s authority tail = do
  (h, p) ← split_host_port authority
  ok (record {
    scheme = s;
    host = h;
    port = unwrap_or p (default_port s);
    path_and_query = path_of tail;
  })

-- What follows the scheme.
unfoldable pub parse_rest : Scheme → Text → Parse TargetUrl
unfolding target_of
parse_rest s rest =
    let (authority, tail) = split_where (λ b. b == b'/' || b == b'?') rest in
    if contains_byte b'@' authority then err credentials else target_of s authority tail

unfoldable pub parse_graphic : Text → Parse TargetUrl
unfolding parse_rest
parse_graphic text = do (s, rest) ← split_scheme text; parse_rest s rest

unfoldable pub parse : Text → Parse TargetUrl
unfolding parse_graphic
parse text =
    if ltb max_url_bytes (length text)
    then err too_long
    else if not (all (λ b. is_graphic b && not (b == 0x5c)) text)
    then err character
    else if contains_byte b'#' text
    then err fragment
    else parse_graphic text
