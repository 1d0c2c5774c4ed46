-- ===== src/NetPolicy/Headers.antt =====
-- citadel-app-net-policy/src/headers.rs: the request headers that an app may set, and the response
-- headers that it is shown.
use citadel_agent.Prelude.{
  ℕ, ◌+◌, Bool, true, false, not, ◌&&◌, ◌||◌, List, [], ◌∷◌, ltb, leb, ◌==◌, if◌then◌else◌, length,
  all, any,
}
use citadel_agent.Text.{
  Text, bytes, ◌=ₜ◌, contains_text, starts_with, is_digit, is_lower, to_lowercase,
}
use citadel_agent.NetPolicy.Limits.{max_headers, max_header_bytes}

abbrev pub allowed_headers : List Text
allowed_headers =
    bytes "accept"
    ∷ bytes "accept-language"
    ∷ bytes "authorization"
    ∷ bytes "cache-control"
    ∷ bytes "content-language"
    ∷ bytes "content-type"
    ∷ bytes "cookie"
    ∷ bytes "if-match"
    ∷ bytes "if-modified-since"
    ∷ bytes "if-none-match"
    ∷ bytes "if-range"
    ∷ bytes "if-unmodified-since"
    ∷ bytes "pragma"
    ∷ bytes "range"
    ∷ bytes "user-agent"
    ∷ []

abbrev pub is_token : Text → Bool
is_token name = not (name =ₜ []) && all (λ b. is_lower b || (is_digit b || b == b'-')) name

unfoldable pub name_allowed : Text → Bool
name_allowed name =
    if not (is_token name)
    then false
    else if contains_text allowed_headers name
    then true
    else starts_with (bytes "x-") name
      && (ltb 2 (length name)
          && (not (starts_with (bytes "x-forwarded-") name) && not (name =ₜ bytes "x-real-ip")))

abbrev pub value_byte : ℕ → Bool
value_byte b = b == 9 || (leb 0x20 b && leb b 0x7e)

unfoldable pub value_allowed : Text → Bool
value_allowed = all value_byte

unfoldable pub header_allowed : Text × Text → Bool
unfolding name_allowed value_allowed
header_allowed (name, value) =
    leb (length name + length value) max_header_bytes && (name_allowed name && value_allowed value)

unfoldable pub headers_allowed : List (Text × Text) → Bool
headers_allowed headers = leb (length headers) max_headers && all header_allowed headers

abbrev pub denied_response_headers : List Text
denied_response_headers =
    bytes "set-cookie"
    ∷ bytes "set-cookie2"
    ∷ bytes "www-authenticate"
    ∷ bytes "proxy-authenticate"
    ∷ bytes "content-length"
    ∷ bytes "transfer-encoding"
    ∷ bytes "connection"
    ∷ bytes "keep-alive"
    ∷ bytes "upgrade"
    ∷ bytes "te"
    ∷ bytes "trailer"
    ∷ bytes "proxy-connection"
    ∷ []

-- `eq_ignore_ascii_case`.
abbrev pub same_ignoring_case : Text → Text → Bool
same_ignoring_case s t = to_lowercase s =ₜ to_lowercase t

unfoldable pub response_header_ok : Text → Bool
response_header_ok name =
    not (any (λ denied. same_ignoring_case denied name) denied_response_headers)
