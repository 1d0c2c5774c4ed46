-- ===== src/Text.antt =====
-- Rust's `str` as its bytes, and the methods of `str` that the code calls. The texts that the
-- modelled code compares and splits are ASCII.
pub mod Laws
pub mod Find
use Prim.Native.Char.{code}
use Prim.Native.String
use Prim.Native.String.{String}
use citadel_agent.Prelude.{
  ℕ, ◌+◌, ◌-◌, ◌*◌, Bool, true, false, not, ◌&&◌, ◌||◌, Option, none, some, List, [], ◌∷◌, ◌++◌,
  ltb, leb, ◌==◌, if◌then◌else◌, length, any, all,
}

abbrev pub Text : Type 0
Text = List ℕ

-- The bytes of an ASCII literal.
abbrev pub bytes : String → Text
bytes String.[] = []
bytes (String.◌∷◌ c s) = code c ∷ bytes s

infix 50 ◌=ₜ◌
abbrev pub ◌=ₜ◌ : Text → Text → Bool
[] =ₜ [] = true
(x ∷ xs) =ₜ (y ∷ ys) = (x == y) && xs =ₜ ys
_ =ₜ _ = false

-- `[&str]::contains`.
abbrev pub contains_text : List Text → Text → Bool
contains_text xs t = any (λ x. t =ₜ x) xs

-- `str::contains(char)`.
abbrev pub contains_byte : ℕ → Text → Bool
contains_byte b = any (λ c. c == b)

abbrev pub strip_prefix : Text → Text → Option Text
strip_prefix [] t = some t
strip_prefix (p ∷ ps) [] = none
strip_prefix (p ∷ ps) (c ∷ cs) = if p == c then strip_prefix ps cs else none

abbrev pub starts_with : Text → Text → Bool
starts_with [] t = true
starts_with (p ∷ ps) [] = false
starts_with (p ∷ ps) (c ∷ cs) = (p == c) && starts_with ps cs

-- `t.ends_with(s)`: some tail of `t` is `s`.
abbrev pub ends_with : Text → Text → Bool
ends_with s [] = s =ₜ []
ends_with s (c ∷ cs) = s =ₜ (c ∷ cs) || ends_with s cs

-- `t.split_at(t.find(p).unwrap_or(t.len()))`.
abbrev pub split_where : (ℕ → Bool) → Text → Text × Text
split_where p [] = ([], [])
split_where p (c ∷ cs) = let r = split_where p cs in if p c then ([], c ∷ cs) else (c ∷ r.0, r.1)

abbrev pub push_front : ℕ → List Text → List Text
push_front c [] = (c ∷ []) ∷ []
push_front c (p ∷ ps) = (c ∷ p) ∷ ps

-- `t.split(b)`: never empty.
abbrev pub split : ℕ → Text → List Text
split b [] = [] ∷ []
split b (c ∷ cs) = if c == b then [] ∷ split b cs else push_front c (split b cs)

-- `t.rsplit_once(b)`.
abbrev pub rsplit_once : ℕ → Text → Option (Text × Text)
rsplit_once b [] = none
rsplit_once b (c ∷ cs) = elim (rsplit_once b cs) [
  | some (l, r) ↦ some (c ∷ l, r)
  | none ↦ if c == b then some ([], cs) else none
]

abbrev pub is_digit : ℕ → Bool
is_digit b = leb b'0' b && leb b b'9'

abbrev pub is_lower : ℕ → Bool
is_lower b = leb b'a' b && leb b b'z'

abbrev pub is_upper : ℕ → Bool
is_upper b = leb b'A' b && leb b b'Z'

-- `is_ascii_graphic`.
abbrev pub is_graphic : ℕ → Bool
is_graphic b = leb b'!' b && leb b b'~'

abbrev pub lower : ℕ → ℕ
lower b = if is_upper b then b + 32 else b

abbrev pub to_lowercase : Text → Text
to_lowercase [] = []
to_lowercase (c ∷ cs) = lower c ∷ to_lowercase cs

-- The number that a run of digits writes.
unfoldable pub decimal_from : ℕ → Text → ℕ
decimal_from n [] = n
decimal_from n (c ∷ cs) = decimal_from (n * 10 + (c - b'0')) cs

-- `parse::<uN>()` of a non-empty run of digits, up to the type's greatest value.
unfoldable pub parse_decimal : ℕ → Text → Option ℕ
unfolding decimal_from
parse_decimal most t = let n = decimal_from 0 t in if leb n most then some n else none

-- The digits of a port or an octet: not empty, all digits, no leading zero.
abbrev pub is_plain_decimal : Text → Bool
is_plain_decimal [] = false
is_plain_decimal (c ∷ cs) = all is_digit (c ∷ cs) && not (ltb 1 (length (c ∷ cs)) && c == b'0')
