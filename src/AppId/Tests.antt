-- ===== src/AppId/Tests.antt =====
-- Ids, versions and stored keys of one app, and the theorems at them.
use citadel_agent.Prelude.{
  ℕ, ◌+◌, ◌/◌, ◌%◌, ◌≡◌, refl, true, false, ◌&&◌, some, [], ◌∷◌, ltb, leb, ◌==◌, if◌then◌else◌,
  length, All, arith,
}
use citadel_agent.Text.{Text, bytes, parse_decimal, decimal_from}
use citadel_agent.AppId.{
  ok, err, empty_label, one_label, part_leading_zero, minor_part, more_parts, validate_app_id,
  max_app_id_chars, AppVersion, parse_part, parse, display,
}
use citadel_agent.AppId.Grammar.{is_ok, matches, validate_app_id_iff}
use citadel_agent.AppId.Version.{parse-display}
use citadel_agent.AppId.Namespace.{HexEncoder, new_namespace, index}
use citadel_agent.AppId.Apart.{index_of, stored, stored-apart}

one_label_is_refused : validate_app_id (bytes "kanban") ≡ err one_label
unfolding validate_app_id
one_label_is_refused = refl

an_empty_label_is_refused : validate_app_id (bytes "com..kanban") ≡ err empty_label
unfolding validate_app_id
an_empty_label_is_refused = refl

no_leading_zero : parse (bytes "1.04.0") ≡ err (part_leading_zero minor_part)
unfolding parse parse_part parse_decimal decimal_from
no_leading_zero = refl

no_suffix_part : parse (bytes "1.4.0.1") ≡ err more_parts
unfolding parse parse_part parse_decimal decimal_from
no_suffix_part = refl

validate_app_id_iff_example : is_ok (validate_app_id (bytes "com.acme.kanban")) ≡ (
    matches true false (bytes "com.acme.kanban")
    && leb (length (bytes "com.acme.kanban")) max_app_id_chars)
validate_app_id_iff_example = validate_app_id_iff (bytes "com.acme.kanban")

abbrev version : AppVersion
version = record { major = 1; minor = 40; patch = 0 }

parse-display_example : parse (display version) ≡ ok version
parse-display_example = parse-display version (omega arith) (omega arith) (omega arith)

-- Two digits for a byte.
abbrev hex_digit : ℕ → ℕ
hex_digit d = if ltb d 10 then b'0' + d else b'W' + d

abbrev hex_encode : Text → Text
hex_encode [] = []
hex_encode (c ∷ cs) = hex_digit (c / 16) ∷ hex_digit (c % 16) ∷ hex_encode cs

colonless : (d : ℕ) → (hex_digit d == b':') ≡ false
colonless d = ground arith

digit_of : (d e : ℕ) → hex_digit d ≡ hex_digit e → d ≡ e
digit_of d e h = ground arith

hex_no_colon : (t : Text) → All (λ c. (c == b':') ≡ false) (hex_encode t)
hex_no_colon [] = tt
hex_no_colon (c ∷ cs) = (colonless (c / 16), (colonless (c % 16), hex_no_colon cs))

hex_decodes : (s t : Text) → hex_encode s ≡ hex_encode t → s ≡ t
hex_decodes [] [] h = refl
hex_decodes [] (d ∷ ds) h = absurd (cc)
hex_decodes (c ∷ cs) [] h = absurd (cc)
hex_decodes (c ∷ cs) (d ∷ ds) h =
    let high : c / 16 ≡ d / 16 = digit_of (c / 16) (d / 16) (cc h) in
    let low : c % 16 ≡ d % 16 = digit_of (c % 16) (d % 16) (cc h) in
    let same : c ≡ d = omega (arith, high, low) in
    let rest : cs ≡ ds = hex_decodes cs ds (cc h) in cc (same, rest)

abbrev hex : HexEncoder
hex = record { encode = hex_encode; no_colon = hex_no_colon; decodes = hex_decodes }

-- The index of "node:a" and "b".
stored_index :
    stored hex (bytes "com.acme") (bytes "n:a") (bytes "b") index_of
    ≡ some (bytes "app:com.acme:6e3a61:62:i")
unfolding new_namespace validate_app_id index
stored_index = refl

stored-apart_example :
    (bytes "com.acme" ≡ bytes "com.acme")
    × ((bytes "n:a" ≡ bytes "n:a") × ((bytes "b" ≡ bytes "b") × (index_of ≡ index_of)))
stored-apart_example =
    stored-apart hex (bytes "com.acme") (bytes "com.acme") (bytes "n:a") (bytes "n:a") (bytes "b")
      (bytes "b") index_of index_of (bytes "app:com.acme:6e3a61:62:i") stored_index stored_index
