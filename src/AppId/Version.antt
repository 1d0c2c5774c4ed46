-- ===== src/AppId/Version.antt =====
-- A version that is printed is parsed back (citadel-app-id/src/lib.rs).
use native.Mathlib.Nat.{pow-suc}
use citadel_agent.Prelude.{
  ℕ, zero, suc, ◌+◌, ◌-◌, ◌*◌, ◌/◌, ◌%◌, ◌^◌, ◌≤◌, ◌<◌, ◌≡◌, refl, ◌∙◌, inl, inr, Bool, true, false,
  Bool-cases, [], ◌∷◌, ◌++◌, ltb, ◌==◌, length, all, arith, le→leb,
}
use citadel_agent.Text.{Text, split, is_digit, decimal_from, parse_decimal}
use citadel_agent.AppId.{
  PartName, major_part, minor_part, patch_part, ok, AppVersion, u32_max, parse_part, parse, show,
  display,
}

decimal_from-append :
    (acc c : ℕ) (t : Text) → decimal_from acc (t ++ c ∷ []) ≡ decimal_from acc t * 10 + (c - b'0')
unfolding decimal_from
decimal_from-append acc c [] = refl
decimal_from-append acc c (d ∷ t) = decimal_from-append (acc * 10 + (d - b'0')) c t

decimal_from-show : (k n : ℕ) → n < 10 ^ k → decimal_from 0 (show k n) ≡ n
unfolding decimal_from
decimal_from-show zero n h = omega arith
decimal_from-show (suc k) n h = elim (Bool-cases (ltb n 10)) [
  | inl e ↦ rw e (omega arith)
  | inr e ↦
      let bound : n < 10 ^ k * 10 = rw (pow-suc 10 k) at h in
      rw e (
        decimal_from-append 0 (b'0' + n % 10) (show k (n / 10))
        ∙ omega (arith, decimal_from-show k (n / 10) (omega arith)))
]

-- Digits, the first of them no zero.
abbrev IsNumeral : Text → Type 0
IsNumeral [] = ⊥
IsNumeral (c ∷ cs) = (all is_digit (c ∷ cs) ≡ true) × ((c == b'0') ≡ false)

digit : (n : ℕ) → n < 10 → is_digit (b'0' + n) ≡ true
digit n h = ground arith

all-append :
    (p : ℕ → Bool) (xs : Text) (c : ℕ) → all p xs ≡ true → p c ≡ true → all p (xs ++ c ∷ []) ≡ true
all-append p [] c h d = rw d refl
all-append p (x ∷ xs) c h d = elim (Bool-cases (p x)) [
  | inl e ↦ rw e (all-append p xs c (rw e at h) d)
  | inr e ↦ absurd (cc (h, e))
]

appended_digit : (t : Text) (c : ℕ) → IsNumeral t → is_digit c ≡ true → IsNumeral (t ++ c ∷ [])
appended_digit [] c h d = absurd h
appended_digit (x ∷ xs) c (h, z) d = (all-append is_digit (x ∷ xs) c h d, z)

show-IsNumeral : (k n : ℕ) → 0 < n → n < 10 ^ k → IsNumeral (show k n)
show-IsNumeral zero n p h = absurd (omega arith)
show-IsNumeral (suc k) n p h = elim (Bool-cases (ltb n 10)) [
  | inl e ↦ rw e (rw (digit n (ground arith)) refl, ground arith)
  | inr e ↦
      let bound : n < 10 ^ k * 10 = rw (pow-suc 10 k) at h in
      rw e (
        appended_digit (show k (n / 10)) (b'0' + n % 10)
          (show-IsNumeral k (n / 10) (ground arith) (omega arith)) (digit (n % 10) (omega arith)))
]

parse_numeral :
    (name : PartName) (t : Text) (n : ℕ)
    → IsNumeral t
    → decimal_from 0 t ≡ n
    → n ≤ u32_max
    → parse_part name t ≡ ok n
unfolding parse_part parse_decimal
parse_numeral name [] n i e h = absurd i
parse_numeral name (c ∷ cs) n (d, z) e h = elim (Bool-cases (ltb 1 (length (c ∷ cs)))) [
  | inl l ↦ rw (d, l, z, e, le→leb n u32_max h) refl
  | inr l ↦ rw (d, l, e, le→leb n u32_max h) refl
]

parse_part-show : (name : PartName) (n : ℕ) → n ≤ u32_max → parse_part name (show 10 n) ≡ ok n
unfolding parse_part parse_decimal decimal_from
parse_part-show name zero h = refl
parse_part-show name (suc n) h =
    parse_numeral name (show 10 (suc n)) (suc n)
      (show-IsNumeral 10 (suc n) (omega arith) (omega arith))
      (decimal_from-show 10 (suc n) (omega arith)) h

no_dot : (c : ℕ) → is_digit c ≡ true → (c == b'.') ≡ false
no_dot c h = ground arith

show_digits : (n : ℕ) → n ≤ u32_max → all is_digit (show 10 n) ≡ true
show_digits zero h = refl
show_digits (suc n) h =
    digits_of (show 10 (suc n)) (show-IsNumeral 10 (suc n) (omega arith) (omega arith))
  where
    digits_of : (t : Text) → IsNumeral t → all is_digit t ≡ true
    digits_of [] i = absurd i
    digits_of (c ∷ cs) i = i.0

split-append :
    (xs ys : Text) → all is_digit xs ≡ true → split b'.' (xs ++ b'.' ∷ ys) ≡ xs ∷ split b'.' ys
split-append [] ys h = refl
split-append (c ∷ cs) ys h = elim (Bool-cases (is_digit c)) [
  | inl e ↦ rw (no_dot c e, split-append cs ys (rw e at h)) refl
  | inr e ↦ absurd (cc (h, e))
]

split-digits : (xs : Text) → all is_digit xs ≡ true → split b'.' xs ≡ xs ∷ []
split-digits [] h = refl
split-digits (c ∷ cs) h = elim (Bool-cases (is_digit c)) [
  | inl e ↦ rw (no_dot c e, split-digits cs (rw e at h)) refl
  | inr e ↦ absurd (cc (h, e))
]

-- A version whose parts are 32-bit numbers is parsed back from what it is printed as.
pub parse-display :
    (v : AppVersion)
    → v.major ≤ u32_max
    → v.minor ≤ u32_max
    → v.patch ≤ u32_max
    → parse (display v) ≡ ok v
unfolding parse display
parse-display v a b c =
    rw
      (
        split-append (show 10 v.major) (show 10 v.minor ++ b'.' ∷ show 10 v.patch)
            (show_digits v.major a),
        split-append (show 10 v.minor) (show 10 v.patch) (show_digits v.minor b),
        split-digits (show 10 v.patch) (show_digits v.patch c),
        parse_part-show major_part v.major a,
        parse_part-show minor_part v.minor b,
        parse_part-show patch_part v.patch c,
      )
      refl
