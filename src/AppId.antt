-- ===== src/AppId.antt =====
-- citadel-app-id/src/lib.rs: what an app's id and a release's version are, over ASCII texts.
pub mod Grammar
pub mod Version
pub mod Namespace
pub mod Apart
mod Tests
use citadel_agent.Prelude.{
  ℕ, zero, suc, ◌+◌, ◌-◌, ◌*◌, ◌/◌, ◌%◌, ◌^◌, Bool, true, false, not, ◌&&◌, ◌||◌, Option, none,
  some, List, [], ◌∷◌, ◌++◌, ltb, leb, ◌==◌, if◌then◌else◌, length, all,
}
use citadel_agent.Text.{Text, split, is_digit, is_lower, parse_decimal}

abbrev pub max_app_id_chars : ℕ
max_app_id_chars = 64

pub data PartName : Type 0 where
  major_part minor_part patch_part : PartName

-- `IdentityRefusal`, by what its text says.
pub data IdentityRefusal : Type 0 where
  id_empty id_too_long empty_label label_start label_bytes one_label : IdentityRefusal
  no_part part_empty part_not_decimal part_leading_zero part_too_large : PartName → IdentityRefusal
  more_parts : IdentityRefusal

pub data Result {ℓ} (A : Type ℓ) : Type ℓ where
  ok : A → Result A
  err : IdentityRefusal → Result A

infixl 5 ◌>>=◌
abbrev pub ◌>>=◌ {ℓ κ} : {A : Type ℓ} {B : Type κ} → Result A → (A → Result B) → Result B
ok a >>= f = f a
err e >>= f = err e

abbrev pub starts_label : ℕ → Bool
starts_label b = is_lower b || is_digit b

abbrev pub in_label : ℕ → Bool
in_label b = is_lower b || (is_digit b || b == b'-')

abbrev pub check_label : Text → Result {0} Unit
check_label [] = err empty_label
check_label (c ∷ cs) =
    if not (starts_label c)
    then err label_start
    else if not (all in_label cs)
    then err label_bytes
    else ok tt

abbrev pub check_labels : List Text → Result {0} Unit
check_labels [] = ok tt
check_labels (l ∷ ls) = check_label l >>= λ _. check_labels ls

unfoldable pub validate_app_id : Text → Result {0} Unit
validate_app_id id =
    let labels = split b'.' id in
    if length id == 0
    then err id_empty
    else if ltb max_app_id_chars (length id)
    then err id_too_long
    else check_labels labels >>= λ _. if ltb (length labels) 2 then err one_label else ok tt

pub record AppVersion : Type 0 where
  pub major : ℕ
  pub minor : ℕ
  pub patch : ℕ

abbrev pub u32_max : ℕ
u32_max = 4294967295

abbrev pub fits_u32 : PartName → Option ℕ → Result ℕ
fits_u32 name none = err (part_too_large name)
fits_u32 name (some n) = ok n

unfoldable pub parse_part : PartName → Text → Result ℕ
unfolding parse_decimal
parse_part name [] = err (part_empty name)
parse_part name (c ∷ cs) =
    if not (all is_digit (c ∷ cs))
    then err (part_not_decimal name)
    else if ltb 1 (length (c ∷ cs)) && c == b'0'
    then err (part_leading_zero name)
    else fits_u32 name (parse_decimal u32_max (c ∷ cs))

-- The next part, and the parts left.
abbrev pub next_part : PartName → List Text → Result (ℕ × List Text)
next_part name [] = err (no_part name)
next_part name (p ∷ ps) = parse_part name p >>= λ n. ok (n, ps)

abbrev pub no_more : AppVersion → List Text → Result AppVersion
no_more version [] = ok version
no_more version (p ∷ ps) = err more_parts

unfoldable pub parse : Text → Result AppVersion
parse text = do
  (a, ps) ← next_part major_part (split b'.' text)
  (b, qs) ← next_part minor_part ps
  (c, rs) ← next_part patch_part qs
  no_more (record { major = a; minor = b; patch = c }) rs

-- A number in decimal; ten digits are enough for a `u32`.
abbrev pub show : ℕ → ℕ → Text
show zero n = []
show (suc k) n =
    let higher = show k (n / 10) in
    if ltb n 10 then (b'0' + n) ∷ [] else higher ++ (b'0' + n % 10) ∷ []

unfoldable pub display : AppVersion → Text
display v = show 10 v.major ++ b'.' ∷ (show 10 v.minor ++ b'.' ∷ show 10 v.patch)
