-- ===== src/Cbor/Decode.antt =====
-- kernel/conversations/cbor_decode.rs. What a single precision float widens to and the bits of NaN
-- are parameters: they are the language's, and the encoder writes neither.
use citadel_agent.Prelude.{
  ℕ, zero, suc, ◌+◌, ◌-◌, ◌*◌, ◌/◌, ◌%◌, ◌^◌, ◌==◌, ◌&&◌, not, Bool, true, false, List, [], ◌∷◌,
  leb, ltb, if◌then◌else◌, length,
}
use citadel_agent.Cbor.{
  Width, inline, one, two, four, eight, Value, Items, Entries, uint, nint, blob, str, array, object,
  tag, boolean, null, undefined, float, no_items, item, no_entries, field,
}
use citadel_agent.Cbor.Utf8.{is_utf8}

-- `DecodeError`, by what its text says.
pub data DecodeError : Type 0 where
  trailing : ℕ → DecodeError
  truncated : ℕ → DecodeError
  reserved : ℕ → DecodeError
  too_long : ℕ → ℕ → DecodeError
  too_deep : DecodeError
  invalid_utf8 : DecodeError
  unsupported : ℕ → DecodeError

pub data Result {ℓ} (A : Type ℓ) : Type ℓ where
  ok : A → Result A
  err : DecodeError → Result A

infixl 5 ◌>>=◌
abbrev pub ◌>>=◌ {ℓ κ} : {A : Type ℓ} {B : Type κ} → Result A → (A → Result B) → Result B
ok a >>= f = f a
err e >>= f = err e

-- What a read gives, and the bytes it leaves.
abbrev pub Read {ℓ} : Type ℓ → Type ℓ
Read A = Result (A × List ℕ)

-- What the language does with floats, as bits: the NaN of either sign that a product has, which is
-- left open, and how a single precision float widens.
pub record Floats : Type 0 where
  pub nan : Bool → ℕ
  pub single : ℕ → ℕ

-- The bits of a number below 1, `f / 1024` times a power of two: doubled until its leading bit is
-- the implicit one.
abbrev pub normalised : ℕ → ℕ → ℕ → ℕ
normalised zero exponent f = 0
normalised (suc rounds) exponent f =
    let doubled = normalised rounds (exponent - 1) (2 * f) in
    if leb 1024 f then exponent * 2 ^ 52 + (f - 1024) * 2 ^ 42 else doubled

abbrev pub magnitude : ℕ → ℕ → ℕ
magnitude exponent fraction =
    if exponent == 0
    then normalised 11 1009 fraction
    else if exponent == 31
    then 2047 * 2 ^ 52
    else (exponent + 1008) * 2 ^ 52 + fraction * 2 ^ 42

-- The value of a half precision float, as the bits of an `f64`.
unfoldable pub half : Floats → ℕ → ℕ
half floats bits =
    let sign = bits / 2 ^ 15 % 2 in
    let exponent = bits / 2 ^ 10 % 32 in
    let fraction = bits % 1024 in
    if (exponent == 31) && not (fraction == 0)
    then floats.nan (sign == 1)
    else sign * 2 ^ 63 + magnitude exponent fraction

abbrev pub max_depth : ℕ
max_depth = 64

abbrev pub cut : ℕ → List ℕ → List ℕ × List ℕ
cut zero bs = ([], bs)
cut (suc n) [] = ([], [])
cut (suc n) (b ∷ bs) = let r = cut n bs in (b ∷ r.0, r.1)

abbrev pub from_be : ℕ → List ℕ → ℕ
from_be acc [] = acc
from_be acc (b ∷ bs) = from_be (acc * 256 + b) bs

abbrev pub from_be_bytes : List ℕ → ℕ
from_be_bytes bs = from_be 0 bs

module _ (floats : Floats) (total : ℕ) where
  -- The reader's position is what `rest` has lost of the `total` bytes.
  unfoldable pub take : ℕ → List ℕ → Read (List ℕ)
  take n rest =
      if leb n (length rest) then ok (cut n rest) else err (truncated (total - length rest))

  unfoldable pub number : ℕ → List ℕ → Read ℕ
  unfolding take
  number n rest = do (bs, rest) ← take n rest; ok (from_be_bytes bs, rest)

  abbrev pub wide : Width → ℕ × List ℕ → Read (ℕ × Width)
  wide w (n, rest) = ok ((n, w), rest)

  unfoldable pub argument : ℕ → List ℕ → Read (ℕ × Width)
  unfolding number
  argument info rest =
      if leb info 23
      then ok ((info, inline), rest)
      else if leb info 24
      then number 1 rest >>= wide one
      else if leb info 25
      then number 2 rest >>= wide two
      else if leb info 26
      then number 4 rest >>= wide four
      else if leb info 27
      then number 8 rest >>= wide eight
      else err (reserved info)

  abbrev pub checked : (ℕ × Width) × List ℕ → Read (ℕ × Width)
  checked ((n, w), rest) =
      if ltb (length rest) n then err (too_long n (length rest)) else ok ((n, w), rest)

  unfoldable pub count : ℕ → List ℕ → Read (ℕ × Width)
  unfolding argument
  count info rest = argument info rest >>= checked

  -- The loops over the elements, `read` being how one value is read.
  abbrev pub items : (List ℕ → Read Value) → ℕ → List ℕ → Read Items
  items read zero rest = ok (no_items, rest)
  items read (suc n) rest = do
    (v, rest) ← read rest
    (vs, rest) ← items read n rest
    ok (item v vs, rest)

  abbrev pub entries : (List ℕ → Read Value) → ℕ → List ℕ → Read Entries
  entries read zero rest = ok (no_entries, rest)
  entries read (suc n) rest = do
    (k, rest) ← read rest
    (v, rest) ← read rest
    (es, rest) ← entries read n rest
    ok (field k v es, rest)

  abbrev pub text : List ℕ × List ℕ → Read Value
  text (bs, rest) = if is_utf8 bs then ok (str bs, rest) else err invalid_utf8

  abbrev pub widened : (ℕ → ℕ) → ℕ × List ℕ → Read Value
  widened f (n, rest) = ok (float (f n), rest)

  abbrev pub simple_value : ℕ → List ℕ → Read Value
  simple_value info rest =
      if leb info 19
      then err (unsupported info)
      else if leb info 20
      then ok (boolean false, rest)
      else if leb info 21
      then ok (boolean true, rest)
      else if leb info 22
      then ok (null, rest)
      else if leb info 23
      then ok (undefined, rest)
      else if leb info 24
      then err (unsupported info)
      else if leb info 25
      then number 2 rest >>= widened (half floats)
      else if leb info 26
      then number 4 rest >>= widened floats.single
      else if leb info 27
      then number 8 rest >>= widened (λ n. n)
      else err (unsupported info)

  abbrev pub of_major : (List ℕ → Read Value) → ℕ → ℕ → List ℕ → Read Value
  of_major read zero info rest = do ((n, w), rest) ← argument info rest; ok (uint n w, rest)
  of_major read (suc zero) info rest = do ((n, w), rest) ← argument info rest; ok (nint n w, rest)
  of_major read (suc (suc zero)) info rest = do
    ((n, w), rest) ← count info rest
    (bs, rest) ← take n rest
    ok (blob bs, rest)
  of_major read (suc (suc (suc zero))) info rest = do
    ((n, w), rest) ← count info rest
    bs ← take n rest
    text bs
  of_major read (suc (suc (suc (suc zero)))) info rest = do
    ((n, w), rest) ← count info rest
    (vs, rest) ← items read n rest
    ok (array vs, rest)
  of_major read (suc (suc (suc (suc (suc zero))))) info rest = do
    ((n, w), rest) ← count info rest
    (es, rest) ← entries read n rest
    ok (object es w, rest)
  of_major read (suc (suc (suc (suc (suc (suc zero)))))) info rest = do
    ((t, w), rest) ← argument info rest
    (v, rest) ← read rest
    ok (tag t v, rest)
  of_major read _ info rest = simple_value info rest

  -- `levels` is how many levels may still be opened: 1 + MAX_DEPTH - depth.
  unfoldable pub value : ℕ → List ℕ → Read Value
  unfolding take argument count number
  value zero rest = err too_deep
  value (suc levels) [] = err (truncated total)
  value (suc levels) (initial ∷ rest) = of_major (value levels) (initial / 32) (initial % 32) rest

abbrev pub finish : Value × List ℕ → Result Value
finish (v, []) = ok v
finish (v, b ∷ bs) = err (trailing (length (b ∷ bs)))

unfoldable pub decode : Floats → List ℕ → Result Value
unfolding value
decode floats bytes = value floats (length bytes) (1 + max_depth) bytes >>= finish
