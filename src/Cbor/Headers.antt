-- ===== src/Cbor/Headers.antt =====
-- A header that kernel/conversations/cbor.rs writes is read by cbor_decode.rs.
use Prim.Native.Nat.{bit_or}
use citadel_agent.Prelude.{
  ℕ, suc, ◌+◌, ◌*◌, ◌/◌, ◌%◌, ◌^◌, ◌≤◌, ◌<◌, ◌≡◌, refl, false, List, [], ◌∷◌, ◌++◌, ltb, length,
  le→leb, arith,
}
use citadel_agent.Bits.{bit_or-sum}
use citadel_agent.Cbor.{Width, inline, one, two, four, eight, to_be_bytes, major_bits, head}
use citadel_agent.Cbor.Decode.{ok, Floats, argument, count, of_major, value}
use citadel_agent.Cbor.Bytes.{number-to_be_bytes}
use citadel_agent.Cbor.Valid.{Fits}

-- The low five bits of the first byte of a header, and the bytes behind it.
abbrev pub info : ℕ → Width → ℕ
info n inline = n
info n one = 24
info n two = 25
info n four = 26
info n eight = 27

abbrev pub behind : ℕ → Width → List ℕ
behind n inline = []
behind n one = to_be_bytes 1 n
behind n two = to_be_bytes 2 n
behind n four = to_be_bytes 4 n
behind n eight = to_be_bytes 8 n

pub info-small : (n : ℕ) (w : Width) → Fits n w → info n w < 32
info-small n inline f = omega arith
info-small n one f = omega arith
info-small n two f = omega arith
info-small n four f = omega arith
info-small n eight f = omega arith

first_byte :
    (major low : ℕ) → major < 8 → low < 32 → bit_or (major_bits major) low ≡ major * 32 + low
first_byte major low m l =
    let same : major_bits major ≡ major * 2 ^ 5 = omega arith in rw same (bit_or-sum 5 major low l)

pub head-bytes :
    (major n : ℕ) (w : Width)
    → major < 8
    → Fits n w
    → head major n w ≡ (major * 32 + info n w) ∷ behind n w
head-bytes major n inline m f =
    let same : n % 256 ≡ n = omega arith in rw (same, first_byte major n m (omega arith)) refl
head-bytes major n one m f = rw (first_byte major 24 m (omega arith)) refl
head-bytes major n two m f =
    let same : n % 2 ^ 16 ≡ n = omega arith in rw (same, first_byte major 25 m (omega arith)) refl
head-bytes major n four m f =
    let same : n % 2 ^ 32 ≡ n = omega arith in rw (same, first_byte major 26 m (omega arith)) refl
head-bytes major n eight m f = rw (first_byte major 27 m (omega arith)) refl

module _ (floats : Floats) (total : ℕ) where
  pub argument-behind :
      (n : ℕ) (w : Width) (rest : List ℕ)
      → Fits n w
      → argument floats total (info n w) (behind n w ++ rest) ≡ ok ((n, w), rest)
  unfolding argument
  argument-behind n inline rest f = rw (le→leb n 23 (omega arith)) refl
  argument-behind n one rest f = rw (number-to_be_bytes floats total 1 n rest f) refl
  argument-behind n two rest f = rw (number-to_be_bytes floats total 2 n rest f) refl
  argument-behind n four rest f = rw (number-to_be_bytes floats total 4 n rest f) refl
  argument-behind n eight rest f = rw (number-to_be_bytes floats total 8 n rest f) refl

  pub count-behind :
      (n : ℕ) (w : Width) (rest : List ℕ)
      → Fits n w
      → n ≤ length rest
      → count floats total (info n w) (behind n w ++ rest) ≡ ok ((n, w), rest)
  unfolding count
  count-behind n w rest f l =
      let enough : ltb (length rest) n ≡ false = ground arith in
      rw (argument-behind n w rest f, enough) refl

  pub value-head :
      (levels major n : ℕ) (w : Width) (rest : List ℕ)
      → major < 8
      → Fits n w
      → value floats total (suc levels) (head major n w ++ rest)
        ≡ of_major floats total (value floats total levels) major (info n w) (behind n w ++ rest)
  unfolding value
  value-head levels major n w rest m f =
      let small = info-small n w f in
      let quotient : (major * 32 + info n w) / 32 ≡ major = omega (arith, small) in
      let remainder : (major * 32 + info n w) % 32 ≡ info n w = omega (arith, small) in
      rw (head-bytes major n w m f, quotient, remainder) refl
