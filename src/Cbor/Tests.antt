-- ===== src/Cbor/Tests.antt =====
-- Commands and lists encoded and read, and the theorems at them.
use citadel_agent.Prelude.{◌+◌, ◌%◌, ◌^◌, ◌≡◌, refl, true, none, [], ◌∷◌, arith}
use citadel_agent.Text.{bytes}
use citadel_agent.Cbor.{
  Value, uint, blob, str, array, boolean, null, one, two, no_items, item, bigint, object_of,
  as_bigint, write, encode,
}
use citadel_agent.Cbor.Utf8.{is_utf8}
use citadel_agent.Cbor.Decode.{
  ok, err, DecodeError, too_deep, too_long, Floats, half, max_depth, take, number, argument, count,
  value, decode,
}
use citadel_agent.Cbor.Valid.{IsValid}
use citadel_agent.Cbor.RoundTrip.{decode-encode}
use citadel_agent.Cbor.Extend.{decode-encode_cut}
use citadel_agent.Cbor.Sound.{decode-encode_again}

abbrev floats : Floats
floats = record { nan = λ b. 0x7ff8000000000000; single = λ n. n % 2 ^ 64 }

-- {"t": "hi", "n": 7n, "list": [true, null, 300]}
abbrev sample : Value
sample = object_of (
    (bytes "t", str (bytes "hi"))
    ∷ (bytes "n", bigint 7)
    ∷ (bytes "list", array (item (boolean true) (item null (item (uint 300 two) no_items))))
    ∷ [])

sample-IsValid : IsValid sample (1 + max_depth)
unfolding IsValid is_utf8
sample-IsValid = (
  omega arith,
  (
    (omega arith, refl),
    (
      (omega arith, refl),
      (
        (omega arith, refl),
        (omega arith, ((omega arith, refl), ((omega arith, (tt, (tt, (omega arith, tt)))), tt))),
      ),
    ),
  ),
)

header_of_an_object : encode (object_of []) ≡ 0xb9 ∷ 0 ∷ 0 ∷ []
unfolding encode write
header_of_an_object = refl

finds_a_key : as_bigint sample ≡ none
finds_a_key = refl

too_deep_is_refused : value floats 1 0 (0xf6 ∷ []) ≡ err too_deep
unfolding value
too_deep_is_refused = refl

forged_length : decode floats (0x9a ∷ 0xff ∷ 0xff ∷ 0xff ∷ 0xff ∷ []) ≡ err (too_long 0xffffffff 0)
unfolding decode value count argument number take
forged_length = refl

halves_widen :
    (half floats 0x3c00 ≡ 0x3ff0000000000000)
    × ((half floats 0x8001 ≡ 0xbe70000000000000) × (half floats 0xfc00 ≡ 0xfff0000000000000))
unfolding half
halves_widen = (refl, (refl, refl))

-- A byte string of one byte under a header of two bytes comes back under a header of one.
wide_header_is_lost :
    (decode floats (0x58 ∷ 0x01 ∷ 0x41 ∷ []) ≡ ok (blob (0x41 ∷ [])))
    × (encode (blob (0x41 ∷ [])) ≡ 0x41 ∷ 0x41 ∷ [])
unfolding decode value count argument number take encode write
wide_header_is_lost = (refl, refl)

decode-encode_example : decode floats (encode sample) ≡ ok sample
decode-encode_example = decode-encode floats sample sample-IsValid

decode-encode_cut_example : (e : DecodeError) × (decode floats (0xb9 ∷ 0x00 ∷ []) ≡ err e)
unfolding encode write
decode-encode_cut_example =
    decode-encode_cut floats (object_of []) (0xb9 ∷ 0x00 ∷ []) (0x00 ∷ [])
      (unfold IsValid in (omega arith, tt)) refl (omega arith)

decode-encode_again_example :
    IsValid (uint 5 one) (1 + max_depth) × (decode floats (encode (uint 5 one)) ≡ ok (uint 5 one))
unfolding decode value argument number take
decode-encode_again_example =
    decode-encode_again floats (0x18 ∷ 0x05 ∷ []) (uint 5 one)
      ((λ b. omega arith), (λ n. omega arith)) (omega arith, (omega arith, tt)) refl
