-- ===== src/Cbor/RoundTrip.antt =====
-- What kernel/conversations/cbor.rs encodes, cbor_decode.rs reads back.
use mathlib.Core.List.{append_assoc, append-nil}
use citadel_agent.Prelude.{
  ℕ, zero, suc, ◌+◌, ◌^◌, ◌≤◌, ◌<◌, ◌≡◌, refl, Bool, true, false, List, [], ◌∷◌, ◌++◌, length,
  length-append, arith,
}
use citadel_agent.Cbor.{
  Width, inline, one, two, four, eight, Value, Items, Entries, uint, nint, blob, str, array, object,
  tag, boolean, null, undefined, float, no_items, item, no_entries, field, minimal, count_items,
  count_entries, head, write, write_items, write_entries, encode,
}
use citadel_agent.Cbor.Utf8.{is_utf8}
use citadel_agent.Cbor.Decode.{
  ok, err, Floats, max_depth, count, items, entries, of_major, value, decode, trailing,
}
use citadel_agent.Cbor.Bytes.{number-to_be_bytes, take-append}
use citadel_agent.Cbor.Valid.{Fits, Opened, IsValid, AreValid, AreFields, minimal-Fits}
use citadel_agent.Cbor.Headers.{info, behind, argument-behind, count-behind, value-head}

module _ (floats : Floats) (total : ℕ) where
  abbrev ReadsBack : Value → Type 0
  ReadsBack v =
      (levels : ℕ) (rest : List ℕ)
      → IsValid v levels
      → value floats total levels (write v ++ rest) ≡ ok (v, rest)

  abbrev ReadsItems : Items → Type 0
  ReadsItems vs =
      (levels : ℕ) (rest : List ℕ)
      → AreValid vs levels
      → items floats total (value floats total levels) (count_items vs) (write_items vs ++ rest)
        ≡ ok (vs, rest)

  abbrev ReadsFields : Entries → Type 0
  ReadsFields es =
      (levels : ℕ) (rest : List ℕ)
      → AreFields es levels
      → entries floats total (value floats total levels) (count_entries es)
          (write_entries es ++ rest)
        ≡ ok (es, rest)

  -- To read back a value that opens a level is to do so below that level.
  opened {ℓ} :
      (P : ℕ → Type 0) (Q : ℕ → Type ℓ)
      → ((l : ℕ) → P l → Q (suc l))
      → (levels : ℕ) → Opened levels P
      → Q levels
  opened P Q f zero h = absurd h
  opened P Q f (suc l) h = f l h

  count-append : (n : ℕ) (xs rest : List ℕ) → n ≤ length xs → n ≤ length (xs ++ rest)
  count-append n xs rest h = omega (arith, length-append xs rest, h)

  head-pos : (major n : ℕ) (w : Width) → 0 < length (head major n w)
  head-pos major n inline = omega arith
  head-pos major n one = omega arith
  head-pos major n two = omega arith
  head-pos major n four = omega arith
  head-pos major n eight = omega arith

  more : (xs ys : List ℕ) → 0 < length xs → 0 < length (xs ++ ys)
  more xs ys h = omega (arith, length-append xs ys)

  length-write_pos : (v : Value) → 0 < length (write v)
  unfolding write
  length-write_pos (uint n w) = head-pos 0 n w
  length-write_pos (nint n w) = head-pos 1 n w
  length-write_pos (blob b) =
      more (head 2 (length b) (minimal (length b))) b (head-pos 2 _ (minimal (length b)))
  length-write_pos (str b) =
      more (head 3 (length b) (minimal (length b))) b (head-pos 3 _ (minimal (length b)))
  length-write_pos (array vs) =
      more (head 4 (count_items vs) (minimal (count_items vs))) (write_items vs)
        (head-pos 4 _ (minimal (count_items vs)))
  length-write_pos (object es w) =
      more (head 5 (count_entries es) w) (write_entries es) (head-pos 5 _ w)
  length-write_pos (tag t v) = more (head 6 t (minimal t)) (write v) (head-pos 6 t (minimal t))
  length-write_pos (boolean b) = omega arith
  length-write_pos null = omega arith
  length-write_pos undefined = omega arith
  length-write_pos (float f) = omega arith

  -- Each element takes a byte at least, so that no count of the writer is taken for a forged one.
  count_items-write : (vs : Items) → count_items vs ≤ length (write_items vs)
  unfolding write write_items
  count_items-write no_items = omega arith
  count_items-write (item v vs) =
      omega
        (arith, length-append (write v) (write_items vs), length-write_pos v, count_items-write vs)

  count_entries-write : (es : Entries) → count_entries es ≤ length (write_entries es)
  unfolding write write_entries
  count_entries-write no_entries = omega arith
  count_entries-write (field k v es) = omega (
    arith,
    length-append (write k) (write v ++ write_entries es),
    length-append (write v) (write_entries es),
    length-write_pos k,
    count_entries-write es,
  )

  -- That many levels are enough to read the value off its encoding.
  abbrev ReadsAt : Value → List ℕ → ℕ → Type 0
  ReadsAt v rest levels = value floats total levels (write v ++ rest) ≡ ok (v, rest)

  -- A header in front of other bytes.
  value-header :
      (levels major n : ℕ) (w : Width) (xs rest : List ℕ)
      → major < 8
      → Fits n w
      → value floats total (suc levels) ((head major n w ++ xs) ++ rest)
        ≡ of_major floats total
            (value floats total levels)
            major
            (info n w)
            (behind n w ++ (xs ++ rest))
  value-header levels major n w xs rest m f =
      rw append_assoc (value-head floats total levels major n w (xs ++ rest) m f)

  count-header :
      (n : ℕ) (w : Width) (xs rest : List ℕ)
      → Fits n w
      → n ≤ length xs
      → count floats total (info n w) (behind n w ++ (xs ++ rest)) ≡ ok ((n, w), xs ++ rest)
  count-header n w xs rest f l =
      count-behind floats total n w (xs ++ rest) f (count-append n xs rest l)

  read-blob : (b rest : List ℕ) (l : ℕ) → length b < 2 ^ 64 → ReadsAt (blob b) rest (suc l)
  unfolding write
  read-blob b rest l f =
      let w = minimal (length b) in
      let fits = minimal-Fits (length b) f in
      rw
        (
          value-header l 2 (length b) w b rest (omega arith) fits,
          count-header (length b) w b rest fits (omega arith),
          take-append floats total (length b) b rest refl,
        )
        refl

  read-str :
      (b rest : List ℕ) (l : ℕ)
      → length b < 2 ^ 64
      → is_utf8 b ≡ true
      → ReadsAt (str b) rest (suc l)
  unfolding write
  read-str b rest l f u =
      let w = minimal (length b) in
      let fits = minimal-Fits (length b) f in
      rw
        (
          value-header l 3 (length b) w b rest (omega arith) fits,
          count-header (length b) w b rest fits (omega arith),
          take-append floats total (length b) b rest refl,
          u,
        )
        refl

  read-array :
      (vs : Items) (rest : List ℕ) (l : ℕ)
      → ReadsItems vs
      → count_items vs < 2 ^ 64
      → AreValid vs l
      → ReadsAt (array vs) rest (suc l)
  unfolding write write_items
  read-array vs rest l ih f h =
      let w = minimal (count_items vs) in
      let fits = minimal-Fits (count_items vs) f in
      rw
        (
          value-header l 4 (count_items vs) w (write_items vs) rest (omega arith) fits,
          count-header (count_items vs) w (write_items vs) rest fits (count_items-write vs),
          ih l rest h,
        )
        refl

  read-object :
      (es : Entries) (w : Width) (rest : List ℕ) (l : ℕ)
      → ReadsFields es
      → Fits (count_entries es) w
      → AreFields es l
      → ReadsAt (object es w) rest (suc l)
  unfolding write write_entries
  read-object es w rest l ih fits h =
      rw
        (
          value-header l 5 (count_entries es) w (write_entries es) rest (omega arith) fits,
          count-header (count_entries es) w (write_entries es) rest fits (count_entries-write es),
          ih l rest h,
        )
        refl

  read-tag :
      (t : ℕ) (v : Value) (rest : List ℕ) (l : ℕ)
      → ReadsBack v
      → t < 2 ^ 64
      → IsValid v l
      → ReadsAt (tag t v) rest (suc l)
  unfolding write
  read-tag t v rest l ih f h =
      let fits = minimal-Fits t f in
      rw
        (
          value-header l 6 t (minimal t) (write v) rest (omega arith) fits,
          argument-behind floats total t (minimal t) (write v ++ rest) fits,
          ih l rest h,
        )
        refl

  read-boolean : (b : Bool) (rest : List ℕ) (l : ℕ) → ReadsAt (boolean b) rest (suc l)
  unfolding write value
  read-boolean true rest l = refl
  read-boolean false rest l = refl

  pub write-ReadsBack : (v : Value) → ReadsBack v
  unfolding write write_items write_entries IsValid AreValid AreFields value
  write-ReadsBack v = elim v as ReadsBack ReadsItems ReadsFields [
    | uint n w ↦ λ levels rest.
        opened _ (ReadsAt (uint n w) rest)
          (λ l f.
            rw
              (
                value-head floats total l 0 n w rest (omega arith) f,
                argument-behind floats total n w rest f,
              )
              refl)
          levels
    | nint n w ↦ λ levels rest.
        opened _ (ReadsAt (nint n w) rest)
          (λ l f.
            rw
              (
                value-head floats total l 1 n w rest (omega arith) f,
                argument-behind floats total n w rest f,
              )
              refl)
          levels
    | blob b ↦ λ levels rest. opened _ (ReadsAt (blob b) rest) (read-blob b rest) levels
    | str b ↦
        λ levels rest. opened _ (ReadsAt (str b) rest) (λ l h. read-str b rest l h.0 h.1) levels
    | array (vs → ih) ↦ λ levels rest.
        opened _ (ReadsAt (array vs) rest) (λ l h. read-array vs rest l ih h.0 h.1) levels
    | object (es → ih) w ↦ λ levels rest.
        opened _ (ReadsAt (object es w) rest) (λ l h. read-object es w rest l ih h.0 h.1) levels
    | tag t (w → ih) ↦ λ levels rest.
        opened _ (ReadsAt (tag t w) rest) (λ l h. read-tag t w rest l ih h.0 h.1) levels
    | boolean b ↦
        λ levels rest. opened _ (ReadsAt (boolean b) rest) (λ l h. read-boolean b rest l) levels
    | null ↦ λ levels rest. opened _ (ReadsAt null rest) (λ l h. refl) levels
    | undefined ↦ λ levels rest. opened _ (ReadsAt undefined rest) (λ l h. refl) levels
    | float f ↦ λ levels rest.
        opened _ (ReadsAt (float f) rest)
          (λ l h. rw (number-to_be_bytes floats total 8 f rest h) refl) levels
    | no_items ↦ λ levels rest h. refl
    | item (w → ih) (ws → ihs) ↦ λ levels rest h.
        rw (append_assoc, ih levels (write_items ws ++ rest) h.0, ihs levels rest h.1) refl
    | no_entries ↦ λ levels rest h. refl
    | field (k → ihk) (w → ih) (es → ihs) ↦ λ levels rest h.
        rw
          (
            append_assoc,
            append_assoc,
            ihk levels (write w ++ (write_entries es ++ rest)) h.0,
            ih levels (write_entries es ++ rest) h.1.0,
            ihs levels rest h.1.1,
          )
          refl
  ]

-- A value whose numbers fit their widths, whose strings are UTF-8 and which nests at most as deep as
-- the decoder goes is read back from its encoding as it was, the width of every number and map
-- included.
pub decode-encode :
    (floats : Floats) (v : Value) → IsValid v (1 + max_depth) → decode floats (encode v) ≡ ok v
unfolding decode encode
decode-encode floats v h =
    let whole = write-ReadsBack floats (length (write v)) v (1 + max_depth) [] h in
    rw (rw append-nil at whole) refl

-- Bytes behind the encoding of such a value are an error, which says how many there are.
pub decode-encode_trailing :
    (floats : Floats) (v : Value) (b : ℕ) (bs : List ℕ)
    → IsValid v (1 + max_depth)
    → decode floats (encode v ++ b ∷ bs) ≡ err (trailing (length (b ∷ bs)))
unfolding decode encode
decode-encode_trailing floats v b bs h =
    rw (write-ReadsBack floats (length (write v ++ b ∷ bs)) v (1 + max_depth) (b ∷ bs) h) refl
