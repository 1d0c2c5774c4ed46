-- ===== src/Cbor/Extend.antt =====
-- More input changes nothing of what cbor_decode.rs reads, so that no part of an encoding is taken
-- for a whole one (kernel/conversations/cbor_decode.rs).
use mathlib.Core.List.{append-nil}
use citadel_agent.Prelude.{
  ℕ, zero, suc, ◌+◌, ◌/◌, ◌%◌, ◌≤◌, ◌<◌, ◌≡◌, ◌⊎◌, inl, inr, refl, sym, ap, ◌∙◌, Bool, true, false,
  Bool-cases, List, [], ◌∷◌, ◌++◌, leb, ltb, if◌then◌else◌, length, length-append, leb→le, le→leb,
  arith,
}
use citadel_agent.Cbor.{
  Width, inline, one, two, four, eight, Value, uint, nint, blob, str, array, object, tag, boolean,
  null, undefined, float, no_items, item, no_entries, field, encode,
}
use citadel_agent.Cbor.Utf8.{is_utf8}
use citadel_agent.Cbor.Decode.{
  DecodeError, Result, ok, err, Read, ◌>>=◌, Floats, half, max_depth, cut, from_be_bytes, take,
  number, argument, checked, count, items, entries, text, widened, simple_value, of_major, value,
  finish, decode,
}
use citadel_agent.Cbor.Valid.{IsValid}
use citadel_agent.Cbor.RoundTrip.{write-ReadsBack}

pub err≢ok {ℓ} : {A : Type ℓ} (e : DecodeError) (a : A) → err e ≡ ok a → ⊥
err≢ok e a h = cc

pub ok-injective {ℓ} : {A : Type ℓ} (a b : A) → ok a ≡ ok b → a ≡ b
ok-injective a b h = cc

-- Wherever the first reads a value, the second reads it with more input behind.
unfoldable pub Extends {ℓ} : {A : Type ℓ} → (List ℕ → Read A) → (List ℕ → Read A) → Type ℓ
Extends {A = A} p q =
    (xs ys : List ℕ) (a : A) (rest : List ℕ)
    → p xs ≡ ok (a, rest)
    → q (xs ++ ys) ≡ ok (a, rest ++ ys)

module _ {ℓ κ} {A : Type ℓ} {B : Type κ} where
  bind_read :
      (k l : A × List ℕ → Read B) (ys : List ℕ) (b : B) (rest : List ℕ) (r s : Read A)
      → ((a : A) (zs : List ℕ) → r ≡ ok (a, zs) → s ≡ ok (a, zs ++ ys))
      → ((a : A) (zs : List ℕ) → k (a, zs) ≡ ok (b, rest) → l (a, zs ++ ys) ≡ ok (b, rest ++ ys))
      → (r >>= k) ≡ ok (b, rest)
      → (s >>= l) ≡ ok (b, rest ++ ys)
  bind_read k l ys b rest (err e) s hr hk h = absurd (err≢ok e (b, rest) h)
  bind_read k l ys b rest (ok (a, zs)) s hr hk h = rw (hr a zs refl) (hk a zs h)

  pub bind-Extends :
      (p q : List ℕ → Read A) (k l : A × List ℕ → Read B)
      → Extends p q
      → ((a : A) → Extends (λ zs. k (a, zs)) (λ zs. l (a, zs)))
      → Extends (λ xs. p xs >>= k) (λ xs. q xs >>= l)
  unfolding Extends
  bind-Extends p q k l hp hk xs ys b rest =
      bind_read k l ys b rest (p xs) (q (xs ++ ys)) (λ a zs e. hp xs ys a zs e)
        (λ a zs e. hk a zs ys b rest e)

err-Extends {ℓ} : (A : Type ℓ) (e e' : DecodeError) → Extends {A = A} (λ xs. err e) (λ xs. err e')
unfolding Extends
err-Extends A e e' xs ys a rest h = absurd (err≢ok e (a, rest) h)

module _ {ℓ} {A : Type ℓ} where
  ok-Extends : (a : A) → Extends (λ xs. ok (a, xs)) (λ xs. ok (a, xs))
  unfolding Extends
  ok-Extends a xs ys b rest h =
      ap (λ (r : A × List ℕ). ok (r.0, r.1 ++ ys)) (ok-injective (a, xs) (b, rest) h)

  if-Extends :
      (t : Bool) (p q p' q' : List ℕ → Read A)
      → Extends p p'
      → Extends q q'
      → Extends (λ xs. if t then p xs else q xs) (λ xs. if t then p' xs else q' xs)
  if-Extends true p q p' q' h k = h
  if-Extends false p q p' q' h k = k

cut-longer :
    (n : ℕ) (xs ys : List ℕ) → n ≤ length xs → cut n (xs ++ ys) ≡ ((cut n xs).0, (cut n xs).1 ++ ys)
cut-longer zero xs ys h = refl
cut-longer (suc n) [] ys h = absurd (omega arith)
cut-longer (suc n) (x ∷ xs) ys h =
    ap (λ (r : List ℕ × List ℕ). (x ∷ r.0, r.1)) (cut-longer n xs ys (omega arith))

module _ (floats : Floats) (t u : ℕ) where
  take-Extends : (n : ℕ) → Extends (take floats t n) (take floats u n)
  unfolding take Extends
  take-Extends n xs ys a rest h = elim (Bool-cases (leb n (length xs))) [
    | inl e ↦
        let l = leb→le n (length xs) e in
        rw (le→leb n (length (xs ++ ys)) (omega (arith, length-append xs ys)), cut-longer n xs ys l)
          (ap (λ (r : List ℕ × List ℕ). ok (r.0, r.1 ++ ys))
            (ok-injective (cut n xs) (a, rest) (rw e at h)))
    | inr e ↦ absurd (err≢ok _ (a, rest) (rw e at h))
  ]

  number-Extends : (n : ℕ) → Extends (number floats t n) (number floats u n)
  unfolding number
  number-Extends n = bind-Extends _ _ _ _ (take-Extends n) (λ bs. ok-Extends (from_be_bytes bs))

  argument-Extends : (info : ℕ) → Extends (argument floats t info) (argument floats u info)
  unfolding argument
  argument-Extends info = if-Extends (leb info 23) _ _ _ _ (ok-Extends (info, inline)) (
      if-Extends (leb info 24) _ _ _ _
        (bind-Extends _ _ _ _ (number-Extends 1) (λ n. ok-Extends (n, one)))
        (if-Extends (leb info 25) _ _ _ _
          (bind-Extends _ _ _ _ (number-Extends 2) (λ n. ok-Extends (n, two)))
          (if-Extends (leb info 26) _ _ _ _
            (bind-Extends _ _ _ _ (number-Extends 4) (λ n. ok-Extends (n, four)))
            (if-Extends (leb info 27) _ _ _ _
              (bind-Extends _ _ _ _ (number-Extends 8) (λ n. ok-Extends (n, eight)))
              (err-Extends _ _ _)))))

  checked-Extends :
      (r : ℕ × Width) → Extends (λ zs. checked floats t (r, zs)) (λ zs. checked floats u (r, zs))
  unfolding Extends
  checked-Extends (n, w) xs ys a rest h = elim (Bool-cases (ltb (length xs) n)) [
    | inl e ↦ absurd (err≢ok _ (a, rest) (rw e at h))
    | inr e ↦
        let fits : ltb (length (xs ++ ys)) n ≡ false = ground (arith, length-append xs ys) in
        rw fits (
          ap (λ (r : (ℕ × Width) × List ℕ). ok (r.0, r.1 ++ ys))
            (ok-injective ((n, w), xs) (a, rest) (rw e at h)))
  ]

  count-Extends : (info : ℕ) → Extends (count floats t info) (count floats u info)
  unfolding count
  count-Extends info = bind-Extends _ _ _ _ (argument-Extends info) checked-Extends

  module _ (read read' : List ℕ → Read Value) (grows : Extends read read') where
    items-Extends : (n : ℕ) → Extends (items floats t read n) (items floats u read' n)
    items-Extends zero = ok-Extends no_items
    items-Extends (suc n) =
        bind-Extends _ _ _ _ grows
          (λ v. bind-Extends _ _ _ _ (items-Extends n) (λ vs. ok-Extends (item v vs)))

    entries-Extends : (n : ℕ) → Extends (entries floats t read n) (entries floats u read' n)
    entries-Extends zero = ok-Extends no_entries
    entries-Extends (suc n) = bind-Extends _ _ _ _ grows (λ k.
        bind-Extends _ _ _ _ grows
          (λ v. bind-Extends _ _ _ _ (entries-Extends n) (λ es. ok-Extends (field k v es))))

    text-Extends :
        (bs : List ℕ) → Extends (λ zs. text floats t (bs, zs)) (λ zs. text floats u (bs, zs))
    text-Extends bs = if-Extends (is_utf8 bs) _ _ _ _ (ok-Extends (str bs)) (err-Extends _ _ _)

    widened-Extends :
        (f : ℕ → ℕ) (n : ℕ)
        → Extends
            (λ xs. number floats t n xs >>= widened floats t f)
            (λ xs. number floats u n xs >>= widened floats u f)
    widened-Extends f n = bind-Extends _ _ _ _ (number-Extends n) (λ m. ok-Extends (float (f m)))

    simple-Extends : (info : ℕ) → Extends (simple_value floats t info) (simple_value floats u info)
    simple-Extends info = if-Extends (leb info 19) _ _ _ _ (err-Extends _ _ _) (
        if-Extends (leb info 20) _ _ _ _ (ok-Extends (boolean false)) (
          if-Extends (leb info 21) _ _ _ _ (ok-Extends (boolean true)) (
            if-Extends (leb info 22) _ _ _ _ (ok-Extends null) (
              if-Extends (leb info 23) _ _ _ _ (ok-Extends undefined) (
                if-Extends (leb info 24) _ _ _ _ (err-Extends _ _ _) (
                  if-Extends (leb info 25) _ _ _ _ (widened-Extends (half floats) 2) (
                    if-Extends (leb info 26) _ _ _ _ (widened-Extends floats.single 4) (
                      if-Extends (leb info 27) _ _ _ _ (widened-Extends (λ n. n) 8)
                        (err-Extends _ _ _)))))))))

    of_major-Extends :
        (major info : ℕ)
        → Extends (of_major floats t read major info) (of_major floats u read' major info)
    of_major-Extends zero info =
        bind-Extends _ _ _ _ (argument-Extends info) (λ a. ok-Extends (uint a.0 a.1))
    of_major-Extends (suc zero) info =
        bind-Extends _ _ _ _ (argument-Extends info) (λ a. ok-Extends (nint a.0 a.1))
    of_major-Extends (suc (suc zero)) info =
        bind-Extends _ _ _ _ (count-Extends info)
          (λ a. bind-Extends _ _ _ _ (take-Extends a.0) (λ bs. ok-Extends (blob bs)))
    of_major-Extends (suc (suc (suc zero))) info =
        bind-Extends _ _ _ _ (count-Extends info)
          (λ a. bind-Extends _ _ _ _ (take-Extends a.0) text-Extends)
    of_major-Extends (suc (suc (suc (suc zero)))) info =
        bind-Extends _ _ _ _ (count-Extends info)
          (λ a. bind-Extends _ _ _ _ (items-Extends a.0) (λ vs. ok-Extends (array vs)))
    of_major-Extends (suc (suc (suc (suc (suc zero))))) info =
        bind-Extends _ _ _ _ (count-Extends info)
          (λ a. bind-Extends _ _ _ _ (entries-Extends a.0) (λ es. ok-Extends (object es a.1)))
    of_major-Extends (suc (suc (suc (suc (suc (suc zero)))))) info =
        bind-Extends _ _ _ _ (argument-Extends info)
          (λ a. bind-Extends _ _ _ _ grows (λ v. ok-Extends (tag a.0 v)))
    of_major-Extends (suc (suc (suc (suc (suc (suc (suc m))))))) info = simple-Extends info

  value-Extends : (levels : ℕ) → Extends (value floats t levels) (value floats u levels)
  unfolding value Extends
  value-Extends zero xs ys a rest h = absurd (err≢ok _ (a, rest) h)
  value-Extends (suc levels) [] ys a rest h = absurd (err≢ok _ (a, rest) h)
  value-Extends (suc levels) (x ∷ xs) ys a rest h =
      of_major-Extends (value floats t levels) (value floats u levels) (value-Extends levels)
        (x / 32) (x % 32) xs ys a rest h

  -- A result that leaves nothing is what `finish` lets through.
  pub finished : (r : Read Value) (v : Value) → (r >>= finish) ≡ ok v → r ≡ ok (v, [])
  finished (err e) v h = absurd (err≢ok e v h)
  finished (ok (w, [])) v h = cc
  finished (ok (w, b ∷ bs)) v h = absurd (err≢ok _ v h)

Result-cases {ℓ} :
    {A : Type ℓ} (r : Result A) → ((e : DecodeError) × (r ≡ err e)) ⊎ ((a : A) × (r ≡ ok a))
Result-cases (err e) = inl (e, refl)
Result-cases (ok a) = inr (a, refl)

-- If a value's numbers fit the widths they are written with, its strings are UTF-8 and it nests at
-- most as deep as the decoder goes, then nothing that stops short of the end of its encoding is
-- decoded: it is an error.
pub decode-encode_cut :
    (floats : Floats) (v : Value) (xs ys : List ℕ)
    → IsValid v (1 + max_depth)
    → xs ++ ys ≡ encode v
    → 0 < length ys
    → (e : DecodeError) × (decode floats xs ≡ err e)
unfolding decode encode Extends
decode-encode_cut floats v xs ys h same more = elim (Result-cases (decode floats xs)) [
  | inl r ↦ r
  | inr (w, e) ↦
      let read = finished floats 0 0 (value floats (length xs) (1 + max_depth) xs) w e in
      let longer = value-Extends floats (length xs) 0 (1 + max_depth) xs ys w [] read in
      let whole = write-ReadsBack floats 0 v (1 + max_depth) [] h in
      let full : value floats 0 (1 + max_depth) (xs ++ ys) ≡ ok (v, []) =
        rw same (rw append-nil at whole) in
      absurd (nothing_left w v ys (sym longer ∙ full) more)
]
  where
    nothing_left :
        (w v : Value) (ys : List ℕ)
        → ◌≡◌ {A = Read Value} (ok (w, ys)) (ok (v, []))
        → 0 < length ys
        → ⊥
    nothing_left w v ys e more =
        absurd
          (omega (arith, ap (λ (r : Value × List ℕ). length r.1) (ok-injective (w, ys) (v, []) e)))
