-- ===== src/Cbor/Sound.antt =====
-- What cbor_decode.rs accepts is a value that cbor.rs writes without loss, so that it is encoded to
-- bytes that decode to it again.
use native.Mathlib.Nat.{pow-suc}
use citadel_agent.Prelude.{
  ℕ, zero, suc, ◌+◌, ◌*◌, ◌/◌, ◌%◌, ◌^◌, ◌≤◌, ◌<◌, ◌≡◌, inl, inr, refl, sym, ap, subst, Bool, true,
  false, Bool-cases, List, [], ◌∷◌, leb, ltb, if◌then◌else◌, length, leb→le, arith, All,
}
use citadel_agent.Cbor.{
  Width, inline, one, two, four, eight, Value, Items, Entries, uint, nint, blob, str, array, object,
  tag, boolean, null, undefined, float, no_items, item, no_entries, field, count_items,
  count_entries, encode,
}
use citadel_agent.Cbor.Utf8.{is_utf8}
use citadel_agent.Cbor.Decode.{
  DecodeError, ok, err, Read, ◌>>=◌, Floats, half, max_depth, cut, from_be, from_be_bytes, take,
  number, wide, argument, checked, count, items, entries, text, widened, simple_value, of_major,
  value, decode,
}
use citadel_agent.Cbor.Valid.{Fits, IsValid, AreValid, AreFields}
use citadel_agent.Cbor.RoundTrip.{decode-encode}
use citadel_agent.Cbor.Widened.{Widens, half-bounded}
use citadel_agent.Cbor.Extend.{err≢ok, ok-injective, finished}

abbrev pub IsByte : ℕ → Type 0
IsByte b = b < 256

-- On bytes the reader gives what is so, and leaves bytes.
unfoldable Yields {ℓ κ} : {A : Type ℓ} → (A → Type κ) → (List ℕ → Read A) → Type (ℓ ⊔ κ)
Yields {A = A} Q p =
    (xs : List ℕ)
    → All IsByte xs
    → (a : A) (rest : List ℕ) → p xs ≡ ok (a, rest)
    → Q a × All IsByte rest

module _ {ℓ κ ℓ' κ'} {A : Type ℓ} {B : Type κ} (P : A → Type ℓ') (Q : B → Type κ') where
  bind_result :
      (k : A × List ℕ → Read B) (b : B) (rest : List ℕ) (r : Read A)
      → ((a : A) (zs : List ℕ) → r ≡ ok (a, zs) → P a × All IsByte zs)
      → ((a : A) (zs : List ℕ)
          → P a
          → All IsByte zs
          → k (a, zs) ≡ ok (b, rest)
          → Q b × All IsByte rest)
      → (r >>= k) ≡ ok (b, rest)
      → Q b × All IsByte rest
  bind_result k b rest (err e) hr hk h = absurd (err≢ok e (b, rest) h)
  bind_result k b rest (ok (a, zs)) hr hk h = let (p, l) = hr a zs refl in hk a zs p l h

  bind-Yields :
      (p : List ℕ → Read A) (k : A × List ℕ → Read B)
      → Yields P p
      → ((a : A) → P a → Yields Q (λ zs. k (a, zs)))
      → Yields Q (λ xs. p xs >>= k)
  unfolding Yields
  bind-Yields p k hp hk xs l b rest =
      bind_result k b rest (p xs) (λ a zs e. hp xs l a zs e) (λ a zs q l e. hk a q zs l b rest e)

module _ {ℓ κ} {A : Type ℓ} (Q : A → Type κ) where
  ok-Yields : (a : A) → Q a → Yields Q (λ xs. ok (a, xs))
  unfolding Yields
  ok-Yields a q xs l b rest h =
      subst (λ (r : A × List ℕ). Q r.0 × All IsByte r.1) (ok-injective (a, xs) (b, rest) h) (q, l)

  err-Yields : (e : DecodeError) → Yields Q (λ xs. err e)
  unfolding Yields
  err-Yields e xs l a rest h = absurd (err≢ok e (a, rest) h)

  if-Yields :
      (t : Bool) (p q : List ℕ → Read A)
      → (t ≡ true → Yields Q p)
      → (t ≡ false → Yields Q q)
      → Yields Q (λ xs. if t then p xs else q xs)
  if-Yields true p q h k = h refl
  if-Yields false p q h k = k refl

cut-bytes :
    (n : ℕ) (xs : List ℕ)
    → n ≤ length xs
    → All IsByte xs
    → ((length (cut n xs).0 ≡ n) × All IsByte (cut n xs).0) × All IsByte (cut n xs).1
cut-bytes zero xs h l = ((refl, tt), l)
cut-bytes (suc n) [] h l = absurd (omega arith)
cut-bytes (suc n) (x ∷ xs) h (b, l) =
    let ((e, l₁), l₂) = cut-bytes n xs (omega arith) l in ((omega (arith, e), (b, l₁)), l₂)

from_be-bound :
    (acc k m : ℕ) (bs : List ℕ)
    → k + length bs ≡ m
    → acc < 256 ^ k
    → All IsByte bs
    → from_be acc bs < 256 ^ m
from_be-bound acc k m [] e h l = subst (λ n. acc < 256 ^ n) (omega (arith, e)) h
from_be-bound acc k m (b ∷ bs) e h (x, l) =
    from_be-bound (acc * 256 + b) (suc k) m bs (omega (arith, e)) (rw (pow-suc 256 k) (omega arith))
      l

module _ (floats : Floats) (total : ℕ) where
  abbrev Counted : ℕ → List ℕ → Type 0
  Counted n bs = (length bs ≡ n) × All IsByte bs

  abbrev Sized : ℕ × Width → Type 0
  Sized r = Fits r.0 r.1

  take-Yields : (n : ℕ) → Yields (Counted n) (take floats total n)
  unfolding take Yields
  take-Yields n xs l a rest h = elim (Bool-cases (leb n (length xs))) [
    | inl e ↦
        subst (λ (r : List ℕ × List ℕ). Counted n r.0 × All IsByte r.1)
          (ok-injective (cut n xs) (a, rest) (rw e at h))
          (cut-bytes n xs (leb→le n (length xs) e) l)
    | inr e ↦ absurd (err≢ok _ (a, rest) (rw e at h))
  ]

  number-Yields : (k : ℕ) → Yields (λ n. n < 256 ^ k) (number floats total k)
  unfolding number
  number-Yields k =
      bind-Yields (Counted k) (λ n. n < 256 ^ k) (take floats total k) _ (take-Yields k)
        (λ bs c.
          ok-Yields (λ n. n < 256 ^ k) (from_be_bytes bs)
            (from_be-bound 0 0 k bs (omega (arith, c.0)) (omega arith) c.1))

  number-wide :
      (k : ℕ) (w : Width)
      → ((n : ℕ) → n < 256 ^ k → Fits n w)
      → Yields Sized (λ xs. number floats total k xs >>= wide floats total w)
  number-wide k w f =
      bind-Yields (λ n. n < 256 ^ k) Sized (number floats total k) (wide floats total w)
        (number-Yields k) (λ n b. ok-Yields Sized (n, w) (f n b))

  argument-Yields : (info : ℕ) → Yields Sized (argument floats total info)
  unfolding argument
  argument-Yields info =
      if-Yields Sized (leb info 23) _ _
        (λ e. ok-Yields Sized (info, inline) (omega (arith, leb→le info 23 e)))
        (λ _.
          if-Yields Sized (leb info 24) _ _ (λ _. number-wide 1 one (λ n h. h))
            (λ _.
              if-Yields Sized (leb info 25) _ _ (λ _. number-wide 2 two (λ n h. h))
                (λ _.
                  if-Yields Sized (leb info 26) _ _ (λ _. number-wide 4 four (λ n h. h))
                    (λ _.
                      if-Yields Sized (leb info 27) _ _ (λ _. number-wide 8 eight (λ n h. h))
                        (λ _. err-Yields Sized _)))))

  checked-Yields : (r : ℕ × Width) → Sized r → Yields Sized (λ zs. checked floats total (r, zs))
  unfolding Yields
  checked-Yields (n, w) f xs l a rest h = elim (Bool-cases (ltb (length xs) n)) [
    | inl e ↦ absurd (err≢ok _ (a, rest) (rw e at h))
    | inr e ↦
        subst (λ (r : (ℕ × Width) × List ℕ). Sized r.0 × All IsByte r.1)
          (ok-injective ((n, w), xs) (a, rest) (rw e at h)) (f, l)
  ]

  count-Yields : (info : ℕ) → Yields Sized (count floats total info)
  unfolding count
  count-Yields info =
      bind-Yields Sized Sized (argument floats total info) (checked floats total)
        (argument-Yields info) (λ r f. checked-Yields r f)

  module _ (levels : ℕ) (read : List ℕ → Read Value)
      (valid : Yields (λ v. IsValid v levels) read) where
    abbrev ItemsOf : ℕ → Items → Type 0
    ItemsOf n vs = (count_items vs ≡ n) × AreValid vs levels

    abbrev FieldsOf : ℕ → Entries → Type 0
    FieldsOf n es = (count_entries es ≡ n) × AreFields es levels

    items-Yields : (n : ℕ) → Yields (ItemsOf n) (items floats total read n)
    unfolding AreValid
    items-Yields zero = ok-Yields (ItemsOf zero) no_items (refl, tt)
    items-Yields (suc n) =
        bind-Yields (λ v. IsValid v levels) (ItemsOf (suc n)) read _ valid
          (λ v h.
            bind-Yields (ItemsOf n) (ItemsOf (suc n)) (items floats total read n) _ (items-Yields n)
              (λ vs r. ok-Yields (ItemsOf (suc n)) (item v vs) (ap suc r.0, (h, r.1))))

    entries-Yields : (n : ℕ) → Yields (FieldsOf n) (entries floats total read n)
    unfolding AreFields
    entries-Yields zero = ok-Yields (FieldsOf zero) no_entries (refl, tt)
    entries-Yields (suc n) =
        bind-Yields (λ v. IsValid v levels) (FieldsOf (suc n)) read _ valid
          (λ k i.
            bind-Yields (λ v. IsValid v levels) (FieldsOf (suc n)) read _ valid
              (λ v j.
                bind-Yields (FieldsOf n) (FieldsOf (suc n)) (entries floats total read n) _
                  (entries-Yields n)
                  (λ es r.
                    ok-Yields (FieldsOf (suc n)) (field k v es) (ap suc r.0, (i, (j, r.1))))))

    abbrev Done : Value → Type 0
    Done v = IsValid v (suc levels)

    below_u64 : (n : ℕ) (w : Width) → Fits n w → n < 2 ^ 64
    below_u64 n inline f = omega arith
    below_u64 n one f = omega arith
    below_u64 n two f = omega arith
    below_u64 n four f = omega arith
    below_u64 n eight f = f

    text-Yields :
        (n : ℕ) (bs : List ℕ)
        → n < 2 ^ 64
        → Counted n bs
        → Yields Done (λ zs. text floats total (bs, zs))
    unfolding IsValid
    text-Yields n bs f c =
        if-Yields Done (is_utf8 bs) _ _ (λ e. ok-Yields Done (str bs) (omega (arith, c.0, f), e))
          (λ e. err-Yields Done _)

    widened-Yields :
        (f : ℕ → ℕ) (k : ℕ)
        → ((n : ℕ) → n < 256 ^ k → f n < 2 ^ 64)
        → Yields Done (λ xs. number floats total k xs >>= widened floats total f)
    unfolding IsValid
    widened-Yields f k w =
        bind-Yields (λ n. n < 256 ^ k) Done (number floats total k) _ (number-Yields k)
          (λ n b. ok-Yields Done (float (f n)) (w n b))

    simple-Yields : Widens floats → (info : ℕ) → Yields Done (simple_value floats total info)
    unfolding IsValid
    simple-Yields w info =
        if-Yields Done (leb info 19) _ _ (λ _. err-Yields Done _)
          (λ _.
            if-Yields Done (leb info 20) _ _ (λ _. ok-Yields Done (boolean false) tt)
              (λ _.
                if-Yields Done (leb info 21) _ _ (λ _. ok-Yields Done (boolean true) tt)
                  (λ _.
                    if-Yields Done (leb info 22) _ _ (λ _. ok-Yields Done null tt)
                      (λ _.
                        if-Yields Done (leb info 23) _ _ (λ _. ok-Yields Done undefined tt)
                          (λ _.
                            if-Yields Done (leb info 24) _ _ (λ _. err-Yields Done _)
                              (λ _.
                                if-Yields Done (leb info 25) _ _
                                  (λ _.
                                    widened-Yields (half floats) 2 (λ n _. half-bounded floats n w))
                                  (λ _.
                                    if-Yields Done (leb info 26) _ _
                                      (λ _. widened-Yields floats.single 4 (λ n _. w.1 n))
                                      (λ _.
                                        if-Yields Done (leb info 27) _ _
                                          (λ _. widened-Yields (λ n. n) 8 (λ n h. h))
                                          (λ _. err-Yields Done _)))))))))

    of_major-Yields :
        Widens floats → (major info : ℕ) → Yields Done (of_major floats total read major info)
    unfolding IsValid
    of_major-Yields w zero info =
        bind-Yields Sized Done (argument floats total info) _ (argument-Yields info)
          (λ a f. ok-Yields Done (uint a.0 a.1) f)
    of_major-Yields w (suc zero) info =
        bind-Yields Sized Done (argument floats total info) _ (argument-Yields info)
          (λ a f. ok-Yields Done (nint a.0 a.1) f)
    of_major-Yields w (suc (suc zero)) info =
        bind-Yields Sized Done (count floats total info) _ (count-Yields info) (λ a f.
          bind-Yields (Counted a.0) Done (take floats total a.0) _ (take-Yields a.0)
            (λ bs c. ok-Yields Done (blob bs) (omega (arith, c.0, below_u64 a.0 a.1 f))))
    of_major-Yields w (suc (suc (suc zero))) info =
        bind-Yields Sized Done (count floats total info) _ (count-Yields info) (λ a f.
          bind-Yields (Counted a.0) Done (take floats total a.0) _ (take-Yields a.0)
            (λ bs c. text-Yields a.0 bs (below_u64 a.0 a.1 f) c))
    of_major-Yields w (suc (suc (suc (suc zero)))) info =
        bind-Yields Sized Done (count floats total info) _ (count-Yields info) (λ a f.
          bind-Yields (ItemsOf a.0) Done (items floats total read a.0) _ (items-Yields a.0)
            (λ vs r. ok-Yields Done (array vs) (omega (arith, r.0, below_u64 a.0 a.1 f), r.1)))
    of_major-Yields w (suc (suc (suc (suc (suc zero))))) info =
        bind-Yields Sized Done (count floats total info) _ (count-Yields info) (λ a f.
          bind-Yields (FieldsOf a.0) Done (entries floats total read a.0) _ (entries-Yields a.0)
            (λ es r. ok-Yields Done (object es a.1) (subst (λ n. Fits n a.1) (sym r.0) f, r.1)))
    of_major-Yields w (suc (suc (suc (suc (suc (suc zero)))))) info =
        bind-Yields Sized Done (argument floats total info) _ (argument-Yields info) (λ a f.
          bind-Yields (λ v. IsValid v levels) Done read _ valid
            (λ v h. ok-Yields Done (tag a.0 v) (below_u64 a.0 a.1 f, h)))
    of_major-Yields w (suc (suc (suc (suc (suc (suc (suc m))))))) info = simple-Yields w info

  value-Yields :
      Widens floats → (levels : ℕ) → Yields (λ v. IsValid v levels) (value floats total levels)
  unfolding value Yields
  value-Yields w zero xs l a rest h = absurd (err≢ok _ (a, rest) h)
  value-Yields w (suc levels) [] l a rest h = absurd (err≢ok _ (a, rest) h)
  value-Yields w (suc levels) (x ∷ xs) l a rest h =
      of_major-Yields levels (value floats total levels) (value-Yields w levels) w (x / 32) (x % 32)
        xs l.1 a rest h

-- If the bits of a float are 64: whatever bytes the decoder accepts, the value it gives fits its widths, is UTF-8 in its strings
-- and nests at most 64 deep, so that encoding it and decoding that gives the value again.
pub decode-encode_again :
    (floats : Floats) (bytes : List ℕ) (v : Value)
    → Widens floats
    → All IsByte bytes
    → decode floats bytes ≡ ok v
    → IsValid v (1 + max_depth) × (decode floats (encode v) ≡ ok v)
unfolding decode Yields
decode-encode_again floats bytes v w l h =
    let read = finished floats 0 0 (value floats (length bytes) (1 + max_depth) bytes) v h in
    let valid = (value-Yields floats (length bytes) w (1 + max_depth) bytes l v [] read).0 in
    (valid, decode-encode floats v valid)
