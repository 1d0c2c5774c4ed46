-- ===== src/Cbor/Valid.antt =====
-- The values that the encoder of kernel/conversations/cbor.rs writes without loss, by the levels
-- they may nest.
use citadel_agent.Prelude.{
  ℕ, zero, suc, ◌^◌, ◌<◌, ◌≡◌, refl, true, leb, length, Bool-cases, inl, inr, arith, leb→le,
}
use citadel_agent.Cbor.{
  Width, inline, one, two, four, eight, Value, Items, Entries, uint, nint, blob, str, array, object,
  tag, boolean, null, undefined, float, no_items, item, no_entries, field, minimal, count_items,
  count_entries,
}
use citadel_agent.Cbor.Utf8.{is_utf8}

-- The number goes into that many bytes.
abbrev pub Fits : ℕ → Width → Type 0
Fits n inline = n < 24
Fits n one = n < 2 ^ 8
Fits n two = n < 2 ^ 16
Fits n four = n < 2 ^ 32
Fits n eight = n < 2 ^ 64

-- One level is left to open.
abbrev pub Opened : ℕ → (ℕ → Type 0) → Type 0
Opened zero P = ⊥
Opened (suc levels) P = P levels

abbrev pub IsLeaf : ℕ → Type 0 → Type 0
IsLeaf levels P = Opened levels (λ l. P)

unfoldable mutual
  pub IsValid : Value → ℕ → Type 0
  IsValid (uint n w) levels = IsLeaf levels (Fits n w)
  IsValid (nint n w) levels = IsLeaf levels (Fits n w)
  IsValid (blob b) levels = IsLeaf levels (length b < 2 ^ 64)
  IsValid (str t) levels = IsLeaf levels ((length t < 2 ^ 64) × (is_utf8 t ≡ true))
  IsValid (array vs) levels = Opened levels (λ l. (count_items vs < 2 ^ 64) × AreValid vs l)
  IsValid (object es w) levels = Opened levels (λ l. Fits (count_entries es) w × AreFields es l)
  IsValid (tag t v) levels = Opened levels (λ l. (t < 2 ^ 64) × IsValid v l)
  IsValid (boolean b) levels = IsLeaf levels Unit
  IsValid null levels = IsLeaf levels Unit
  IsValid undefined levels = IsLeaf levels Unit
  IsValid (float f) levels = IsLeaf levels (f < 2 ^ 64)

  pub AreValid : Items → ℕ → Type 0
  AreValid no_items l = Unit
  AreValid (item v vs) l = IsValid v l × AreValid vs l

  pub AreFields : Entries → ℕ → Type 0
  AreFields no_entries l = Unit
  AreFields (field k v es) l = IsValid k l × (IsValid v l × AreFields es l)

pub minimal-Fits : (n : ℕ) → n < 2 ^ 64 → Fits n (minimal n)
minimal-Fits n h = elim (Bool-cases (leb n 23)) [
  | inl a ↦ rw a (omega (arith, leb→le n 23 a))
  | inr a ↦ rw a (elim (Bool-cases (leb n 0xff)) [
    | inl b ↦ rw b (omega (arith, leb→le n 0xff b))
    | inr b ↦ rw b (elim (Bool-cases (leb n 0xffff)) [
      | inl c ↦ rw c (omega (arith, leb→le n 0xffff c))
      | inr c ↦ rw c (elim (Bool-cases (leb n 0xffffffff)) [
        | inl d ↦ rw d (omega (arith, leb→le n 0xffffffff d))
        | inr d ↦ rw d h
      ])
    ])
  ])
]

pub Opened-map :
    (levels : ℕ) (P Q : ℕ → Type 0)
    → ((l : ℕ) → levels ≡ suc l → P l → Q l)
    → Opened levels P
    → Opened levels Q
Opened-map zero P Q f h = h
Opened-map (suc l) P Q f h = f l refl h
