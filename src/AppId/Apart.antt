-- ===== src/AppId/Apart.antt =====
-- No two entries of apps are stored under one key (kernel/apps/kv/namespace.rs).
use mathlib.Core.List.{append_assoc}
use citadel_agent.Prelude.{
  ℕ, ◌≡◌, refl, sym, ap, ◌∙◌, inl, inr, Bool, true, false, Bool-cases, not, ◌||◌, Option, none,
  some, [], ◌∷◌, ◌++◌, ltb, leb, ◌==◌, length, All, arith, &&→both,
}
use citadel_agent.Assoc.{none≢some}
use citadel_agent.Text.{Text, bytes}
use citadel_agent.AppId.{starts_label, in_label, validate_app_id, max_app_id_chars}
use citadel_agent.AppId.Grammar.{is_ok, matches, validate_app_id_iff}
use citadel_agent.AppId.Namespace.{
  HexEncoder, app_kv_max_key_bytes, prefix_of, scope_ok, new_namespace, index, entry,
}

-- What a namespace stores: its index, and a value under each key.
pub data Stored : Type 0 where
  index_of : Stored
  value_of : Text → Stored

abbrev pub in_namespace : HexEncoder → Option Text → Stored → Option Text
in_namespace hex none what = none
in_namespace hex (some prefix) index_of = some (index hex prefix)
in_namespace hex (some prefix) (value_of key) = entry hex prefix key

abbrev pub stored : HexEncoder → Text → Text → Text → Stored → Option Text
stored hex app_id scope_key username what =
    in_namespace hex (new_namespace hex app_id scope_key username) what

abbrev NoColon : Text → Type 0
NoColon t = All (λ c. (c == b':') ≡ false) t

cons-injective : (c d : ℕ) (xs ys : Text) → ◌≡◌ {A = Text} (c ∷ xs) (d ∷ ys) → (c ≡ d) × (xs ≡ ys)
cons-injective c d xs ys h = (cc h, cc h)

-- A text without a colon ends where the colon behind it stands.
cut_at_colon :
    (xs ys r s : Text)
    → NoColon xs
    → NoColon ys
    → xs ++ b':' ∷ r ≡ ys ++ b':' ∷ s
    → (xs ≡ ys) × (r ≡ s)
cut_at_colon [] [] r s a b h = (refl, (cons-injective b':' b':' r s h).1)
cut_at_colon [] (y ∷ ys) r s a b h =
    absurd (colon_first y b.0 (cons-injective b':' y r (ys ++ b':' ∷ s) h).0)
  where
    colon_first : (y : ℕ) → (y == b':') ≡ false → b':' ≡ y → ⊥
    colon_first y n e = absurd (ground arith)
cut_at_colon (x ∷ xs) [] r s a b h =
    absurd (colon_first x a.0 (cons-injective x b':' (xs ++ b':' ∷ r) s h).0)
  where
    colon_first : (y : ℕ) → (y == b':') ≡ false → y ≡ b':' → ⊥
    colon_first y n e = absurd (ground arith)
cut_at_colon (x ∷ xs) (y ∷ ys) r s a b h =
    let (e, t) = cons-injective x y (xs ++ b':' ∷ r) (ys ++ b':' ∷ s) h in
    let (f, g) = cut_at_colon xs ys r s a.1 b.1 t in (cc (e, f), g)

matches-NoColon : (begins dotted : Bool) (t : Text) → matches begins dotted t ≡ true → NoColon t
matches-NoColon begins dotted [] h = tt
matches-NoColon true dotted (c ∷ cs) h =
    let (a, b) = &&→both (starts_label c) (matches false dotted cs) h in
    (starts_no_colon c a, matches-NoColon false dotted cs b)
  where
    starts_no_colon : (c : ℕ) → starts_label c ≡ true → (c == b':') ≡ false
    starts_no_colon c e = ground arith
matches-NoColon false dotted (c ∷ cs) h = elim (Bool-cases (c == b'.')) [
  | inl d ↦ (dot_no_colon c d, matches-NoColon true true cs (rw d at h))
  | inr n ↦
      let (a, b) = &&→both (in_label c) (matches false dotted cs) (rw n at h) in
      (label_no_colon c a, matches-NoColon false dotted cs b)
]
  where
    dot_no_colon : (c : ℕ) → (c == b'.') ≡ true → (c == b':') ≡ false
    dot_no_colon c d = ground arith

    label_no_colon : (c : ℕ) → in_label c ≡ true → (c == b':') ≡ false
    label_no_colon c d = ground arith

app_id-NoColon : (id : Text) → is_ok (validate_app_id id) ≡ true → NoColon id
app_id-NoColon id h =
    matches-NoColon true false id
      (&&→both (matches true false id) (leb (length id) max_app_id_chars)
        (sym (validate_app_id_iff id) ∙ h)).0

abbrev behind_prefix : HexEncoder → Stored → Text
behind_prefix hex index_of = bytes "i"
behind_prefix hex (value_of key) = bytes "k:" ++ hex.encode key

abbrev laid_out : HexEncoder → Text → Text → Text → Text → Text
laid_out hex a s u rest =
    bytes "app:" ++ (a ++ b':' ∷ (hex.encode s ++ b':' ∷ (hex.encode u ++ b':' ∷ rest)))

prefix_lem :
    (hex : HexEncoder) (a s u rest : Text) → prefix_of hex a s u ++ rest ≡ laid_out hex a s u rest
prefix_lem hex a s u rest = simp append_assoc

-- What is stored is laid out so, and its parts are those given.
some-injective : (s t : Text) → Option.some s ≡ some t → s ≡ t
some-injective s t h = cc

entry_lem :
    (hex : HexEncoder) (prefix key t : Text)
    → entry hex prefix key ≡ some t
    → t ≡ prefix ++ behind_prefix hex (value_of key)
unfolding entry
entry_lem hex prefix key t h =
    elim (Bool-cases ((length key == 0) || ltb app_kv_max_key_bytes (length key))) [
      | inl e ↦ absurd (none≢some t (rw e at h))
      | inr e ↦ sym (some-injective _ t (rw e at h))
    ]

in_namespace_lem :
    (hex : HexEncoder) (prefix : Text) (what : Stored) (t : Text)
    → in_namespace hex (some prefix) what ≡ some t
    → t ≡ prefix ++ behind_prefix hex what
unfolding index
in_namespace_lem hex prefix index_of t h = sym (some-injective _ t h)
in_namespace_lem hex prefix (value_of key) t h = entry_lem hex prefix key t h

stored_lem :
    (hex : HexEncoder) (a s u : Text) (what : Stored) (t : Text)
    → stored hex a s u what ≡ some t
    → (is_ok (validate_app_id a) ≡ true) × (t ≡ laid_out hex a s u (behind_prefix hex what))
unfolding new_namespace
stored_lem hex a s u what t h = elim (Bool-cases (is_ok (validate_app_id a))) [
  | inr e ↦ absurd (none≢some t (rw e at h))
  | inl e ↦ elim (Bool-cases (not (scope_ok hex s) || length u == 0)) [
    | inl f ↦ absurd (none≢some t (rw (e, f) at h))
    | inr f ↦ (
      e,
      in_namespace_lem hex (prefix_of hex a s u) what t (rw (e, f) at h)
          ∙ prefix_lem hex a s u (behind_prefix hex what),
    )
  ]
]

same_thing : (hex : HexEncoder) (x y : Stored) → behind_prefix hex x ≡ behind_prefix hex y → x ≡ y
same_thing hex index_of index_of h = refl
same_thing hex (value_of k) (value_of l) h =
    let (_, t) = cons-injective b'k' b'k' (b':' ∷ hex.encode k) (b':' ∷ hex.encode l) h in
    ap value_of (hex.decodes k l (cons-injective b':' b':' (hex.encode k) (hex.encode l) t).1)
same_thing hex index_of (value_of l) h =
    absurd (letters (cons-injective b'i' b'k' [] (b':' ∷ hex.encode l) h).0)
  where
    letters : ◌≡◌ {A = ℕ} b'i' b'k' → ⊥
    letters e = absurd (omega arith)
same_thing hex (value_of l) index_of h =
    absurd (letters (cons-injective b'k' b'i' (b':' ∷ hex.encode l) [] h).0)
  where
    letters : ◌≡◌ {A = ℕ} b'k' b'i' → ⊥
    letters e = absurd (omega arith)

-- Whatever texts apps, scopes, accounts and keys are, colons and dots included, two things that are
-- stored under one key are the same: the same app's, of the same scope and account, and both the
-- index or the value of the same key.
pub stored-apart :
    (hex : HexEncoder) (a b s r u v : Text) (x y : Stored) (t : Text)
    → stored hex a s u x ≡ some t
    → stored hex b r v y ≡ some t
    → (a ≡ b) × ((s ≡ r) × ((u ≡ v) × (x ≡ y)))
stored-apart hex a b s r u v x y t h k =
    let (va, ea) = stored_lem hex a s u x t h in
    let (vb, eb) = stored_lem hex b r v y t k in
    let (_, e₁) = cons-injective _ _ _ _ (sym ea ∙ eb) in
    let (_, e₂) = cons-injective _ _ _ _ e₁ in
    let (_, e₃) = cons-injective _ _ _ _ e₂ in
    let (_, e₄) = cons-injective _ _ _ _ e₃ in
    let (ab, e₅) = cut_at_colon a b _ _ (app_id-NoColon a va) (app_id-NoColon b vb) e₄ in
    let (sr, e₆) =
      cut_at_colon (hex.encode s) (hex.encode r) _ _ (hex.no_colon s) (hex.no_colon r) e₅ in
    let (uv, e₇) =
      cut_at_colon (hex.encode u) (hex.encode v) _ _ (hex.no_colon u) (hex.no_colon v) e₆ in
    (ab, (hex.decodes s r sr, (hex.decodes u v uv, same_thing hex x y e₇)))
