-- ===== src/Assoc.antt =====
-- A hash map as a list of its entries, by a test of equality on its keys; the order of the entries
-- is not looked at.
use citadel_agent.Prelude.{
  ◌≡◌, refl, sym, subst, ◌∙◌, Bool, true, false, Option, none, some, List, [], ◌∷◌, if◌then◌else◌,
  length, All, Bool-cases, inl, inr, ◌+◌, ◌≤◌, arith,
}

pub both_ways : (b : Bool) → b ≡ true → b ≡ false → ⊥
both_ways b p q = cc

pub none≢some {ℓ} : {A : Type ℓ} (a : A) → Option.none ≡ some a → ⊥
none≢some a e = cc

module _ {ℓ κ} {K : Type ℓ} {V : Type κ} (same : K → K → Bool) where
  abbrev pub get : K → List (K × V) → Option V
  get k [] = none
  get k ((j, v) ∷ es) = let later = get k es in if same k j then some v else later

  -- In place of the entry of that key, or as a new one.
  abbrev pub set : K → V → List (K × V) → List (K × V)
  set k v [] = (k, v) ∷ []
  set k v ((j, w) ∷ es) = let later = set k v es in if same k j then (j, v) ∷ es else (j, w) ∷ later

  -- Without the first entry of that key.
  abbrev pub drop : K → List (K × V) → List (K × V)
  drop k [] = []
  drop k ((j, w) ∷ es) = let later = drop k es in if same k j then es else (j, w) ∷ later

  -- No key stands twice.
  abbrev pub IsDistinct : List (K × V) → Type κ
  IsDistinct [] = Unit
  IsDistinct ((j, v) ∷ es) = (get j es ≡ none) × IsDistinct es

  module _ (same_eq : (j k : K) → same j k ≡ true → j ≡ k)
      (same_refl : (k : K) → same k k ≡ true) where
    pub get-set_same : (k : K) (v : V) (es : List (K × V)) → get k (set k v es) ≡ some v
    get-set_same k v [] = rw (same_refl k) refl
    get-set_same k v ((j, w) ∷ es) = elim (Bool-cases (same k j)) [
      | inl e ↦ rw (e, e) refl
      | inr e ↦ rw (e, e) (get-set_same k v es)
    ]

    pub get-set_other :
        (i k : K) (v : V) (es : List (K × V)) → same i k ≡ false → get i (set k v es) ≡ get i es
    get-set_other i k v [] n = rw n refl
    get-set_other i k v ((j, w) ∷ es) n = elim (Bool-cases (same k j)) [
      | inl e ↦ let apart = subst (λ m. same i m ≡ false) (same_eq k j e) n in rw (e, apart) refl
      | inr e ↦ rw e (elim (Bool-cases (same i j)) [
        | inl f ↦ rw f refl
        | inr f ↦ rw f (get-set_other i k v es n)
      ])
    ]

    get-set-none :
        (i k : K) (v : V) (es : List (K × V))
        → same i k ≡ false
        → get i es ≡ none
        → get i (set k v es) ≡ none
    get-set-none i k v es n h = get-set_other i k v es n ∙ h

    -- Distinct keys stay distinct: a new one goes where there is none.
    pub set-IsDistinct :
        (k : K) (v : V) (es : List (K × V)) → IsDistinct es → IsDistinct (set k v es)
    set-IsDistinct k v [] d = (refl, tt)
    set-IsDistinct k v ((j, w) ∷ es) d = elim (Bool-cases (same k j)) [
      | inl e ↦ rw e d
      | inr e ↦ rw e (get-set-none j k v es (apart j k e) d.0, set-IsDistinct k v es d.1)
    ]
      where
        apart : (j k : K) → same k j ≡ false → same j k ≡ false
        apart j k e = elim (Bool-cases (same j k)) [
          | inr f ↦ f
          | inl f ↦ absurd (
              both_ways (same k j)
                (subst (λ m. same k m ≡ true) (sym (same_eq j k f)) (same_refl k)) e)
        ]

    pub length-set : (k : K) (v : V) (es : List (K × V)) → length (set k v es) ≤ length es + 1
    length-set k v [] = omega arith
    length-set k v ((j, w) ∷ es) = elim (Bool-cases (same k j)) [
      | inl e ↦ rw e (omega arith)
      | inr e ↦ rw e (omega (arith, length-set k v es))
    ]

    -- A key that is there keeps its place.
    pub length-set-some :
        (k : K) (v w : V) (es : List (K × V)) → get k es ≡ some w → length (set k v es) ≡ length es
    length-set-some k v w [] h = absurd (none≢some w h)
    length-set-some k v w ((j, u) ∷ es) h = elim (Bool-cases (same k j)) [
      | inl e ↦ rw e refl
      | inr e ↦ rw e (omega (arith, length-set-some k v w es (rw e at h)))
    ]

    pub get-drop-none : (i k : K) (es : List (K × V)) → get i es ≡ none → get i (drop k es) ≡ none
    get-drop-none i k [] h = refl
    get-drop-none i k ((j, w) ∷ es) h = elim (Bool-cases (same i j)) [
      | inl f ↦ absurd (none≢some w (sym (rw f at h)))
      | inr f ↦ elim (Bool-cases (same k j)) [
        | inl e ↦ rw e (rw f at h)
        | inr e ↦ rw (e, f) (get-drop-none i k es (rw f at h))
      ]
    ]

    pub drop-IsDistinct : (k : K) (es : List (K × V)) → IsDistinct es → IsDistinct (drop k es)
    drop-IsDistinct k [] d = tt
    drop-IsDistinct k ((j, w) ∷ es) d = elim (Bool-cases (same k j)) [
      | inl e ↦ rw e d.1
      | inr e ↦ rw e (get-drop-none j k es d.0, drop-IsDistinct k es d.1)
    ]

    pub get-drop_same : (k : K) (es : List (K × V)) → IsDistinct es → get k (drop k es) ≡ none
    get-drop_same k [] d = refl
    get-drop_same k ((j, w) ∷ es) d = elim (Bool-cases (same k j)) [
      | inl e ↦ rw e (subst (λ m. get m es ≡ none) (sym (same_eq k j e)) d.0)
      | inr e ↦ rw (e, e) (get-drop_same k es d.1)
    ]

  -- A predicate on every entry, where keys that are the same are equal.
  module _ {μ} (P : K × V → Type μ) (same_eq : (j k : K) → same j k ≡ true → j ≡ k) where
    pub set-All : (k : K) (v : V) (es : List (K × V)) → P (k, v) → All P es → All P (set k v es)
    set-All k v [] p h = (p, tt)
    set-All k v ((j, w) ∷ es) p h = elim (Bool-cases (same k j)) [
      | inl e ↦ rw e (subst (λ m. P (m, v)) (same_eq k j e) p, h.1)
      | inr e ↦ rw e (h.0, set-All k v es p h.1)
    ]

    pub get-All : (k : K) (v : V) (es : List (K × V)) → All P es → get k es ≡ some v → P (k, v)
    get-All k v [] h e = absurd (none≢some v e)
    get-All k v ((j, w) ∷ es) h e = elim (Bool-cases (same k j)) [
      | inl f ↦ here j (same_eq k j f) (value_of w v (rw f at e)) h.0
      | inr f ↦ get-All k v es h.1 (rw f at e)
    ]
      where
        value_of : (a b : V) → Option.some a ≡ some b → a ≡ b
        value_of a b e = cc

        here : (j : K) → k ≡ j → w ≡ v → P (j, w) → P (k, v)
        here j a b p = subst (λ m. P (m, v)) (sym a) (subst (λ u. P (j, u)) b p)
