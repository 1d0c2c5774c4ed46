-- ===== src/Supervisor/PeerMap/Laws.antt =====
-- What a lookup finds after an insertion, and that the order of the keys is kept.
use mathlib.Core.Option.{some-injective}
use citadel_agent.Prelude.{
  ℕ, ◌≤◌, ◌<◌, ◌≡◌, refl, subst, inl, inr, Bool-cases, none, some, List, [], ◌∷◌, arith, ltb, ◌==◌,
  if◌then◌else◌,
}
use citadel_agent.Supervisor.PeerMap.{get, insert, map_values, Above, IsSorted}

module _ {ℓ} {V : Type ℓ} where
  pub get-insert :
      (j k : ℕ) (v : V) (m : List (ℕ × V))
      → get j (insert k v m) ≡ (if j == k then some v else get j m)
  get-insert j k v [] = refl
  get-insert j k v ((i, w) ∷ m) = ground (arith, get-insert j k v m)

  -- Of two insertions under one key the later counts.
  pub insert-insert :
      (k : ℕ) (v w : V) (m : List (ℕ × V)) → insert k v (insert k w m) ≡ insert k v m
  insert-insert k v w [] = ground arith
  insert-insert k v w ((i, u) ∷ m) = ground (arith, insert-insert k v w m)

  insert-Above : (n k : ℕ) (v : V) (m : List (ℕ × V)) → n < k → Above n m → Above n (insert k v m)
  insert-Above n k v [] h a = (h, tt)
  insert-Above n k v ((i, w) ∷ m) h a = ground (arith, insert-Above i k v m)

  pub insert-IsSorted : (k : ℕ) (v : V) (m : List (ℕ × V)) → IsSorted m → IsSorted (insert k v m)
  insert-IsSorted k v [] s = tt
  insert-IsSorted k v ((i, w) ∷ m) s = ground (arith, insert-Above i k v m)

  map_values-Above : (n : ℕ) (f : V → V) (m : List (ℕ × V)) → Above n m → Above n (map_values f m)
  map_values-Above n f [] a = tt
  map_values-Above n f ((i, w) ∷ m) a = (a.0, map_values-Above i f m a.1)

  pub map_values-IsSorted : (f : V → V) (m : List (ℕ × V)) → IsSorted m → IsSorted (map_values f m)
  map_values-IsSorted f [] s = tt
  map_values-IsSorted f ((i, w) ∷ m) s = map_values-Above i f m s

  -- No key below the least one is found.
  pub get-Above : (n k : ℕ) (m : List (ℕ × V)) → Above n m → k ≤ n → get k m ≡ none
  get-Above n k [] a h = refl
  get-Above n k ((i, w) ∷ m) a h = ground (arith, get-Above i k m)

  pub Above→IsSorted : (n : ℕ) (m : List (ℕ × V)) → Above n m → IsSorted m
  Above→IsSorted n [] a = tt
  Above→IsSorted n ((i, w) ∷ m) a = a.1

  -- A predicate on every value of the map.
  abbrev pub AllValues {κ} : (V → Type κ) → List (ℕ × V) → Type κ
  AllValues P [] = Unit
  AllValues P ((i, w) ∷ m) = P w × AllValues P m

  pub insert-AllValues {κ} :
      (P : V → Type κ) (k : ℕ) (v : V) (m : List (ℕ × V))
      → P v
      → AllValues P m
      → AllValues P (insert k v m)
  insert-AllValues P k v [] p a = (p, tt)
  insert-AllValues P k v ((i, w) ∷ m) p a = elim (Bool-cases (k == i)) [
    | inl same ↦ rw same (p, a.1)
    | inr other ↦ rw other (elim (Bool-cases (ltb k i)) [
      | inl below ↦ rw below (p, a)
      | inr above ↦ rw above (a.0, insert-AllValues P k v m p a.1)
    ])
  ]

  pub get-AllValues {κ} :
      (P : V → Type κ) (k : ℕ) (v : V) (m : List (ℕ × V)) → AllValues P m → get k m ≡ some v → P v
  get-AllValues P k v [] a h = absurd (cc)
  get-AllValues P k v ((i, w) ∷ m) a h = elim (Bool-cases (k == i)) [
    | inl same ↦ subst P (some-injective _ _ (rw same at h)) a.0
    | inr other ↦ get-AllValues P k v m a.1 (rw other at h)
  ]
