-- ===== src/Fanout/Targets.antt =====
-- How often a target stands in the deque and the map of a plan, and what the slots of a plan hold
-- (citadel-app-sdk/src/ihttp/fanout_plan.rs).
use citadel_agent.Prelude.{
  ℕ, zero, suc, ◌+◌, ◌≤◌, ◌<◌, ◌≡◌, refl, ◌∙◌, inl, inr, Bool, false, Bool-cases, ◌&&◌, none, some,
  List, [], ◌∷◌, ltb, leb, ◌==◌, if◌then◌else◌, length, arith, ap,
}
use citadel_agent.Supervisor.PeerMap.{insert}
use citadel_agent.Fanout.{
  range, replicate, get_elem?, set_elem, remove, keys, retain_other, fill, run_on,
}

abbrev pub count : ℕ → List ℕ → ℕ
count i [] = 0
count i (x ∷ xs) = let later = count i xs in if i == x then suc later else later

abbrev pub one_if : Bool → ℕ
one_if b = if b then 1 else 0

pub count-insert :
    (i k v : ℕ) (m : List (ℕ × ℕ))
    → count k (keys m) ≡ 0
    → count i (keys (insert k v m)) ≡ one_if (i == k) + count i (keys m)
count-insert i k v [] h = ground arith
count-insert i k v ((j, w) ∷ m) h = ground (arith, count-insert i k v m)

pub count-remove :
    (i k : ℕ) (m : List (ℕ × ℕ))
    → count i (keys (remove k m)) ≡ (if i == k then 0 else count i (keys m))
count-remove i k [] = ground arith
count-remove i k ((j, w) ∷ m) = ground (arith, count-remove i k m)

pub count-retain_other :
    (i k : ℕ) (ws : List ℕ) → count i (retain_other k ws) ≡ (if i == k then 0 else count i ws)
count-retain_other i k [] = ground arith
count-retain_other i k (w ∷ ws) = ground (arith, count-retain_other i k ws)

pub count-range : (i from n : ℕ) → count i (range from n) ≡ one_if (leb from i && ltb i (from + n))
count-range i from zero = ground arith
count-range i from (suc n) = ground (arith, count-range i (suc from) n)

pub keys-run_on : (ms : ℕ) (m : List (ℕ × ℕ)) → keys (run_on ms m) ≡ keys m
keys-run_on ms [] = refl
keys-run_on ms ((j, w) ∷ m) = ap (λ l. j ∷ l) (keys-run_on ms m)

pub length-run_on : (ms : ℕ) (m : List (ℕ × ℕ)) → length (run_on ms m) ≡ length m
length-run_on ms [] = refl
length-run_on ms ((j, w) ∷ m) = ap suc (length-run_on ms m)

pub length-remove : (k : ℕ) (m : List (ℕ × ℕ)) → length (remove k m) ≤ length m
length-remove k [] = omega arith
length-remove k ((j, w) ∷ m) = ground (arith, length-remove k m)

pub length-insert : (k v : ℕ) (m : List (ℕ × ℕ)) → length (insert k v m) ≤ length m + 1
length-insert k v [] = omega arith
length-insert k v ((j, w) ∷ m) = ground (arith, length-insert k v m)

module _ {ℓ} {A : Type ℓ} where
  pub length-replicate : (n : ℕ) (a : A) → length (replicate n a) ≡ n
  length-replicate zero a = refl
  length-replicate (suc n) a = ap suc (length-replicate n a)

  pub length-set_elem : (i : ℕ) (a : A) (xs : List A) → length (set_elem i a xs) ≡ length xs
  length-set_elem i a [] = refl
  length-set_elem zero a (x ∷ xs) = refl
  length-set_elem (suc i) a (x ∷ xs) = ap suc (length-set_elem i a xs)

  pub get-replicate :
      (i n : ℕ) (a : A) → get_elem? (replicate n a) i ≡ (if ltb i n then some a else none)
  get-replicate i zero a = ground arith
  get-replicate zero (suc n) a = ground arith
  get-replicate (suc i) (suc n) a = get-replicate i n a ∙ ground arith

  pub get-set_same :
      (i : ℕ) (a : A) (xs : List A) → i < length xs → get_elem? (set_elem i a xs) i ≡ some a
  get-set_same i a [] h = absurd (omega arith)
  get-set_same zero a (x ∷ xs) h = refl
  get-set_same (suc i) a (x ∷ xs) h = get-set_same i a xs (omega arith)

  pub get-set_other :
      (i j : ℕ) (a : A) (xs : List A)
      → (j == i) ≡ false
      → get_elem? (set_elem i a xs) j ≡ get_elem? xs j
  get-set_other i j a [] h = refl
  get-set_other zero zero a (x ∷ xs) h = absurd (ground arith)
  get-set_other zero (suc j) a (x ∷ xs) h = refl
  get-set_other (suc i) zero a (x ∷ xs) h = refl
  get-set_other (suc i) (suc j) a (x ∷ xs) h = get-set_other i j a xs (ground arith)

-- `fill` moves targets from the deque to the map and loses none.
pub count-fill :
    (cap i : ℕ) (ws : List ℕ) (m : List (ℕ × ℕ))
    → ((j : ℕ) → count j ws + count j (keys m) ≤ 1)
    → count i (fill cap ws m).0 + count i (keys (fill cap ws m).1.0) ≡ count i ws + count i (keys m)
count-fill cap i [] m h = refl
count-fill cap i (w ∷ ws) m h = elim (Bool-cases (ltb (length m) cap)) [
  | inl e ↦ rw e (count-fill cap i ws (insert w 0 m) (λ j. moved j) ∙ same i)
  | inr e ↦ rw e refl
]
  where
    absent : count w (keys m) ≡ 0
    absent = ground (arith, h w)

    same :
        (j : ℕ) → count j ws + count j (keys (insert w 0 m)) ≡ count j (w ∷ ws) + count j (keys m)
    same j = ground (arith, count-insert j w 0 m absent)

    moved : (j : ℕ) → count j ws + count j (keys (insert w 0 m)) ≤ 1
    moved j = ground (arith, same j, h j)

pub length-fill :
    (cap : ℕ) (ws : List ℕ) (m : List (ℕ × ℕ)) → length m ≤ cap → length (fill cap ws m).1.0 ≤ cap
length-fill cap [] m h = h
length-fill cap (w ∷ ws) m h = elim (Bool-cases (ltb (length m) cap)) [
  | inl e ↦ rw e (length-fill cap ws (insert w 0 m) (ground (arith, length-insert w 0 m)))
  | inr e ↦ rw e h
]

-- The map is full, or nothing waits any more.
pub fill-full :
    (cap : ℕ) (ws : List ℕ) (m : List (ℕ × ℕ))
    → 0 < cap
    → length (fill cap ws m).1.0 ≡ 0
    → (fill cap ws m).0 ≡ []
fill-full cap [] m h = λ e. refl
fill-full cap (w ∷ ws) m h = elim (Bool-cases (ltb (length m) cap)) [
  | inl e ↦ rw e (λ z. fill-full cap ws (insert w 0 m) h z)
  | inr e ↦ rw e (λ z. absurd (ground arith))
]
