-- ===== src/AppId/Grammar.antt =====
-- `validate_app_id` accepts the regular expression that its comment states
-- (citadel-app-id/src/lib.rs).
use citadel_agent.Prelude.{
  ℕ, ◌≡◌, refl, sym, ap, ◌∙◌, inl, inr, Bool, true, false, Bool-cases, ◌&&◌, List, [], ◌∷◌, ltb,
  leb, ◌==◌, if◌then◌else◌, length, all, arith,
}
use citadel_agent.Text.{Text, split}
use citadel_agent.AppId.{
  max_app_id_chars, Result, ok, err, ◌>>=◌, starts_label, in_label, check_label, check_labels,
  one_label, validate_app_id,
}

-- `[a-z0-9][a-z0-9-]*(\.[a-z0-9][a-z0-9-]*)+` byte by byte: whether a label begins here, and whether
-- a dot has been read.
abbrev pub matches : Bool → Bool → Text → Bool
matches true dotted [] = false
matches true dotted (c ∷ cs) = starts_label c && matches false dotted cs
matches false dotted [] = dotted
matches false dotted (c ∷ cs) =
    let next = matches true true cs in
    let more = matches false dotted cs in if c == b'.' then next else in_label c && more

abbrev label_ok : Text → Bool
label_ok [] = false
label_ok (c ∷ cs) = starts_label c && all in_label cs

-- The labels that `split` gives, the first one begun or not.
abbrev labels_ok : Bool → Bool → List Text → Bool
labels_ok begins dotted [] = false
labels_ok begins dotted (l ∷ []) = (if begins then label_ok l else all in_label l) && dotted
labels_ok begins dotted (l ∷ m ∷ ls) =
    (if begins then label_ok l else all in_label l) && all label_ok (m ∷ ls)

split_cases : (t : Text) → (q : Text) × ((qs : List Text) × (split b'.' t ≡ q ∷ qs))
split_cases [] = ([], ([], refl))
split_cases (c ∷ cs) =
    let (q, (qs, e)) = split_cases cs in
    elim (Bool-cases (c == b'.')) [
      | inl d ↦ ([], (split b'.' cs, rw d refl))
      | inr n ↦ (c ∷ q, (qs, rw (n, e) refl))
    ]

and_assoc : (a b c : Bool) → (a && (b && c)) ≡ ((a && b) && c)
and_assoc true b c = refl
and_assoc false b c = refl

and_true : (a : Bool) → (a && true) ≡ a
and_true true = refl
and_true false = refl

labels_all : (q : Text) (qs : List Text) → labels_ok true true (q ∷ qs) ≡ all label_ok (q ∷ qs)
labels_all q [] = refl
labels_all q (m ∷ ls) = refl

-- One more byte in front of the first label.
longer_start :
    (c : ℕ) (dotted : Bool) (q : Text) (qs : List Text)
    → (starts_label c && labels_ok false dotted (q ∷ qs)) ≡ labels_ok true dotted ((c ∷ q) ∷ qs)
longer_start c dotted q [] = and_assoc (starts_label c) (all in_label q) dotted
longer_start c dotted q (m ∷ ls) =
    and_assoc (starts_label c) (all in_label q) (all label_ok (m ∷ ls))

longer_rest :
    (c : ℕ) (dotted : Bool) (q : Text) (qs : List Text)
    → (in_label c && labels_ok false dotted (q ∷ qs)) ≡ labels_ok false dotted ((c ∷ q) ∷ qs)
longer_rest c dotted q [] = and_assoc (in_label c) (all in_label q) dotted
longer_rest c dotted q (m ∷ ls) = and_assoc (in_label c) (all in_label q) (all label_ok (m ∷ ls))

dot_starts_none : (c : ℕ) → (c == b'.') ≡ true → starts_label c ≡ false
dot_starts_none c d = ground arith

matches-split :
    (begins dotted : Bool) (t : Text)
    → matches begins dotted t ≡ labels_ok begins dotted (split b'.' t)
matches-split true dotted [] = refl
matches-split false dotted [] = refl
matches-split true dotted (c ∷ cs) =
    let (q, (qs, e)) = split_cases cs in
    elim (Bool-cases (c == b'.')) [
      | inl d ↦ rw (dot_starts_none c d, d, e) refl
      | inr n ↦
          rw (n, e)
            ((rw e at (ap (λ b. starts_label c && b) (matches-split false dotted cs)))
              ∙ longer_start c dotted q qs)
    ]
matches-split false dotted (c ∷ cs) =
    let (q, (qs, e)) = split_cases cs in
    elim (Bool-cases (c == b'.')) [
      | inl d ↦ rw (d, e) ((rw e at (matches-split true true cs)) ∙ labels_all q qs)
      | inr n ↦
          rw (n, e)
            ((rw e at (ap (λ b. in_label c && b) (matches-split false dotted cs)))
              ∙ longer_rest c dotted q qs)
    ]

abbrev pub is_ok : Result {0} Unit → Bool
is_ok (ok a) = true
is_ok (err e) = false

is_ok-bind : (r s : Result {0} Unit) → is_ok (r >>= λ _. s) ≡ (is_ok r && is_ok s)
is_ok-bind (ok a) s = refl
is_ok-bind (err e) s = refl

check_label_lem : (l : Text) → is_ok (check_label l) ≡ label_ok l
check_label_lem [] = refl
check_label_lem (c ∷ cs) = elim (Bool-cases (starts_label c)) [
  | inl a ↦ rw a (elim (Bool-cases (all in_label cs)) [ inl b ↦ rw b refl | inr b ↦ rw b refl ])
  | inr a ↦ rw a refl
]

check_labels_lem : (ls : List Text) → is_ok (check_labels ls) ≡ all label_ok ls
check_labels_lem [] = refl
check_labels_lem (l ∷ ls) =
    is_ok-bind (check_label l) (check_labels ls) ∙ rw (check_label_lem l, check_labels_lem ls) refl

enough_labels :
    (q : Text) (qs : List Text)
    → (all label_ok (q ∷ qs) && is_ok (if ltb (length (q ∷ qs)) 2 then err one_label else ok tt))
      ≡ labels_ok true false (q ∷ qs)
enough_labels q [] = rw (and_true (label_ok q)) refl
enough_labels q (m ∷ ls) =
    let two : ltb (length (q ∷ m ∷ ls)) 2 ≡ false = ground arith in
    rw two (and_true (all label_ok (q ∷ m ∷ ls)))

some_length :
    (t : Text)
    → (length t == 0) ≡ false
    → matches true false t ≡ labels_ok true false (split b'.' t)
some_length t h = matches-split true false t

empty_text : (t : Text) → (length t == 0) ≡ true → matches true false t ≡ false
empty_text [] h = refl
empty_text (c ∷ cs) h = absurd (ground arith)

-- An app id is accepted exactly if it matches the regular expression of the documentation and is
-- of at most 64 bytes.
pub validate_app_id_iff :
    (id : Text)
    → is_ok (validate_app_id id) ≡ (matches true false id && leb (length id) max_app_id_chars)
unfolding validate_app_id
validate_app_id_iff id = elim (Bool-cases (length id == 0)) [
  | inl e ↦ rw (e, empty_text id e) refl
  | inr n ↦ rw n (elim (Bool-cases (ltb max_app_id_chars (length id))) [
    | inl l ↦
        let long : leb (length id) max_app_id_chars ≡ false = ground arith in
        rw (l, long) (sym (and_false (matches true false id)))
    | inr l ↦
        let short : leb (length id) max_app_id_chars ≡ true = ground arith in
        let (q, (qs, e)) = split_cases id in
        rw (l, short, and_true (matches true false id), matches-split true false id, e)
          (is_ok-bind (check_labels (q ∷ qs))
              (if ltb (length (q ∷ qs)) 2 then err one_label else ok tt)
            ∙ rw (check_labels_lem (q ∷ qs)) (enough_labels q qs))
  ])
]
  where
    and_false : (b : Bool) → (b && false) ≡ false
    and_false true = refl
    and_false false = refl
