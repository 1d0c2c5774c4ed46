-- ===== src/Text/Find.antt =====
-- What the methods of `str` that look for a text find: the prefixes, suffixes and occurrences.
use citadel_agent.Prelude.{
  ℕ, ◌≤◌, ◌≡◌, refl, sym, ap, ap₂, Bool, true, false, ◌||◌, Option, some, List, [], ◌∷◌, ◌++◌,
  arith, ◌==◌, ==→eq, ==_refl, Bool-cases, inl, inr, length,
}
use citadel_agent.Text.{Text, ◌=ₜ◌, strip_prefix, ends_with}
use citadel_agent.Text.Laws.{=ₜ→eq, =ₜ_refl}

none≢some : (r : Text) → Option.none ≡ some r → ⊥
none≢some r e = cc

pub some-inj : (r s : Text) → Option.some r ≡ some s → r ≡ s
some-inj r s e = cc

pub strip_prefix-some : (p t r : Text) → strip_prefix p t ≡ some r → t ≡ p ++ r
strip_prefix-some [] t r h = some-inj t r h
strip_prefix-some (a ∷ p) [] r h = absurd (none≢some r h)
strip_prefix-some (a ∷ p) (c ∷ t) r h = elim (Bool-cases (a == c)) [
  | inl e ↦ ap₂ (λ x xs. x ∷ xs) (sym (==→eq a c e)) (strip_prefix-some p t r (rw e at h))
  | inr e ↦ absurd (none≢some r (rw e at h))
]

pub strip_prefix-append : (p r : Text) → strip_prefix p (p ++ r) ≡ some r
strip_prefix-append [] r = refl
strip_prefix-append (a ∷ p) r = rw (==_refl a) (strip_prefix-append p r)

pub ends_with-true : (s t : Text) → ends_with s t ≡ true → (x : Text) × (t ≡ x ++ s)
ends_with-true s [] h = ([], sym (=ₜ→eq s [] h))
ends_with-true s (c ∷ cs) h = elim (Bool-cases (s =ₜ (c ∷ cs))) [
  | inl e ↦ ([], sym (=ₜ→eq s (c ∷ cs) e))
  | inr e ↦ let (x, f) = ends_with-true s cs (rw e at h) in (c ∷ x, ap (λ xs. c ∷ xs) f)
]

pub ends_with_self : (s : Text) → ends_with s s ≡ true
ends_with_self [] = refl
ends_with_self (c ∷ cs) = rw (=ₜ_refl (c ∷ cs)) refl

pub ends_with-append : (x s : Text) → ends_with s (x ++ s) ≡ true
ends_with-append [] s = ends_with_self s
ends_with-append (c ∷ x) s = rw (ends_with-append x s) (or_true (s =ₜ (c ∷ (x ++ s))))
  where
    or_true : (b : Bool) → (b || true) ≡ true
    or_true true = refl
    or_true false = refl

pub append_assoc : (x y z : Text) → (x ++ y) ++ z ≡ x ++ (y ++ z)
append_assoc [] y z = refl
append_assoc (c ∷ x) y z = ap (λ xs. c ∷ xs) (append_assoc x y z)

tail_eq : (a b : ℕ) (s t : Text) → List.◌∷◌ a s ≡ b ∷ t → s ≡ t
tail_eq a b s t e = cc

-- Of two tails of a text, the longer has the other for a tail.
pub longer_tail :
    (a b r s : Text) → length a ≤ length b → a ++ r ≡ b ++ s → (y : Text) × (r ≡ y ++ s)
longer_tail [] b r s l h = (b, h)
longer_tail (c ∷ a) [] r s l h = absurd (omega arith)
longer_tail (c ∷ a) (d ∷ b) r s l h =
    longer_tail a b r s (omega arith) (tail_eq c d (a ++ r) (b ++ s) h)
