-- ===== src/Subscribers/Order.antt =====
-- A list of windows without one of them (kernel/session_subscribers.rs, `attach` and `leave`).
use citadel_agent.Prelude.{
  ℕ, ◌+◌, ◌≡◌, ◌≢◌, ◌⊎◌, refl, sym, subst, ap, ◌∙◌, Bool, true, false, ◌||◌, Option, some, List, [],
  ◌∷◌, ◌++◌, ◌==◌, ==→eq, if◌then◌else◌, Bool-cases, Option-cases, inl, inr, arith,
}
use citadel_agent.Subscribers.{contains, first_of, without}

-- No window is attached twice.
abbrev pub IsDistinct : List ℕ → Type 0
IsDistinct [] = Unit
IsDistinct (x ∷ xs) = (contains x xs ≡ false) × IsDistinct xs

contains-append :
    (x c : ℕ) (xs : List ℕ)
    → contains x xs ≡ false
    → (c == x) ≡ false
    → contains x (xs ++ c ∷ []) ≡ false
contains-append x c [] h e = rw e refl
contains-append x c (y ∷ ys) h e = elim (Bool-cases (y == x)) [
  | inl f ↦ absurd (true≢false (rw f at h))
  | inr f ↦ rw f (contains-append x c ys (rw f at h) e)
]
  where
    true≢false : true ≡ false → ⊥
    true≢false p = cc

apart : (x c : ℕ) → (x == c) ≡ false → (c == x) ≡ false
apart x c e = ground arith

or→neither : (a b : Bool) → (a || b) ≡ false → (a ≡ false) × (b ≡ false)
or→neither true b h = absurd (cc)
or→neither false b h = (refl, h)

pub IsDistinct-append :
    (c : ℕ) (xs : List ℕ) → IsDistinct xs → contains c xs ≡ false → IsDistinct (xs ++ c ∷ [])
IsDistinct-append c [] d h = (refl, tt)
IsDistinct-append c (x ∷ xs) d h =
    let (e, rest) = or→neither (x == c) (contains c xs) h in
    (contains-append x c xs d.0 (apart x c e), IsDistinct-append c xs d.1 rest)

-- What is taken out: it stood there, and the others stay.
pub record IsTakenOut (c : ℕ) (xs : List ℕ) (position : ℕ) (rest : List ℕ) : Type 0 where
  pub was_there : contains c xs ≡ true
  pub others : (d : ℕ) → (d == c) ≡ false → contains d rest ≡ contains d xs
  pub primary :
      ((position ≡ 0) × (first_of xs ≡ some c)) ⊎ ((position ≢ 0) × (first_of xs ≡ first_of rest))

pub none≢some : (r : ℕ × List ℕ) → Option.none ≡ some r → ⊥
none≢some r e = cc

some-inj : (q r : ℕ × List ℕ) → Option.some q ≡ some r → q ≡ r
some-inj q r e = cc

head-IsTakenOut : (c x : ℕ) (xs : List ℕ) → (x == c) ≡ true → IsTakenOut c (x ∷ xs) 0 xs
head-IsTakenOut c x xs e = record {
  was_there = rw e refl;
  others = λ d f. rw (other d f) refl;
  primary = inl (refl, ap some (==→eq x c e));
}
  where
    other : (d : ℕ) → (d == c) ≡ false → (x == d) ≡ false
    other d f = ground arith

pub without-IsTakenOut :
    (c : ℕ) (xs : List ℕ) (taken : ℕ × List ℕ)
    → without c xs ≡ some taken
    → IsTakenOut c xs taken.0 taken.1
without-IsTakenOut c [] taken h = absurd (none≢some taken h)
without-IsTakenOut c (x ∷ xs) taken h = elim (Bool-cases (x == c)) [
  | inl e ↦
      subst (λ q. IsTakenOut c (x ∷ xs) q.0 q.1) (some-inj (0, xs) taken (rw (e, without) at h))
        (head-IsTakenOut c x xs e)
  | inr e ↦ elim (Option-cases (without c xs)) [
    | inl f ↦ absurd (none≢some taken (rw (e, f, without) at h))
    | inr ((p, r), f) ↦
        let ih = without-IsTakenOut c xs (p, r) f in
        subst (λ q. IsTakenOut c (x ∷ xs) q.0 q.1)
          (some-inj (p + 1, x ∷ r) taken (rw (e, f, without) at h))
          (record {
            was_there = rw e ih.was_there;
            others = λ d g. ap (λ b. (x == d) || b) (ih.others d g);
            primary = inr (λ z. omega arith, refl);
          })
  ]
]

-- Taking out of a set leaves a set that the connection is not in.
pub without-IsDistinct :
    (c : ℕ) (xs : List ℕ) (taken : ℕ × List ℕ)
    → IsDistinct xs
    → without c xs ≡ some taken
    → IsDistinct taken.1 × (contains c taken.1 ≡ false)
without-IsDistinct c [] taken d h = absurd (none≢some taken h)
without-IsDistinct c (x ∷ xs) taken d h = elim (Bool-cases (x == c)) [
  | inl e ↦
      subst (λ q. IsDistinct q.1 × (contains c q.1 ≡ false))
        (some-inj (0, xs) taken (rw (e, without) at h))
        (d.1, subst (λ m. contains m xs ≡ false) (==→eq x c e) d.0)
  | inr e ↦ elim (Option-cases (without c xs)) [
    | inl f ↦ absurd (none≢some taken (rw (e, f, without) at h))
    | inr ((p, r), f) ↦
        let ih = without-IsDistinct c xs (p, r) d.1 f in
        let kept = (without-IsTakenOut c xs (p, r) f).others x e in
        subst (λ q. IsDistinct q.1 × (contains c q.1 ≡ false))
          (some-inj (p + 1, x ∷ r) taken (rw (e, f, without) at h)) ((kept ∙ d.0, ih.0), rw e ih.1)
  ]
]

-- All windows but that one, in the order in which they attached.
abbrev pub others_of : ℕ → List ℕ → List ℕ
others_of c [] = []
others_of c (m ∷ ms) = if m == c then others_of c ms else m ∷ others_of c ms

pub absent-others_of : (c : ℕ) (xs : List ℕ) → contains c xs ≡ false → others_of c xs ≡ xs
absent-others_of c [] h = refl
absent-others_of c (x ∷ xs) h =
    let (e, rest) = or→neither (x == c) (contains c xs) h in
    rw e (ap (λ ms. x ∷ ms) (absent-others_of c xs rest))

-- Taking out of a set keeps the order of the others.
pub without-others_of :
    (c : ℕ) (xs : List ℕ) (taken : ℕ × List ℕ)
    → IsDistinct xs
    → without c xs ≡ some taken
    → taken.1 ≡ others_of c xs
without-others_of c [] taken d h = absurd (none≢some taken h)
without-others_of c (x ∷ xs) taken d h = elim (Bool-cases (x == c)) [
  | inl e ↦
      let kept = absent-others_of c xs (subst (λ m. contains m xs ≡ false) (==→eq x c e) d.0) in
      subst (λ q. q.1 ≡ others_of c (x ∷ xs)) (some-inj (0, xs) taken (rw (e, without) at h))
        (rw e (sym kept))
  | inr e ↦ elim (Option-cases (without c xs)) [
    | inl f ↦ absurd (none≢some taken (rw (e, f, without) at h))
    | inr ((p, r), f) ↦
        let kept = without-others_of c xs (p, r) d.1 f in
        subst (λ q. q.1 ≡ others_of c (x ∷ xs))
          (some-inj (p + 1, x ∷ r) taken (rw (e, f, without) at h)) (rw e (ap (λ ms. x ∷ ms) kept))
  ]
]
