-- ===== src/Subscribers/Members.antt =====
-- The set of a session's windows and its primary (kernel/session_subscribers.rs).
use citadel_agent.Prelude.{
  ℕ, ◌≡◌, ◌≢◌, ◌⊎◌, refl, sym, subst, Bool, true, false, Option, none, some, List, [], ◌∷◌, ◌++◌,
  ◌==◌, if◌then◌else◌, if_known, Bool-cases, Option-cases, inl, inr, arith,
}
use citadel_agent.Subscribers.{
  Attached, Detached, contains, first_of, attach, without, remembered, leave, take_over, Call,
  attaching, detaching, releasing, taking_over, after, run, new,
}
use citadel_agent.Subscribers.Order.{
  IsDistinct, IsDistinct-append, without-IsTakenOut, without-IsDistinct, others_of,
  without-others_of, absent-others_of,
}

-- A holder is remembered only while no window is attached.
abbrev pub IsForgotten : Option ℕ → List ℕ → Type 0
IsForgotten none order = Unit
IsForgotten (some c) [] = Unit
IsForgotten (some c) (m ∷ ms) = ⊥

pub record IsValid (a : Attached) : Type 0 where
  pub distinct : IsDistinct a.order
  pub forgotten : IsForgotten a.last_holder a.order

remembered-IsForgotten :
    (remember : Bool) (c : ℕ) (rest : List ℕ) (old : Option ℕ)
    → old ≡ none
    → IsForgotten (remembered remember c rest old) rest
remembered-IsForgotten true c [] old e = tt
remembered-IsForgotten false c [] old e = tt
remembered-IsForgotten remember c (m ∷ ms) old e = subst (λ o. IsForgotten o (m ∷ ms)) (sym e) tt

-- While a window is attached nobody is remembered.
while_attached :
    (c : ℕ) (order : List ℕ) (old : Option ℕ)
    → contains c order ≡ true
    → IsForgotten old order
    → old ≡ none
while_attached c order none h f = refl
while_attached c [] (some d) h f = absurd (false≢true h)
  where
    false≢true : false ≡ true → ⊥
    false≢true e = cc
while_attached c (m ∷ ms) (some d) h f = absurd f

attach-IsValid : (a : Attached) (c : ℕ) → IsValid a → IsValid (attach a c).0
unfolding attach
attach-IsValid a c v =
    if_known (λ (r : Attached × Bool). IsValid r.0) (contains c a.order) (a, false)
      (record { order = a.order ++ c ∷ []; last_holder = none }, true) (λ e. v)
      (λ e. record { distinct = IsDistinct-append c a.order v.distinct e; forgotten = tt })

take_over-IsValid : (a : Attached) (c : ℕ) → IsValid a → IsValid (take_over a c).0
unfolding take_over
take_over-IsValid a c v =
    if_known (λ (r : Attached × List ℕ). IsValid r.0) (contains c a.order)
      (record a { last_holder = none }, []) (record { order = c ∷ []; last_holder = none }, a.order)
      (λ e. record { distinct = v.distinct; forgotten = tt })
      (λ e. record { distinct = (refl, tt); forgotten = tt })

leave-IsValid :
    (a : Attached) (c : ℕ) (remember : Bool) → IsValid a → IsValid (leave a c remember).0
unfolding leave
leave-IsValid a c remember v = elim (Option-cases (without c a.order)) [
  | inl f ↦ rw (f, leave) v
  | inr ((p, rest), f) ↦
      let taken = without-IsTakenOut c a.order (p, rest) f in
      let old_none = while_attached c a.order a.last_holder taken.was_there v.forgotten in
      rw (f, leave)
        (record {
          distinct = (without-IsDistinct c a.order (p, rest) v.distinct f).0;
          forgotten = remembered-IsForgotten remember c rest a.last_holder old_none;
        })
]

after-IsValid : (a : Attached) (call : Call) → IsValid a → IsValid (after a call)
unfolding after
after-IsValid a (attaching c) v = attach-IsValid a c v
after-IsValid a (detaching c) v = leave-IsValid a c true v
after-IsValid a (releasing c) v = leave-IsValid a c false v
after-IsValid a (taking_over c) v = take_over-IsValid a c v

run-IsValid : (calls : List Call) (a : Attached) → IsValid a → IsValid (run a calls)
unfolding run
run-IsValid [] a v = v
run-IsValid (c ∷ cs) a v = run-IsValid cs (after a c) (after-IsValid a c v)

-- Whatever windows attach, detach, release and take over, from a session's first window on: no
-- window is attached twice, and a last holder is remembered only while none is attached.
pub reach-IsValid : (first : ℕ) (calls : List Call) → IsValid (run (new first) calls)
reach-IsValid first calls =
    run-IsValid calls (new first) (record { distinct = (refl, tt); forgotten = tt })

-- What `leave` reports and does.
pub record IsLeft (a : Attached) (c : ℕ) (r : Attached × Detached) : Type 0 where
  pub in_order : r.0.order ≡ others_of c a.order
  pub gone : contains c r.0.order ≡ false
  pub others : (d : ℕ) → (d == c) ≡ false → contains d r.0.order ≡ contains d a.order
  pub reported : r.1.removed ≡ contains c a.order
  pub primary :
      ((first_of a.order ≡ some c) × (r.1.promoted ≡ first_of r.0.order))
      ⊎ ((first_of r.0.order ≡ first_of a.order) × (r.1.promoted ≡ none))

without-none : (c : ℕ) (xs : List ℕ) → without c xs ≡ none → contains c xs ≡ false
without-none c [] h = refl
without-none c (x ∷ xs) h = elim (Bool-cases (x == c)) [
  | inl e ↦ absurd (some≢none (rw (e, without) at h))
  | inr e ↦ elim (Option-cases (without c xs)) [
    | inl f ↦ rw e (without-none c xs f)
    | inr (q, f) ↦ absurd (some≢none (rw (e, f, without) at h))
  ]
]
  where
    some≢none : {q : ℕ × List ℕ} → Option.some q ≡ none → ⊥
    some≢none e = cc

-- The two cases of a member that leaves: it was the first, and the next is promoted, or not.
promotion :
    (c : ℕ) (order rest : List ℕ) (p : ℕ)
    → ((p ≡ 0) × (first_of order ≡ some c)) ⊎ ((p ≢ 0) × (first_of order ≡ first_of rest))
    → ((first_of order ≡ some c) × ((if p == 0 then first_of rest else none) ≡ first_of rest))
      ⊎ ((first_of rest ≡ first_of order) × ((if p == 0 then first_of rest else none) ≡ none))
promotion c order rest p (inl (z, f)) = inl (f, rw z refl)
promotion c order rest p (inr (n, f)) = inr (sym f, rw (not_zero n) refl)
  where
    not_zero : p ≢ 0 → (p == 0) ≡ false
    not_zero m = ground arith

-- When a window leaves a set in which no window is attached twice, by detaching or by a release, it
-- is no member any more, the other windows stay in the order in which they attached, and it is
-- reported as removed exactly if it was a member. If it was the primary, the one that attached
-- first of those left is promoted; if not, the primary stays and nobody is promoted.
pub leave-IsLeft :
    (a : Attached) (c : ℕ) (remember : Bool) → IsValid a → IsLeft a c (leave a c remember)
unfolding leave
leave-IsLeft a c remember v = elim (Option-cases (without c a.order)) [
  | inl f ↦
      let absent = without-none c a.order f in
      rw (f, leave)
        (record {
          in_order = sym (absent-others_of c a.order absent);
          gone = absent;
          others = λ d g. refl;
          reported = sym absent;
          primary = inr (refl, refl);
        })
  | inr ((p, rest), f) ↦
      let taken = without-IsTakenOut c a.order (p, rest) f in
      rw (f, leave)
        (record {
          in_order = without-others_of c a.order (p, rest) v.distinct f;
          gone = (without-IsDistinct c a.order (p, rest) v.distinct f).1;
          others = taken.others;
          reported = sym taken.was_there;
          primary = promotion c a.order rest p taken.primary;
        })
]
