-- ===== src/AppNet/Retain.antt =====
-- What is left of the windows when old requests fall out (kernel/apps/net/rate.rs, `retain`).
use citadel_agent.Prelude.{
  ℕ, ◌+◌, ◌-◌, ◌≤◌, ◌≡◌, refl, sym, subst, ap, ◌∙◌, true, false, Option, none, List, [], ◌∷◌, leb,
  if_cases, length, unwrap_or, Bool-cases, inl, inr, arith,
}
use citadel_agent.Assoc.{get, IsDistinct}
use citadel_agent.Text.{Text, ◌=ₜ◌}
use citadel_agent.Text.Laws.{=ₜ→eq}
use citadel_agent.AppNet.Rate.{Apps, window_ms, trim, keep, retain}

-- The window of an app.
abbrev pub times_in : Text → Apps → List ℕ
times_in app apps = unwrap_or (get ◌=ₜ◌ app apps) []

keep-get_other :
    (app k : Text) (ts : List ℕ) (more : Apps)
    → (app =ₜ k) ≡ false
    → get ◌=ₜ◌ app (keep k ts more) ≡ get ◌=ₜ◌ app more
keep-get_other app k [] more e = refl
keep-get_other app k (t ∷ ts) more e = rw e refl

keep-times_in :
    (app k : Text) (ts : List ℕ) (more : Apps)
    → (app =ₜ k) ≡ true
    → get ◌=ₜ◌ app more ≡ none
    → times_in app (keep k ts more) ≡ ts
keep-times_in app k [] more e h = ap (λ o. unwrap_or o []) h
keep-times_in app k (t ∷ ts) more e h = rw e refl

some≢none : (ts : List ℕ) → Option.some ts ≡ none → ⊥
some≢none ts e = cc

retain-get-none :
    (apps : Apps) (now : ℕ) (app : Text)
    → get ◌=ₜ◌ app apps ≡ none
    → get ◌=ₜ◌ app (retain now apps) ≡ none
unfolding retain
retain-get-none [] now app h = refl
retain-get-none ((k, ts) ∷ apps) now app h = elim (Bool-cases (app =ₜ k)) [
  | inl e ↦ absurd (some≢none ts (rw e at h))
  | inr e ↦
      keep-get_other app k (trim now ts) (retain now apps) e
      ∙ retain-get-none apps now app (rw e at h)
]

pub times_in-retain :
    (apps : Apps) (now : ℕ) (app : Text)
    → IsDistinct ◌=ₜ◌ apps
    → times_in app (retain now apps) ≡ trim now (times_in app apps)
unfolding retain trim
times_in-retain [] now app d = refl
times_in-retain ((k, ts) ∷ apps) now app d = elim (Bool-cases (app =ₜ k)) [
  | inl e ↦
      let missing = subst (λ m. get ◌=ₜ◌ m apps ≡ none) (sym (=ₜ→eq app k e)) d.0 in
      keep-times_in app k (trim now ts) (retain now apps) e (retain-get-none apps now app missing)
      ∙ rw e refl
  | inr e ↦
      ap (λ o. unwrap_or o []) (keep-get_other app k (trim now ts) (retain now apps) e)
      ∙ times_in-retain apps now app d.1
      ∙ rw e refl
]

keep-IsDistinct :
    (k : Text) (ts : List ℕ) (more : Apps)
    → get ◌=ₜ◌ k more ≡ none
    → IsDistinct ◌=ₜ◌ more
    → IsDistinct ◌=ₜ◌ (keep k ts more)
keep-IsDistinct k [] more h d = d
keep-IsDistinct k (t ∷ ts) more h d = (h, d)

pub retain-IsDistinct :
    (apps : Apps) (now : ℕ) → IsDistinct ◌=ₜ◌ apps → IsDistinct ◌=ₜ◌ (retain now apps)
unfolding retain
retain-IsDistinct [] now d = tt
retain-IsDistinct ((k, ts) ∷ apps) now d =
    keep-IsDistinct k (trim now ts) (retain now apps) (retain-get-none apps now k d.0)
      (retain-IsDistinct apps now d.1)

length-keep : (k : Text) (ts : List ℕ) (more : Apps) → length (keep k ts more) ≤ length more + 1
length-keep k [] more = omega arith
length-keep k (t ∷ ts) more = omega arith

pub length-retain : (apps : Apps) (now : ℕ) → length (retain now apps) ≤ length apps
unfolding retain
length-retain [] now = omega arith
length-retain ((k, ts) ∷ apps) now =
    omega (arith, length-retain apps now, length-keep k (trim now ts) (retain now apps))

pub length-trim : (ts : List ℕ) (now : ℕ) → length (trim now ts) ≤ length ts
unfolding trim
length-trim [] now = omega arith
length-trim (t ∷ ts) now =
    if_cases (λ m. length m ≤ length (t ∷ ts)) (leb window_ms (now - t)) (trim now ts) (t ∷ ts)
      (omega (arith, length-trim ts now)) (omega arith)
