-- ===== src/AppNet/Admit.antt =====
-- What one request does to the windows (kernel/apps/net/rate.rs, `admit`).
use citadel_agent.Prelude.{
  ℕ, ◌<◌, ◌≡◌, refl, sym, subst, ap, ◌∙◌, Bool, true, false, not, ◌&&◌, List, [], ◌∷◌, ◌++◌, leb,
  ◌==◌, ==→eq, ==_refl, if◌then◌else◌, if_known, length, is_some, unwrap_or, Bool-cases, inl, inr,
  arith,
}
use citadel_agent.Assoc.{get, set, IsDistinct, get-set_same, get-set_other, set-IsDistinct}
use citadel_agent.Text.{Text, ◌=ₜ◌}
use citadel_agent.Text.Laws.{=ₜ→eq, =ₜ_refl}
use citadel_agent.NetPolicy.Limits.{max_requests_per_minute}
use citadel_agent.AppNet.Rate.{
  Apps, RateLimiter, max_apps_per_account, trim, retain, admit_app, admit,
}
use citadel_agent.AppNet.Retain.{times_in, times_in-retain, retain-IsDistinct}

-- What a request at `now` leaves of a window: the request is counted in it or not.
pub data IsWindowStep (now : ℕ) (old : List ℕ) : Bool → List ℕ → Type 0 where
  untouched : IsWindowStep now old false old
  trimmed : IsWindowStep now old false (trim now old)
  counted :
      length (trim now old) < max_requests_per_minute
      → IsWindowStep now old true (trim now old ++ now ∷ [])

module _ (apps : Apps) (app now_app : Text) (now : ℕ) where
  times_in-set_same :
      (ts : List ℕ) → (app =ₜ now_app) ≡ true → times_in app (set ◌=ₜ◌ now_app ts apps) ≡ ts
  times_in-set_same ts e =
      subst (λ k. times_in app (set ◌=ₜ◌ k ts apps) ≡ ts) (=ₜ→eq app now_app e)
        (ap (λ o. unwrap_or o []) (get-set_same ◌=ₜ◌ =ₜ→eq =ₜ_refl app ts apps))

  times_in-set_other :
      (ts : List ℕ)
      → (app =ₜ now_app) ≡ false
      → times_in app (set ◌=ₜ◌ now_app ts apps) ≡ times_in app apps
  times_in-set_other ts e =
      ap (λ o. unwrap_or o []) (get-set_other ◌=ₜ◌ =ₜ→eq =ₜ_refl app now_app ts apps e)

  set_back : times_in app (set ◌=ₜ◌ now_app (times_in now_app apps) apps) ≡ times_in app apps
  set_back = elim (Bool-cases (app =ₜ now_app)) [
    | inl e ↦
        times_in-set_same (times_in now_app apps) e
        ∙ subst (λ k. times_in k apps ≡ times_in app apps) (=ₜ→eq app now_app e) refl
    | inr e ↦ times_in-set_other (times_in now_app apps) e
  ]

module _ (now : ℕ) (old : List ℕ) where
  trimmed_at : (new : List ℕ) → new ≡ trim now old → IsWindowStep now old false new
  trimmed_at new e = subst (IsWindowStep now old false) (sym e) trimmed

  step_at :
      (b c : Bool) (new later : List ℕ)
      → b ≡ c
      → new ≡ later
      → IsWindowStep now old c later
      → IsWindowStep now old b new
  step_at b c new later e f s =
      subst (λ d. IsWindowStep now old d new) (sym e) (subst (IsWindowStep now old c) (sym f) s)

-- A request that is counted joins its own window and no other.
appended :
    (apps : Apps) (app now_app : Text) (now : ℕ) (old : List ℕ)
    → times_in app apps ≡ trim now old
    → length (times_in now_app apps) < max_requests_per_minute
    → IsWindowStep now old
        (app =ₜ now_app)
        (times_in app (set ◌=ₜ◌ now_app (times_in now_app apps ++ now ∷ []) apps))
appended apps app now_app now old h l = elim (Bool-cases (app =ₜ now_app)) [
  | inr e ↦
      step_at now old (app =ₜ now_app) false _ (trim now old) e
        (times_in-set_other apps app now_app now (times_in now_app apps ++ now ∷ []) e ∙ h) trimmed
  | inl e ↦
      let own : times_in now_app apps ≡ trim now old =
        subst (λ k. times_in k apps ≡ trim now old) (=ₜ→eq app now_app e) h in
      step_at now old (app =ₜ now_app) true _ (trim now old ++ now ∷ []) e
        (times_in-set_same apps app now_app now (times_in now_app apps ++ now ∷ []) e
          ∙ ap (λ ts. ts ++ now ∷ []) own)
        (counted (subst (λ ts. length ts < max_requests_per_minute) own l))
]

-- The windows of one account, trimmed already.
admit_app_lem :
    (apps : Apps) (app now_app : Text) (now : ℕ) (old : List ℕ)
    → times_in app apps ≡ trim now old
    → IsWindowStep now old
        ((admit_app apps now_app now).1 && (app =ₜ now_app))
        (times_in app (admit_app apps now_app now).0)
unfolding admit_app
admit_app_lem apps app now_app now old h =
    let After : Apps × Bool → Type 0 =
      λ r. IsWindowStep now old (r.1 && (app =ₜ now_app)) (times_in app r.0) in
    let times = times_in now_app apps in
    let full = leb max_requests_per_minute (length times) in
    if_known After (not (is_some (get ◌=ₜ◌ now_app apps)) && leb max_apps_per_account (length apps))
      (apps, false)
      (if full
        then (set ◌=ₜ◌ now_app times apps, false)
        else (set ◌=ₜ◌ now_app (times ++ now ∷ []) apps, true))
      (λ e. trimmed_at now old (times_in app apps) h)
      (λ e.
        if_known After full (set ◌=ₜ◌ now_app times apps, false)
          (set ◌=ₜ◌ now_app (times ++ now ∷ []) apps, true)
          (λ f.
            trimmed_at now old (times_in app (set ◌=ₜ◌ now_app times apps))
              (set_back apps app now_app now ∙ h))
          (λ f. appended apps app now_app now old h (ground arith)))

-- In each account, an app has one window.
abbrev pub IsLimiter : RateLimiter → Type 0
IsLimiter [] = Unit
IsLimiter ((cid, apps) ∷ accounts) = IsDistinct ◌=ₜ◌ apps × IsLimiter accounts

abbrev pub apps_of : ℕ → RateLimiter → Apps
apps_of cid admitted = unwrap_or (get ◌==◌ cid admitted) []

-- The window of an app for an account.
abbrev pub times_of : RateLimiter → ℕ → Text → List ℕ
times_of admitted cid app = times_in app (apps_of cid admitted)

apps_of-IsDistinct :
    (admitted : RateLimiter) (cid : ℕ) → IsLimiter admitted → IsDistinct ◌=ₜ◌ (apps_of cid admitted)
apps_of-IsDistinct [] cid h = tt
apps_of-IsDistinct ((c, apps) ∷ accounts) cid h = elim (Bool-cases (cid == c)) [
  | inl e ↦ rw e h.0
  | inr e ↦ rw e (apps_of-IsDistinct accounts cid h.1)
]

set-IsLimiter :
    (admitted : RateLimiter) (cid : ℕ) (apps : Apps)
    → IsDistinct ◌=ₜ◌ apps
    → IsLimiter admitted
    → IsLimiter (set ◌==◌ cid apps admitted)
set-IsLimiter [] cid apps d h = (d, tt)
set-IsLimiter ((c, old) ∷ accounts) cid apps d h = elim (Bool-cases (cid == c)) [
  | inl e ↦ rw e (d, h.1)
  | inr e ↦ rw e (h.0, set-IsLimiter accounts cid apps d h.1)
]

admit_app-IsDistinct :
    (apps : Apps) (app : Text) (now : ℕ)
    → IsDistinct ◌=ₜ◌ apps
    → IsDistinct ◌=ₜ◌ (admit_app apps app now).0
unfolding admit_app
admit_app-IsDistinct apps app now d =
    let Fine : Apps × Bool → Type 0 = λ r. IsDistinct ◌=ₜ◌ r.0 in
    let times = times_in app apps in
    let full = leb max_requests_per_minute (length times) in
    let set_fine = λ (ts : List ℕ). set-IsDistinct ◌=ₜ◌ =ₜ→eq =ₜ_refl app ts apps d in
    if_known Fine (not (is_some (get ◌=ₜ◌ app apps)) && leb max_apps_per_account (length apps))
      (apps, false)
      (if full
        then (set ◌=ₜ◌ app times apps, false)
        else (set ◌=ₜ◌ app (times ++ now ∷ []) apps, true))
      (λ e. d)
      (λ e.
        if_known Fine full (set ◌=ₜ◌ app times apps, false)
          (set ◌=ₜ◌ app (times ++ now ∷ []) apps, true) (λ f. set_fine times)
          (λ f. set_fine (times ++ now ∷ [])))

pub admit-IsLimiter :
    (admitted : RateLimiter) (cid : ℕ) (app : Text) (now : ℕ)
    → IsLimiter admitted
    → IsLimiter (admit admitted cid app now).0
unfolding admit
admit-IsLimiter admitted cid app now h =
    set-IsLimiter admitted cid _
      (admit_app-IsDistinct (retain now (apps_of cid admitted)) app now
        (retain-IsDistinct (apps_of cid admitted) now (apps_of-IsDistinct admitted cid h)))
      h

and_false : (b : Bool) → (b && false) ≡ false
and_false true = refl
and_false false = refl

-- A request to the account itself.
own_step :
    (admitted : RateLimiter) (cid : ℕ) (app now_app : Text) (now : ℕ)
    → IsLimiter admitted
    → IsWindowStep now
        (times_of admitted cid app)
        ((admit admitted cid now_app now).1 && ((cid == cid) && (app =ₜ now_app)))
        (times_of (admit admitted cid now_app now).0 cid app)
unfolding admit
own_step admitted cid app now_app now h =
    let apps = apps_of cid admitted in
    step_at now (times_of admitted cid app) _
      ((admit_app (retain now apps) now_app now).1 && (app =ₜ now_app)) _
      (times_in app (admit_app (retain now apps) now_app now).0) (rw (==_refl cid) refl)
      (ap (λ o. times_in app (unwrap_or o []))
        (get-set_same ◌==◌ ==→eq ==_refl cid (admit_app (retain now apps) now_app now).0 admitted))
      (admit_app_lem (retain now apps) app now_app now (times_of admitted cid app)
        (times_in-retain apps now app (apps_of-IsDistinct admitted cid h)))

pub admit_step :
    (admitted : RateLimiter) (cid now_cid : ℕ) (app now_app : Text) (now : ℕ)
    → IsLimiter admitted
    → IsWindowStep now
        (times_of admitted cid app)
        ((admit admitted now_cid now_app now).1 && ((cid == now_cid) && (app =ₜ now_app)))
        (times_of (admit admitted now_cid now_app now).0 cid app)
unfolding admit
admit_step admitted cid now_cid app now_app now h = elim (Bool-cases (cid == now_cid)) [
  | inr e ↦
      step_at now (times_of admitted cid app) _ false _ (times_of admitted cid app)
        (rw e (and_false _))
        (ap (λ o. times_in app (unwrap_or o []))
          (get-set_other ◌==◌ ==→eq ==_refl cid now_cid _ admitted e))
        untouched
  | inl e ↦
      subst
        (λ n.
          IsWindowStep now (times_of admitted cid app)
            ((admit admitted n now_app now).1 && ((cid == n) && (app =ₜ now_app)))
            (times_of (admit admitted n now_app now).0 cid app))
        (==→eq cid now_cid e) (own_step admitted cid app now_app now h)
]
