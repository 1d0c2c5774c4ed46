-- ===== src/AppNet/Caps.antt =====
-- How many apps of an account have a window (kernel/apps/net/rate.rs, `admit`).
use citadel_agent.Prelude.{
  ℕ, ◌≤◌, ◌<◌, ◌≡◌, Bool, true, false, not, ◌&&◌, List, [], ◌∷◌, ◌++◌, leb, ◌==◌, if◌then◌else◌,
  if_known, length, is_some, Bool-cases, Option-cases, inl, inr, arith,
}
use citadel_agent.Assoc.{get, set, length-set, length-set-some}
use citadel_agent.Text.{Text, ◌=ₜ◌}
use citadel_agent.Text.Laws.{=ₜ→eq, =ₜ_refl}
use citadel_agent.NetPolicy.Limits.{max_requests_per_minute}
use citadel_agent.AppNet.Rate.{Apps, RateLimiter, max_apps_per_account, retain, admit_app, admit}
use citadel_agent.AppNet.Retain.{times_in, length-retain}
use citadel_agent.AppNet.Admit.{apps_of}

-- No account has windows for more apps than it may.
abbrev pub IsCapped : RateLimiter → Type 0
IsCapped [] = Unit
IsCapped ((cid, apps) ∷ accounts) = (length apps ≤ max_apps_per_account) × IsCapped accounts

-- A window that is set has room, or its app has one.
length-set_le :
    (apps : Apps) (app : Text) (times : List ℕ)
    → length apps ≤ max_apps_per_account
    → (not (is_some (get ◌=ₜ◌ app apps)) && leb max_apps_per_account (length apps)) ≡ false
    → length (set ◌=ₜ◌ app times apps) ≤ max_apps_per_account
length-set_le apps app times l h = elim (Option-cases (get ◌=ₜ◌ app apps)) [
  | inr (ts, e) ↦ omega (arith, length-set-some ◌=ₜ◌ =ₜ→eq =ₜ_refl app times ts apps e, l)
  | inl e ↦
      let room = below (rw e at h) in
      omega (arith, length-set ◌=ₜ◌ =ₜ→eq =ₜ_refl app times apps, room)
]
  where
    below : leb max_apps_per_account (length apps) ≡ false → length apps < max_apps_per_account
    below f = ground arith

admit_app-le :
    (apps : Apps) (app : Text) (now : ℕ)
    → length apps ≤ max_apps_per_account
    → length (admit_app apps app now).0 ≤ max_apps_per_account
unfolding admit_app
admit_app-le apps app now l =
    let Fine : Apps × Bool → Type 0 = λ r. length r.0 ≤ max_apps_per_account in
    let times = times_in app apps in
    let full = leb max_requests_per_minute (length times) in
    if_known Fine (not (is_some (get ◌=ₜ◌ app apps)) && leb max_apps_per_account (length apps))
      (apps, false)
      (if full
        then (set ◌=ₜ◌ app times apps, false)
        else (set ◌=ₜ◌ app (times ++ now ∷ []) apps, true))
      (λ e. l)
      (λ e.
        if_known Fine full (set ◌=ₜ◌ app times apps, false)
          (set ◌=ₜ◌ app (times ++ now ∷ []) apps, true) (λ f. length-set_le apps app times l e)
          (λ f. length-set_le apps app (times ++ now ∷ []) l e))

apps_of-le :
    (admitted : RateLimiter) (cid : ℕ)
    → IsCapped admitted
    → length (apps_of cid admitted) ≤ max_apps_per_account
apps_of-le [] cid h = omega arith
apps_of-le ((c, apps) ∷ accounts) cid h = elim (Bool-cases (cid == c)) [
  | inl e ↦ rw e h.0
  | inr e ↦ rw e (apps_of-le accounts cid h.1)
]

set-IsCapped :
    (admitted : RateLimiter) (cid : ℕ) (apps : Apps)
    → length apps ≤ max_apps_per_account
    → IsCapped admitted
    → IsCapped (set ◌==◌ cid apps admitted)
set-IsCapped [] cid apps d h = (d, tt)
set-IsCapped ((c, old) ∷ accounts) cid apps d h = elim (Bool-cases (cid == c)) [
  | inl e ↦ rw e (d, h.1)
  | inr e ↦ rw e (h.0, set-IsCapped accounts cid apps d h.1)
]

-- If no account has windows for more than sixteen apps, none has after a request, whether the
-- request is admitted or refused.
pub admit-IsCapped :
    (admitted : RateLimiter) (cid : ℕ) (app : Text) (now : ℕ)
    → IsCapped admitted
    → IsCapped (admit admitted cid app now).0
unfolding admit
admit-IsCapped admitted cid app now h =
    let apps = apps_of cid admitted in
    set-IsCapped admitted cid (admit_app (retain now apps) app now).0
      (admit_app-le (retain now apps) app now
        (omega (arith, length-retain apps now, apps_of-le admitted cid h)))
      h
