-- ===== src/AppNet/Window.antt =====
-- At most sixty requests of an app are admitted in any minute (kernel/apps/net/rate.rs).
use citadel_agent.Prelude.{
  ℕ, suc, ◌+◌, ◌-◌, ◌≤◌, ◌<◌, ◌≡◌, refl, Bool, true, false, ◌&&◌, List, [], ◌∷◌, ◌++◌, leb, ltb,
  ◌==◌, if◌then◌else◌, if_cases, length, length-append, ltb→lt, Bool-cases, inl, inr, arith,
}
use citadel_agent.Text.{Text, ◌=ₜ◌}
use citadel_agent.NetPolicy.Limits.{max_requests_per_minute}
use citadel_agent.AppNet.Rate.{RateLimiter, window_ms, trim, admit}
use citadel_agent.AppNet.Retain.{length-trim}
use citadel_agent.AppNet.Admit.{
  IsWindowStep, untouched, trimmed, counted, IsLimiter, times_of, admit-IsLimiter, admit_step,
}

pub record Request : Type 0 where
  pub cid : ℕ
  pub app : Text
  pub now_ms : ℕ

-- The clock does not go back.
abbrev pub IsInOrder : ℕ → List Request → Type 0
IsInOrder now [] = Unit
IsInOrder now (r ∷ rs) = (now ≤ r.now_ms) × IsInOrder r.now_ms rs

-- When the requests of one app of one account were admitted.
unfoldable pub admitted_times : ℕ → Text → RateLimiter → List Request → List ℕ
admitted_times cid app limiter [] = []
admitted_times cid app limiter (r ∷ rs) =
    let (next, allowed) = admit limiter r.cid r.app r.now_ms in
    let later = admitted_times cid app next rs in
    if allowed && (cid == r.cid && app =ₜ r.app) then r.now_ms ∷ later else later

-- How many of the times lie in the minute from `start`.
abbrev pub within : ℕ → ℕ → Bool
within start t = leb start t && ltb t (start + window_ms)

abbrev pub count : ℕ → List ℕ → ℕ
count start [] = 0
count start (t ∷ ts) = if within start t then count start ts + 1 else count start ts

count-le : (start : ℕ) (ts : List ℕ) → count start ts ≤ length ts
count-le start [] = omega arith
count-le start (t ∷ ts) =
    if_cases (λ n. n ≤ suc (length ts)) (within start t) (count start ts + 1) (count start ts)
      (omega (arith, count-le start ts)) (omega (arith, count-le start ts))

count-append :
    (start : ℕ) (ts us : List ℕ) → count start (ts ++ us) ≡ count start ts + count start us
count-append start [] us = omega arith
count-append start (t ∷ ts) us = elim (Bool-cases (within start t)) [
  | inl e ↦ rw e (omega (arith, count-append start ts us))
  | inr e ↦ rw e (count-append start ts us)
]

-- Only times from before the minute fall out while it lasts.
count-trim :
    (start now : ℕ) (ts : List ℕ)
    → now < start + window_ms
    → count start (trim now ts) ≡ count start ts
unfolding trim
count-trim start now [] l = refl
count-trim start now (t ∷ ts) l = elim (Bool-cases (leb window_ms (now - t))) [
  | inr e ↦ rw e refl
  | inl e ↦ rw (e, before e) (count-trim start now ts l)
]
  where
    before : leb window_ms (now - t) ≡ true → within start t ≡ false
    before e = ground arith

-- Nothing that is admitted after the minute counts in it.
count_after :
    (rs : List Request) (start now cid : ℕ) (app : Text) (limiter : RateLimiter)
    → start + window_ms ≤ now
    → IsInOrder now rs
    → count start (admitted_times cid app limiter rs) ≡ 0
unfolding admitted_times
count_after [] start now cid app limiter l o = refl
count_after (r ∷ rs) start now cid app limiter l o =
    let next = (admit limiter r.cid r.app r.now_ms).0 in
    let rest = count_after rs start r.now_ms cid app next (omega (arith, o.0)) o.1 in
    if_cases (λ ts. count start ts ≡ 0)
      ((admit limiter r.cid r.app r.now_ms).1 && (cid == r.cid && app =ₜ r.app))
      (r.now_ms ∷ admitted_times cid app next rs) (admitted_times cid app next rs)
      (rw (outside r.now_ms (omega (arith, o.0))) rest) rest
  where
    outside : (t : ℕ) → start + window_ms ≤ t → within start t ≡ false
    outside t m = ground arith

step_bounded :
    (now : ℕ) (old new : List ℕ) (b : Bool)
    → IsWindowStep now old b new
    → length old ≤ max_requests_per_minute
    → length new ≤ max_requests_per_minute
step_bounded now old _ _ untouched l = l
step_bounded now old _ _ trimmed l = omega (arith, length-trim old now)
step_bounded now old _ _ (counted room) l =
    omega (arith, length-append (trim now old) (now ∷ []), room)

-- A request in the minute moves from the log to the window or changes no count.
step_counts :
    (start now : ℕ) (old new rest : List ℕ) (b : Bool)
    → now < start + window_ms
    → IsWindowStep now old b new
    → count start new + count start rest ≤ max_requests_per_minute
    → count start old + count start (if b then now ∷ rest else rest) ≤ max_requests_per_minute
step_counts start now old _ rest _ l untouched h = h
step_counts start now old _ rest _ l trimmed h = omega (arith, count-trim start now old l, h)
step_counts start now old _ rest _ l (counted room) h = elim (Bool-cases (within start now)) [
  | inl e ↦
      let all = count-append start (trim now old) (now ∷ []) in
      let one : count start (now ∷ []) ≡ 1 = rw e (omega arith) in
      rw e (omega (arith, count-trim start now old l, all, one, h))
  | inr e ↦
      let all = count-append start (trim now old) (now ∷ []) in
      let nothing : count start (now ∷ []) ≡ 0 = rw e refl in
      rw e (omega (arith, count-trim start now old l, all, nothing, h))
]

window_bounded :
    (rs : List Request) (start now cid : ℕ) (app : Text) (limiter : RateLimiter)
    → IsLimiter limiter
    → IsInOrder now rs
    → length (times_of limiter cid app) ≤ max_requests_per_minute
    → count start (times_of limiter cid app) + count start (admitted_times cid app limiter rs)
      ≤ max_requests_per_minute
unfolding admitted_times
window_bounded [] start now cid app limiter v o l =
    omega (arith, count-le start (times_of limiter cid app), l)
window_bounded (r ∷ rs) start now cid app limiter v o l =
    let next = (admit limiter r.cid r.app r.now_ms).0 in
    let allowed = (admit limiter r.cid r.app r.now_ms).1 in
    let s = admit_step limiter cid r.cid app r.app r.now_ms v in
    elim (Bool-cases (ltb r.now_ms (start + window_ms))) [
      | inr e ↦
          let none_later =
            count_after (r ∷ rs) start r.now_ms cid app limiter (ground arith) (omega arith, o.1) in
          omega (arith, count-le start (times_of limiter cid app), l, none_later)
      | inl e ↦
          step_counts start r.now_ms (times_of limiter cid app) (times_of next cid app)
            (admitted_times cid app next rs) (allowed && (cid == r.cid && app =ₜ r.app))
            (ltb→lt _ _ e) s
            (window_bounded rs start r.now_ms cid app next
              (admit-IsLimiter limiter r.cid r.app r.now_ms v) o.1
              (step_bounded r.now_ms (times_of limiter cid app) (times_of next cid app) _ s l))
    ]

-- Whatever the requests of the apps of all accounts are, in any minute at most sixty of one app of
-- one account are admitted, if the clock does not go back.
pub admitted_times-bounded :
    (rs : List Request) (start cid : ℕ) (app : Text)
    → IsInOrder 0 rs
    → count start (admitted_times cid app [] rs) ≤ max_requests_per_minute
admitted_times-bounded rs start cid app o =
    omega (arith, window_bounded rs start 0 cid app [] tt o (omega arith))
