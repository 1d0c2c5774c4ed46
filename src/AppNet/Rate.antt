-- ===== src/AppNet/Rate.antt =====
-- kernel/apps/net/rate.rs: the requests that an account's app may make in a minute.
use citadel_agent.Prelude.{
  ℕ, ◌-◌, Bool, true, false, not, ◌&&◌, List, [], ◌∷◌, ◌++◌, leb, ◌==◌, if◌then◌else◌, length,
  is_some, unwrap_or,
}
use citadel_agent.Assoc.{get, set}
use citadel_agent.Text.{Text, ◌=ₜ◌}
use citadel_agent.NetPolicy.Limits.{max_requests_per_minute}

abbrev pub window_ms : ℕ
window_ms = 60000

abbrev pub max_apps_per_account : ℕ
max_apps_per_account = 16

abbrev pub Apps : Type 0
Apps = List (Text × List ℕ)

-- `HashMap<u64, HashMap<String, VecDeque<u64>>>`.
abbrev pub RateLimiter : Type 0
RateLimiter = List (ℕ × Apps)

-- The front of the window falls out.
unfoldable pub trim : ℕ → List ℕ → List ℕ
trim now [] = []
trim now (t ∷ ts) = let rest = trim now ts in if leb window_ms (now - t) then rest else t ∷ ts

abbrev pub keep : Text → List ℕ → Apps → Apps
keep app [] apps = apps
keep app (t ∷ ts) apps = (app, t ∷ ts) ∷ apps

unfoldable pub retain : ℕ → Apps → Apps
unfolding trim
retain now [] = []
retain now ((app, times) ∷ apps) = keep app (trim now times) (retain now apps)

-- The request against the windows that are left.
unfoldable pub admit_app : Apps → Text → ℕ → Apps × Bool
admit_app apps app now =
    let times = unwrap_or (get ◌=ₜ◌ app apps) [] in
    if not (is_some (get ◌=ₜ◌ app apps)) && leb max_apps_per_account (length apps)
    then (apps, false)
    else if leb max_requests_per_minute (length times)
    then (set ◌=ₜ◌ app times apps, false)
    else (set ◌=ₜ◌ app (times ++ now ∷ []) apps, true)

unfoldable pub admit : RateLimiter → ℕ → Text → ℕ → RateLimiter × Bool
unfolding admit_app retain
admit admitted cid app now =
    let apps = unwrap_or (get ◌==◌ cid admitted) [] in
    let (apps_after, allowed) = admit_app (retain now apps) app now in
    (set ◌==◌ cid apps_after admitted, allowed)
