-- ===== src/AppNet/Tests.antt =====
-- Requests against the rate limit, and the theorems at them.
use citadel_agent.Prelude.{ℕ, ◌≤◌, ◌≡◌, refl, List, [], ◌∷◌, arith}
use citadel_agent.Text.{Text, bytes}
use citadel_agent.AppNet.Rate.{RateLimiter, trim, retain, admit_app, admit}
use citadel_agent.AppNet.Window.{Request, admitted_times, count, admitted_times-bounded}

abbrev app : Text
app = bytes "notes"

abbrev asks : ℕ → Request
asks now = record { cid = 7; app = app; now_ms = now }

abbrev requests : List Request
requests = asks 0 ∷ asks 10 ∷ asks 59999 ∷ asks 60000 ∷ []

all_admitted : admitted_times 7 app [] requests ≡ 0 ∷ 10 ∷ 59999 ∷ 60000 ∷ []
unfolding admitted_times admit admit_app retain trim
all_admitted = refl

admitted_times-bounded_example : count 10 (admitted_times 7 app [] requests) ≤ 60
admitted_times-bounded_example =
    admitted_times-bounded requests 10 7 app
      (omega arith, (omega arith, (omega arith, (omega arith, tt))))

abbrev spent : RateLimiter
spent = (7, (app, 0 ∷ 10 ∷ []) ∷ []) ∷ []
