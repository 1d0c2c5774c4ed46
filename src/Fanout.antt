-- ===== src/Fanout.antt =====
-- The book-keeping of a fan-out, citadel-app-sdk/src/ihttp/fanout_plan.rs, over the type of a
-- whole response. `Refused` is citadel-app-sdk-types/src/refused.rs.
pub mod Targets
pub mod Parts
pub mod Life
mod Tests
use citadel_agent.Prelude.{
  ℕ, zero, suc, ◌+◌, min, Bool, true, false, not, ◌&&◌, ◌||◌, Option, none, some, List, [], ◌∷◌,
  ◌++◌, map, ltb, leb, ◌==◌, if◌then◌else◌, length, all, is_some,
}
use citadel_agent.Text.{Text, bytes}
use citadel_agent.Supervisor.PeerMap.{insert}

pub data Refused : Type 0 where
  ungranted : Refused
  unavailable : Text → Refused
  limit : Text → Refused
  policy : Text → Refused
  remote : ℕ → Refused

pub data Outcome (R : Type 0) : Type 0 where
  ok : R → Outcome R
  failed : Refused → Outcome R
  skipped : Outcome R

pub record FanoutLimits : Type 0 where
  pub max_concurrency : ℕ
  pub per_call_ms : ℕ
  pub budget_ms : ℕ
  pub max_total_bytes : ℕ

abbrev pub limit_per_call_ms : Text
limit_per_call_ms = bytes "fanout_per_call_ms"

abbrev pub limit_total_bytes : Text
limit_total_bytes = bytes "fanout_bytes"

abbrev pub policy_zero_limit : Text
policy_zero_limit = bytes "fanout_zero_limit"

-- `waiting` is the deque from its front, `running` the map in the order of its keys.
pub record Plan (R : Type 0) : Type 0 where
  pub limits : FanoutLimits
  pub waiting : List ℕ
  pub running : List (ℕ × ℕ)
  pub settled : List (Option (Outcome R))
  pub elapsed_ms : ℕ
  pub arrived : ℕ

abbrev pub u32_max : ℕ
u32_max = 4294967295

abbrev pub u64_max : ℕ
u64_max = 18446744073709551615

abbrev pub range : ℕ → ℕ → List ℕ
range from zero = []
range from (suc n) = from ∷ range (suc from) n

abbrev pub replicate {ℓ} : {A : Type ℓ} → ℕ → A → List A
replicate zero a = []
replicate (suc n) a = a ∷ replicate n a

-- `slice.get(i)`.
abbrev pub get_elem? {ℓ} : {A : Type ℓ} → List A → ℕ → Option A
get_elem? [] i = none
get_elem? (x ∷ xs) zero = some x
get_elem? (x ∷ xs) (suc i) = get_elem? xs i

-- `slice[i] = a`; out of range it changes nothing, where the source panics.
abbrev pub set_elem {ℓ} : {A : Type ℓ} → ℕ → A → List A → List A
set_elem i a [] = []
set_elem zero a (x ∷ xs) = a ∷ xs
set_elem (suc i) a (x ∷ xs) = x ∷ set_elem i a xs

abbrev pub contains_key {ℓ} : {V : Type ℓ} → ℕ → List (ℕ × V) → Bool
contains_key k [] = false
contains_key k ((j, v) ∷ m) = (k == j) || contains_key k m

abbrev pub remove {ℓ} : {V : Type ℓ} → ℕ → List (ℕ × V) → List (ℕ × V)
remove k [] = []
remove k ((j, v) ∷ m) = if k == j then remove k m else (j, v) ∷ remove k m

abbrev pub keys {ℓ} : {V : Type ℓ} → List (ℕ × V) → List ℕ
keys [] = []
keys ((j, v) ∷ m) = j ∷ keys m

-- `waiting.retain(|w| *w != i)`.
abbrev pub retain_other : ℕ → List ℕ → List ℕ
retain_other i [] = []
retain_other i (w ∷ ws) = if i == w then retain_other i ws else w ∷ retain_other i ws

abbrev pub zero_limit : FanoutLimits → Bool
zero_limit l =
    (l.max_concurrency == 0)
    || (l.per_call_ms == 0)
    || (l.budget_ms == 0)
    || (l.max_total_bytes == 0)

abbrev pub first_slot : {R : Type 0} → Bool → Option (Outcome R)
first_slot refused = if refused then some (failed (policy policy_zero_limit)) else none

unfoldable pub new : {R : Type 0} → ℕ → FanoutLimits → Plan R
new targets limits =
    let refused = zero_limit limits in
    record {
      limits = limits;
      waiting = if refused then [] else range 0 targets;
      running = [];
      settled = replicate targets (first_slot refused);
      elapsed_ms = 0;
      arrived = 0;
    }

-- The loop of `admit`: what still waits, what runs, and what it started.
abbrev pub Admitted : Type 0
Admitted = List ℕ × (List (ℕ × ℕ) × List ℕ)

abbrev pub started : ℕ → Admitted → Admitted
started i (ws, (m, s)) = (ws, (m, i ∷ s))

abbrev pub fill : ℕ → List ℕ → List (ℕ × ℕ) → Admitted
fill cap [] m = ([], (m, []))
fill cap (i ∷ ws) m =
    let more = fill cap ws (insert i 0 m) in
    if ltb (length m) cap then started i more else (i ∷ ws, (m, []))

unfoldable pub admit : {R : Type 0} → Plan R → Plan R × List ℕ
admit p =
    let a = fill p.limits.max_concurrency p.waiting p.running in
    (record p { waiting = a.0; running = a.1.0 }, a.1.1)

unfoldable pub count_bytes : {R : Type 0} → Plan R → ℕ → ℕ → Plan R × Option Refused
count_bytes p i n =
    let total = min (p.arrived + n) u64_max in
    (
      record p { arrived = total },
      if ltb p.limits.max_total_bytes total && contains_key i p.running
          then some (limit limit_total_bytes)
          else none,
    )

abbrev pub settle_slot :
    {R : Type 0} → Plan R → ℕ → Outcome R → Option (Option (Outcome R)) → Plan R × Bool
settle_slot p i outcome none = (p, false)
settle_slot p i outcome (some (some o)) = (p, false)
settle_slot p i outcome (some none) = (
  record p {
    settled = set_elem i (some outcome) p.settled;
    running = remove i p.running;
    waiting = retain_other i p.waiting;
  },
  true,
)

unfoldable pub settle_target : {R : Type 0} → Plan R → ℕ → Outcome R → Plan R × Bool
settle_target p i outcome = settle_slot p i outcome (get_elem? p.settled i)

abbrev pub skip_all : {R : Type 0} → List ℕ → List (Option (Outcome R)) → List (Option (Outcome R))
skip_all [] s = s
skip_all (i ∷ ws) s = skip_all ws (set_elem i (some skipped) s)

unfoldable pub stop_all : {R : Type 0} → Plan R → Plan R × List (ℕ × Outcome R)
stop_all p = (
  record p { waiting = []; settled = skip_all p.waiting p.settled },
  map (λ i. (i, skipped)) (keys p.running),
)

abbrev pub run_on : ℕ → List (ℕ × ℕ) → List (ℕ × ℕ)
run_on ms [] = []
run_on ms ((i, ran) ∷ m) = (i, min (ran + ms) u32_max) ∷ run_on ms m

abbrev pub late : ℕ → List (ℕ × ℕ) → List ℕ
late per_call [] = []
late per_call ((i, ran) ∷ m) = if leb per_call ran then i ∷ late per_call m else late per_call m

unfoldable pub elapse : {R : Type 0} → Plan R → ℕ → Plan R × List (ℕ × Outcome R)
unfolding stop_all
elapse p ms =
    let now = min (p.elapsed_ms + ms) u32_max in
    let ran = run_on ms p.running in
    if leb p.limits.budget_ms now then stop_all (record p { elapsed_ms = now }) else (
      record p { elapsed_ms = now; running = ran },
      map (λ i. (i, failed (limit limit_per_call_ms))) (late p.limits.per_call_ms ran),
    )

unfoldable pub is_done : {R : Type 0} → Plan R → Bool
is_done p = all is_some p.settled

abbrev pub taken : {R : Type 0} → Option (Outcome R) → Outcome R
taken none = skipped
taken (some o) = o

unfoldable pub outcomes : {R : Type 0} → Plan R → Plan R × List (Outcome R)
outcomes p = (record p { settled = map (λ o. none) p.settled }, map taken p.settled)

-- The calls that the fan-out makes before it reads the outcomes.
pub data Call (R : Type 0) : Type 0 where
  starts : Call R
  arrives : ℕ → ℕ → Call R
  settles : ℕ → Outcome R → Call R
  passes : ℕ → Call R
  stops : Call R

unfoldable pub after : {R : Type 0} → Plan R → Call R → Plan R
after p starts = (admit p).0
after p (arrives i n) = (count_bytes p i n).0
after p (settles i o) = (settle_target p i o).0
after p (passes ms) = (elapse p ms).0
after p stops = (stop_all p).0

unfoldable pub run : {R : Type 0} → Plan R → List (Call R) → Plan R
run p [] = p
run p (c ∷ cs) = run (after p c) cs
