-- ===== src/Reconnect/Ends.antt =====
-- A reconnect run comes to an end (kernel/reconnect/task.rs, `run`; kernel/reconnect/policy.rs,
-- `after_failure`).
use native.Mathlib.Nat.{suc-mul, zero-mul}
use citadel_agent.Prelude.{
  ◌+◌, ◌*◌, ◌≤◌, ◌<◌, min, ◌≡◌, ◌⊎◌, refl, subst, Option, none, some, List, [], ◌∷◌, length, All,
  inl, inr, arith, if_cases, ◌==◌,
}
use citadel_agent.Time.{Duration, duration_max, as_secs}
use citadel_agent.Reconnect.Policy.{
  ReconnectPolicy, FailureKind, is_refused, transient, server_holds_session, Next, retry_after,
  give_up, limit, for_keep_alive, after_failure,
}
use citadel_agent.Reconnect.Failure.{ErrorRegistry, classify}
use citadel_agent.Reconnect.Delays.{after_failure-IsRetry}
use citadel_agent.Reconnect.Run.{
  Attempt, ended_meanwhile, no_longer_wanted, needs_user, connected, connected_as_another, failed,
  Turn, RunEnd, Waiting, Progress, waits, ends, start, after_next, turn, run,
}

-- The shortest wait between two attempts.
abbrev pub least_wait : ReconnectPolicy → Duration
least_wait p = min p.first_delay p.max_delay

limit-le : (p : ReconnectPolicy) (kind : FailureKind) → limit p kind ≤ limit p server_holds_session
unfolding limit
limit-le p is_refused = omega arith
limit-le p transient = omega arith
limit-le p server_holds_session = omega arith

module _ (registry : ErrorRegistry) (sdk_keep_alive_check : Duration) (p : ReconnectPolicy) where
  -- The keep-alive changes no wait.
  least_wait-for_keep_alive :
      (keep_alive : Option Duration)
      → least_wait (for_keep_alive sdk_keep_alive_check p keep_alive) ≡ least_wait p
  unfolding for_keep_alive
  least_wait-for_keep_alive none = refl
  least_wait-for_keep_alive (some timeout) =
      if_cases (λ q. least_wait q ≡ least_wait p) (as_secs timeout == 0) _ _ refl refl

  -- How long after the drop an attempt may start under a keep-alive.
  abbrev pub latest : Option Duration → Duration
  latest keep_alive = limit (for_keep_alive sdk_keep_alive_check p keep_alive) server_holds_session

  -- The head of the loop after a failed turn.
  record IsPaced (w next : Waiting) (bound : Duration) : Type 0 where
    later : w.elapsed + w.delay ≤ next.elapsed
    waiting : least_wait p ≤ next.delay
    in_time : next.elapsed + next.delay ≤ bound

  waits-inj : (v w : Waiting) → Progress.waits v ≡ waits w → v ≡ w
  waits-inj v w e = cc

  ends≢waits : (e : RunEnd) (w : Waiting) → Progress.ends e ≡ waits w → ⊥
  ends≢waits e w h = cc

  retry-IsPaced :
      (w next : Waiting) (bound took : Duration) (keep_alive : Option Duration) (kind : FailureKind)
      → latest keep_alive ≤ bound
      → bound < duration_max
      → after_next w.attempt (w.elapsed + w.delay + took) (
          after_failure
            (for_keep_alive sdk_keep_alive_check p keep_alive)
            w.attempt
            (w.elapsed + w.delay + took)
            kind)
        ≡ waits next
      → IsPaced w next bound
  retry-IsPaced w next bound took keep_alive kind l small h =
      decided (after_failure q w.attempt (w.elapsed + w.delay + took) kind) refl h
    where
      q : ReconnectPolicy
      q = for_keep_alive sdk_keep_alive_check p keep_alive

      decided :
          (n : Next)
          → after_failure q w.attempt (w.elapsed + w.delay + took) kind ≡ n
          → after_next w.attempt (w.elapsed + w.delay + took) n ≡ waits next
          → IsPaced w next bound
      decided (give_up why) e f = absurd (ends≢waits _ next f)
      decided (retry_after wait) e f =
          let retry = after_failure-IsRetry q w.attempt (w.elapsed + w.delay + took) wait kind e in
          let same = waits-inj _ next f in
          let in_time = retry.in_time in
          let top = limit-le q kind in
          subst (λ n. IsPaced w n bound) same
            (record {
              later = omega arith;
              waiting = subst (λ d. d ≤ wait) (least_wait-for_keep_alive keep_alive) retry.at_least;
              in_time = omega arith;
            })

  turn-IsPaced :
      (w next : Waiting) (bound took : Duration) (keep_alive : Option Duration)
      (attempt : Attempt registry)
      → latest keep_alive ≤ bound
      → bound < duration_max
      → turn registry sdk_keep_alive_check p w took keep_alive attempt ≡ waits next
      → IsPaced w next bound
  unfolding turn
  turn-IsPaced w next bound took keep_alive ended_meanwhile l small h = absurd (ends≢waits _ next h)
  turn-IsPaced w next bound took keep_alive no_longer_wanted l small h =
      absurd (ends≢waits _ next h)
  turn-IsPaced w next bound took keep_alive needs_user l small h = absurd (ends≢waits _ next h)
  turn-IsPaced w next bound took keep_alive connected l small h = absurd (ends≢waits _ next h)
  turn-IsPaced w next bound took keep_alive connected_as_another l small h =
      absurd (ends≢waits _ next h)
  turn-IsPaced w next bound took keep_alive (failed code message) l small h =
      retry-IsPaced w next bound took keep_alive (classify registry code message) l small h

  Progress-cases : (r : Progress) → ((w : Waiting) × (r ≡ waits w)) ⊎ ((e : RunEnd) × (r ≡ ends e))
  Progress-cases (waits w) = inl (w, refl)
  Progress-cases (ends e) = inr (e, refl)

  run-paced :
      (turns : List (Turn registry)) (w last : Waiting) (bound : Duration)
      → bound < duration_max
      → least_wait p ≤ w.delay
      → w.elapsed + w.delay ≤ bound
      → All (λ t. latest t.keep_alive_timeout ≤ bound) turns
      → run registry sdk_keep_alive_check p w turns ≡ waits last
      → w.elapsed + length turns * least_wait p + least_wait p ≤ bound
  unfolding run
  run-paced [] w last bound small waiting in_time a h = omega arith
  run-paced (t ∷ ts) w last bound small waiting in_time a h =
      elim (Progress-cases
        (turn registry sdk_keep_alive_check p w t.took t.keep_alive_timeout t.attempt)) [
          | inr (e, f) ↦ absurd (ends≢waits e last (rw (f, run) at h))
          | inl (next, f) ↦
              let paced =
                turn-IsPaced w next bound t.took t.keep_alive_timeout t.attempt a.0 small f in
              let later = paced.later in
              let rest =
                run-paced ts next last bound small paced.waiting paced.in_time a.1
                  (rw (f, run) at h) in
              rw (suc-mul (length ts) (least_wait p)) (omega (arith, rest))
        ]

  run-bounded :
      (turns : List (Turn registry)) (last : Waiting) (bound : Duration)
      → bound < duration_max
      → All (λ t. latest t.keep_alive_timeout ≤ bound) turns
      → run registry sdk_keep_alive_check p (start p) turns ≡ waits last
      → length turns * least_wait p ≤ bound
  unfolding run
  run-bounded [] last bound small a h = rw (zero-mul (least_wait p)) (omega arith)
  run-bounded (t ∷ ts) last bound small a h =
      elim (Progress-cases
        (turn registry sdk_keep_alive_check p (start p) t.took t.keep_alive_timeout t.attempt)) [
          | inr (e, f) ↦ absurd (ends≢waits e last (rw (f, run) at h))
          | inl (next, f) ↦
              let paced =
                turn-IsPaced (start p) next bound t.took t.keep_alive_timeout t.attempt a.0 small
                  f in
              let rest =
                run-paced ts next last bound small paced.waiting paced.in_time a.1
                  (rw (f, run) at h) in
              rw (suc-mul (length ts) (least_wait p)) (omega (arith, rest))
        ]

  -- A run ends by itself: when the server fails every connect, after as many turns as the shorter
  -- of the first and the longest wait goes into the time the policy allows. The turns may be under
  -- any keep-alives whose limits are the bound at most, and the bound is a duration that does not
  -- saturate.
  pub run-ends :
      (turns : List (Turn registry)) (bound : Duration)
      → bound < duration_max
      → All (λ t. latest t.keep_alive_timeout ≤ bound) turns
      → bound < length turns * least_wait p
      → (e : RunEnd) × (run registry sdk_keep_alive_check p (start p) turns ≡ ends e)
  run-ends turns bound small a long =
      elim (Progress-cases (run registry sdk_keep_alive_check p (start p) turns)) [
        | inr ended ↦ ended
        | inl (last, f) ↦ absurd (omega (arith, run-bounded turns last bound small a f))
      ]
