-- ===== src/Reconnect/Delays.antt =====
-- The waits between two attempts (kernel/reconnect/policy.rs, `delay_before`, `after_failure`).
use native.Mathlib.Nat.{mul-le-mul_left}
use citadel_agent.Prelude.{
  ℕ, ◌+◌, ◌*◌, ◌≤◌, ◌<◌, min, ◌≡◌, ◌≢◌, sym, subst, Bool-cases, inl, inr, arith, ltb, lt→ltb,
  if◌then◌else◌, if_cases,
}
use citadel_agent.Time.{Duration, duration_max, saturating_add, saturating_suc, doublings}
use citadel_agent.Time.Doublings.{doublings-pos, doublings_mono}
use citadel_agent.Reconnect.Policy.{
  ReconnectPolicy, FailureKind, is_refused, transient, server_holds_session, out_of_time,
  retry_after, give_up, delay_before, limit, after_transient, after_failure,
}

scaled : (f k : ℕ) → 0 < k → f ≤ f * k
scaled f k h = let least : f * 1 ≤ f * k = mul-le-mul_left f h in omega arith

pub delay_before_bounds :
    (p : ReconnectPolicy) (n : ℕ)
    → (min p.first_delay p.max_delay ≤ delay_before p n) × (delay_before p n ≤ p.max_delay)
unfolding delay_before
delay_before_bounds p n =
    if_cases (λ d. (min p.first_delay p.max_delay ≤ d) × (d ≤ p.max_delay)) _ p.max_delay
      (min (p.first_delay * doublings n) p.max_delay) (omega arith, omega arith)
      (omega (arith, scaled p.first_delay (doublings n) (doublings-pos n)), omega arith)

retry_after-inj : (a b : Duration) → retry_after a ≡ retry_after b → a ≡ b
retry_after-inj a b e = cc

retried :
    (p : ReconnectPolicy) (attempt : ℕ) (elapsed wait : Duration) (kind : FailureKind)
    → after_transient p attempt elapsed kind ≡ retry_after wait
    → (wait ≡ delay_before p (saturating_suc attempt))
      × (saturating_add elapsed wait ≤ limit p kind)
unfolding after_transient
retried p attempt elapsed wait kind h =
    elim (Bool-cases
      (ltb (limit p kind) (saturating_add elapsed (delay_before p (saturating_suc attempt))))) [
        | inl e ↦ absurd (over (rw (e, after_transient) at h))
        | inr e ↦
            let same = retry_after-inj _ _ (rw (e, after_transient) at h) in
            (sym same, subst (λ d. saturating_add elapsed d ≤ limit p kind) same (ground arith))
      ]
  where
    over : give_up out_of_time ≡ retry_after wait → ⊥
    over e = cc

grows :
    (delay later most : Duration)
    → delay ≤ later
    → (if ltb duration_max delay then most else min delay most)
      ≤ (if ltb duration_max later then most else min later most)
grows delay later most h = elim (Bool-cases (ltb duration_max delay)) [
  | inl e ↦ rw (e, lt→ltb duration_max later (ground arith)) (omega arith)
  | inr e ↦ rw e (
      if_cases (λ d. min delay most ≤ d) (ltb duration_max later) most (min later most)
        (omega arith) (omega arith))
]

-- What a retry says of the failure before it.
pub record IsRetry (p : ReconnectPolicy) (attempt : ℕ) (elapsed wait : Duration)
    (kind : FailureKind) : Type 0 where
  pub not_refused : kind ≢ is_refused
  pub next : wait ≡ delay_before p (saturating_suc attempt)
  pub in_time : saturating_add elapsed wait ≤ limit p kind
  pub at_least : min p.first_delay p.max_delay ≤ wait
  pub at_most : wait ≤ p.max_delay

after_transient-IsRetry :
    (p : ReconnectPolicy) (attempt : ℕ) (elapsed wait : Duration) (kind : FailureKind)
    → kind ≢ is_refused
    → after_transient p attempt elapsed kind ≡ retry_after wait
    → IsRetry p attempt elapsed wait kind
after_transient-IsRetry p attempt elapsed wait kind n h =
    let (next, in_time) = retried p attempt elapsed wait kind h in
    let (least, most) = delay_before_bounds p (saturating_suc attempt) in
    record {
      not_refused = n;
      next = next;
      in_time = in_time;
      at_least = subst (λ d. min p.first_delay p.max_delay ≤ d) (sym next) least;
      at_most = subst (λ d. d ≤ p.max_delay) (sym next) most;
    }

-- A retry follows a failure that is no refusal: its wait is the one before the next attempt, no
-- shorter than the first wait or the longest, whichever is less, no longer than the longest, and
-- it ends within the limit for the failure.
pub after_failure-IsRetry :
    (p : ReconnectPolicy) (attempt : ℕ) (elapsed wait : Duration) (kind : FailureKind)
    → after_failure p attempt elapsed kind ≡ retry_after wait
    → IsRetry p attempt elapsed wait kind
unfolding after_failure
after_failure-IsRetry p attempt elapsed wait is_refused h = absurd (cc)
after_failure-IsRetry p attempt elapsed wait transient h =
    after_transient-IsRetry p attempt elapsed wait transient (λ e. cc) h
after_failure-IsRetry p attempt elapsed wait server_holds_session h =
    after_transient-IsRetry p attempt elapsed wait server_holds_session (λ e. cc) h

-- The wait before an attempt is no shorter than the first wait or the longest, whichever is less,
-- no longer than the longest, and no longer than the wait before the next attempt.
pub delay_before_mono :
    (p : ReconnectPolicy) (n : ℕ)
    → (min p.first_delay p.max_delay ≤ delay_before p n)
      × (delay_before p n ≤ delay_before p (n + 1))
      × (delay_before p (n + 1) ≤ p.max_delay)
unfolding delay_before
delay_before_mono p n = (
  (delay_before_bounds p n).0,
  grows (p.first_delay * doublings n) (p.first_delay * doublings (n + 1)) p.max_delay
      (mul-le-mul_left p.first_delay (doublings_mono n)),
  (delay_before_bounds p (n + 1)).1,
)
