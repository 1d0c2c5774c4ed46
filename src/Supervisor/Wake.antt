-- ===== src/Supervisor/Wake.antt =====
-- The shell sleeps to `next_wake`: after a step nothing that is due is left undone
-- (kernel/supervisor/core/drive.rs).
mod Peers
use mathlib.Core.Option.{some-injective}
use citadel_agent.Prelude.{
  ℕ, ◌≤◌, ◌<◌, ◌≡◌, refl, subst, inl, inr, true, none, ◌∙◌, some, min, sym, Option-cases, not, ◌&&◌,
  List, [], ◌∷◌, ◌++◌, arith, Bool-cases, All, All-append, leb, unwrap_or,
}
use citadel_agent.Time.{u64_max}
use citadel_agent.Supervisor.Types.{Millis, Input, after}
use citadel_agent.Supervisor.Policy.{SupervisorPolicy}
use citadel_agent.Supervisor.Core.State.{Core, is_up}
use citadel_agent.Supervisor.Core.Drive.{
  drive, drive_probe, drive_peers, next_wake, minimum, probe_wakes, peer_wakes,
}
use citadel_agent.Supervisor.Core.Step.{handle, step, time_of, is_ended}
use citadel_agent.Supervisor.Frame.{is_active, drive-active, drive-idle, handle-Keeps}
use Peers.{IsPaced, Later, drive_peers-Later, after-lt}

minimum-Later :
    (now : Millis) (ts : List Millis) (t : Millis)
    → All (λ u. now < u) ts
    → minimum ts ≡ some t
    → now < t
minimum-Later now [] t a e = absurd (cc)
minimum-Later now (u ∷ us) t a e = elim (Option-cases (minimum us)) [
  | inl empty ↦ rw (some-injective _ _ (rw empty at (sym e))) a.0
  | inr (v, least) ↦
      let below : now < v = minimum-Later now us v a.1 least in
      let chosen : t ≡ min u v = some-injective _ _ (rw least at (sym e)) in omega arith
]

drive_probe-Later :
    (c : Core) (now : Millis)
    → let p = (drive_probe c now).0.probe in All (λ u. now < u) (probe_wakes p.in_flight p.next_at)
unfolding drive_probe
drive_probe-Later c now = ground arith

drive-Later :
    (c : Core) (now t : Millis)
    → IsPaced c.policy
    → now < u64_max
    → c.now ≡ now
    → next_wake (drive c now).0 ≡ some t
    → now < t
unfolding next_wake drive_probe
drive-Later c now t paced small same h = elim (Bool-cases (is_active c)) [
  | inl e ↦
      minimum-Later now _ t
        (All-append _ _ _ (drive_probe-Later c now)
          (rw same (drive_peers-Later c.policy now c.peers c.rng paced small)))
        (rw (e, next_wake) at (subst (λ r. next_wake r.0 ≡ some t) (drive-active c now e) h))
  | inr e ↦
      absurd
        (cc (rw (e, next_wake) at (subst (λ r. next_wake r.0 ≡ some t) (drive-idle c now e) h)))
]

ended-next_wake : (c : Core) → is_ended c.link ≡ true → next_wake c ≡ none
unfolding next_wake
ended-next_wake c e = ground arith

-- After a step of a paced policy, before the end of the clock, every time that the core asks to
-- be woken at lies after the step: what was due has been sent, so the shell does not spin.
pub step-next_wake :
    (c : Core) (i : Input) (t : Millis)
    → IsPaced c.policy
    → time_of i c.now < u64_max
    → next_wake (step c i).0 ≡ some t
    → time_of i c.now < t
unfolding step
step-next_wake c i t paced small h = elim (Bool-cases (is_ended c.link)) [
  | inl e ↦ absurd (cc (sym (ended-next_wake c e) ∙ (rw e at h)))
  | inr e ↦
      let d = record c { now = time_of i c.now } in
      let kept = handle-Keeps d i (time_of i c.now) in
      drive-Later (handle d i (time_of i c.now)).0 (time_of i c.now) t
        (subst IsPaced (sym kept.policy) paced) small kept.now (rw e at h)
]
