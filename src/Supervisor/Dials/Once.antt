-- ===== src/Supervisor/Dials/Once.antt =====
-- When the core dials a peer, and how often (kernel/supervisor/core, `Core::step`).
use citadel_agent.Prelude.{
  ℕ, ◌≤◌, ◌≡◌, refl, true, false, ◌&&◌, List, [], ◌∷◌, ◌++◌, arith, inl, inr, Bool-cases, All,
  if◌then◌else◌, ◌⊎◌,
}
use citadel_agent.Supervisor.Types.{Cid, Millis, Input}
use citadel_agent.Supervisor.PeerMap.{IsSorted}
use citadel_agent.Supervisor.Core.State.{Core}
use citadel_agent.Supervisor.Core.Drive.{drive, drive_peers, drive_probe}
use citadel_agent.Supervisor.Core.Step.{step, run, is_ended, time_of}
use citadel_agent.Supervisor.Frame.{
  handled, step-live, step-ended, is_active, drive-active, drive-idle,
}
use citadel_agent.Supervisor.Order.{handle-IsSorted, step-IsSorted}
use citadel_agent.Supervisor.Dials.{dials, dials-append, dialing, answers}
use citadel_agent.Supervisor.Dials.Loop.{due, drive_peers-dials, drive_peers-dialing, dialing-due}
use citadel_agent.Supervisor.Dials.Handlers.{handle-dialing, handle-dials}

drive_probe-dials : (c : Core) (now : Millis) (k : Cid) → dials k (drive_probe c now).1 ≡ 0
unfolding drive_probe dials
drive_probe-dials c now k = ground arith

-- The dials of one drive, and whether one is out after it.
drive-dials :
    (c : Core) (now : Millis) (k : Cid)
    → IsSorted c.peers
    → dials k (drive c now).1 ≡ (if is_active c && due c.policy now k c.peers then 1 else 0)
drive-dials c now k s = elim (Bool-cases (is_active c)) [
  | inl e ↦
      rw (drive-active c now e, e)
        (omega (
          arith,
          dials-append k (drive_probe c now).1 (drive_peers c.policy now c.rng c.peers).1,
          drive_probe-dials c now k,
          drive_peers-dials c.policy now k c.peers c.rng s,
        ))
  | inr e ↦ rw (drive-idle c now e, e) (unfold dials in refl)
]

drive-dialing :
    (c : Core) (now : Millis) (k : Cid)
    → dialing k (drive c now).0.peers
      ≡ (if is_active c && due c.policy now k c.peers then true else dialing k c.peers)
drive-dialing c now k = elim (Bool-cases (is_active c)) [
  | inl e ↦ rw (drive-active c now e, e) (drive_peers-dialing c.policy now k c.peers c.rng)
  | inr e ↦ rw (drive-idle c now e, e) refl
]

handled-dials :
    (c : Core) (i : Input) (k : Cid)
    → IsSorted c.peers
    → let now = time_of i c.now in
      let d = (handled c i).0 in
      let n = dials k ((handled c i).1 ++ (drive d now).1) in
      (n ≡ 0) ⊎ ((n ≡ 1) × (dialing k (drive d now).0.peers ≡ true))
handled-dials c i k s =
    let now : ℕ = time_of i c.now in
    let d : Core = (handled c i).0 in
    ground (
      arith,
      dials-append k (handled c i).1 (drive d now).1,
      handle-dials (record c { now = now }) i now k,
      drive-dials d now k (handle-IsSorted (record c { now = now }) i now s),
      drive-dialing d now k,
    )

handled-dialing :
    (c : Core) (i : Input) (k : Cid)
    → IsSorted c.peers
    → answers k i ≡ false
    → dialing k c.peers ≡ true
    → let now = time_of i c.now in
      let d = (handled c i).0 in
      (dials k ((handled c i).1 ++ (drive d now).1) ≡ 0) × (dialing k (drive d now).0.peers ≡ true)
handled-dialing c i k s a h =
    let now : ℕ = time_of i c.now in
    let d : Core = (handled c i).0 in
    ground (
      arith,
      dials-append k (handled c i).1 (drive d now).1,
      handle-dials (record c { now = now }) i now k,
      drive-dials d now k (handle-IsSorted (record c { now = now }) i now s),
      drive-dialing d now k,
      dialing-due d.policy now k d.peers (handle-dialing (record c { now = now }) i now k a h),
      handle-dialing (record c { now = now }) i now k a h,
    )

-- A step dials `k` at most once, and then a dial of `k` is out.
pub step-dials :
    (c : Core) (i : Input) (k : Cid)
    → IsSorted c.peers
    → (dials k (step c i).1 ≡ 0)
      ⊎ ((dials k (step c i).1 ≡ 1) × (dialing k (step c i).0.peers ≡ true))
step-dials c i k s = elim (Bool-cases (is_ended c.link)) [
  | inl e ↦ rw (step-ended c i e) (inl (unfold dials in refl))
  | inr e ↦ rw (step-live c i e) (handled-dials c i k s)
]

-- While a dial of `k` is out, a step on an input that is no answer does not dial it and leaves it.
pub step-dialing :
    (c : Core) (i : Input) (k : Cid)
    → IsSorted c.peers
    → answers k i ≡ false
    → dialing k c.peers ≡ true
    → (dials k (step c i).1 ≡ 0) × (dialing k (step c i).0.peers ≡ true)
step-dialing c i k s a h = elim (Bool-cases (is_ended c.link)) [
  | inl e ↦ rw (step-ended c i e) (unfold dials in refl, h)
  | inr e ↦ rw (step-live c i e) (handled-dialing c i k s a h)
]

run-dialing :
    (is : List Input) (c : Core) (k : Cid)
    → IsSorted c.peers
    → All (λ i. answers k i ≡ false) is
    → dialing k c.peers ≡ true
    → dials k (run c is).1 ≡ 0
unfolding run
run-dialing [] c k s a h = unfold dials in refl
run-dialing (i ∷ is) c k s a h =
    let one = step-dialing c i k s a.0 h in
    omega (
      arith,
      dials-append k (step c i).1 (run (step c i).0 is).1,
      one.0,
      run-dialing is (step c i).0 k (step-IsSorted c i s) a.1 one.1,
    )

-- However long the run: with no word of the peer or of the link, the peer is dialled at most once.
pub run-dials :
    (is : List Input) (c : Core) (k : Cid)
    → IsSorted c.peers
    → All (λ i. answers k i ≡ false) is
    → dials k (run c is).1 ≤ 1
unfolding run
run-dials [] c k s a = unfold dials in omega arith
run-dials (i ∷ is) c k s a =
    let split = dials-append k (step c i).1 (run (step c i).0 is).1 in
    let sorted = step-IsSorted c i s in
    elim (step-dials c i k s) [
      | inl quiet ↦ omega (arith, split, run-dials is (step c i).0 k sorted a.1)
      | inr dialled ↦ omega (arith, split, run-dialing is (step c i).0 k sorted a.1 dialled.1)
    ]
