-- ===== src/Supervisor/Wake/Peers.antt =====
-- What the loop over the peers leaves to wait for.
use citadel_agent.Prelude.{
  ℕ, ◌≤◌, ◌<◌, ◌≡◌, refl, sym, ◌∙◌, false, Bool, true, List, [], ◌∷◌, arith, All,
}
use citadel_agent.Time.{u64_max, saturating_suc}
use citadel_agent.Supervisor.Types.{Millis, Cid, after}
use citadel_agent.Supervisor.Policy.{SupervisorPolicy}
use citadel_agent.Supervisor.Backoff.{Rng, delay}
use citadel_agent.Supervisor.Backoff.Bounds.{delay-pos}
use citadel_agent.Supervisor.Peer.{Peer, in_use, wanted}
use citadel_agent.Supervisor.Core.Drive.{
  dial_wanted, dial_due, drive_dial, upgrade_wanted, drive_upgrade, drive_peer, drive_peers,
  peer_wakes, then_some,
}

-- An upgrade backs off by a millisecond or more, and jitter is a fraction.
pub record IsPaced (policy : SupervisorPolicy) : Type 0 where
  pub initial : 1000000 ≤ policy.upgrade_backoff.initial
  pub capped : 1000000 ≤ policy.upgrade_backoff.max
  pub fraction : policy.jitter_permille ≤ 1000

abbrev pub Later : Millis → List Millis → Type 0
Later now = All (λ t. now < t)

pub after-lt : (now wait : ℕ) → now < u64_max → 1000000 ≤ wait → now < after now wait
unfolding after
after-lt now wait h w = omega arith

drive_dial-waits :
    (policy : SupervisorPolicy) (now : Millis) (cid : Cid) (p : Peer)
    → let q = (drive_dial policy now cid p).0 in
      dial_wanted policy now q ≡ true → now < q.dial.next_at
unfolding drive_dial dial_due dial_wanted
drive_dial-waits policy now cid p h = ground arith

drive_upgrade-waits :
    (policy : SupervisorPolicy) (now : Millis) (rng : Rng) (cid : Cid) (p : Peer)
    → IsPaced policy
    → now < u64_max
    → let q = (drive_upgrade policy now rng cid p).0 in
      upgrade_wanted now q ≡ true → now < q.upgrade.next_at
unfolding drive_upgrade
drive_upgrade-waits policy now rng cid p paced small h =
    let attempts : ℕ = saturating_suc p.upgrade.attempts in
    let wait : ℕ = (delay rng policy.upgrade_backoff attempts policy.jitter_permille).0 in
    ground (
      arith,
      after-lt now wait,
      delay-pos rng policy.upgrade_backoff attempts policy.jitter_permille paced.fraction
          paced.initial paced.capped,
    )

drive_upgrade-dial :
    (policy : SupervisorPolicy) (now : Millis) (rng : Rng) (cid : Cid) (p : Peer)
    → let q = (drive_upgrade policy now rng cid p).0 in
      (dial_wanted policy now q ≡ dial_wanted policy now p) × (q.dial ≡ p.dial)
unfolding drive_upgrade dial_wanted wanted in_use
drive_upgrade-dial policy now rng cid p = ground arith

then_some-Later :
    (now : Millis) (b : Bool) (t : Millis) (ts : List Millis)
    → (b ≡ true → now < t)
    → Later now ts
    → Later now (then_some b t ts)
then_some-Later now true t ts h l = (h refl, l)
then_some-Later now false t ts h l = l

-- Nothing that the peers wait for is due once the loop has been over them.
pub drive_peers-Later :
    (policy : SupervisorPolicy) (now : Millis) (ps : List (Cid × Peer)) (rng : Rng)
    → IsPaced policy
    → now < u64_max
    → Later now (peer_wakes policy now (drive_peers policy now rng ps).0)
unfolding drive_peers peer_wakes drive_peer
drive_peers-Later policy now [] rng paced small = tt
drive_peers-Later policy now ((cid, p) ∷ ps) rng paced small =
    let q : Peer = (drive_dial policy now cid p).0 in
    let same = drive_upgrade-dial policy now rng cid q in
    then_some-Later now _ _ _ (λ h. rw same.1 (drive_dial-waits policy now cid p (sym same.0 ∙ h)))
      (then_some-Later now _ _ _ (drive_upgrade-waits policy now rng cid q paced small)
        (drive_peers-Later policy now ps _ paced small))
