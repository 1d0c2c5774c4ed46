-- ===== src/Supervisor/Healing/Drives.antt =====
-- What the loop over the peers and the probe report of the link: nothing.
use citadel_agent.Prelude.{
  ◌≡◌, refl, List, [], ◌∷◌, arith, All-append, not, ◌&&◌, inl, inr, Bool-cases,
}
use citadel_agent.Supervisor.Types.{Cid, Millis}
use citadel_agent.Supervisor.Policy.{SupervisorPolicy}
use citadel_agent.Supervisor.Backoff.{Rng}
use citadel_agent.Supervisor.Peer.{Peer, on_relay}
use citadel_agent.Supervisor.Core.State.{Core, is_up}
use citadel_agent.Supervisor.Core.Drive.{
  drive_dial, drive_upgrade, drive_peer, drive_peers, drive_probe, drive,
}
use citadel_agent.Supervisor.Core.Link.{rearm_peers}
use citadel_agent.Supervisor.Healing.{heal_mark, IsQuiet}

drive_dial-IsQuiet :
    (policy : SupervisorPolicy) (now : Millis) (cid : Cid) (p : Peer)
    → IsQuiet (drive_dial policy now cid p).1
unfolding drive_dial heal_mark
drive_dial-IsQuiet policy now cid p = ground arith

drive_upgrade-IsQuiet :
    (policy : SupervisorPolicy) (now : Millis) (rng : Rng) (cid : Cid) (p : Peer)
    → IsQuiet (drive_upgrade policy now rng cid p).1
unfolding drive_upgrade heal_mark
drive_upgrade-IsQuiet policy now rng cid p = ground arith

drive_peers-IsQuiet :
    (policy : SupervisorPolicy) (now : Millis) (ps : List (Cid × Peer)) (rng : Rng)
    → IsQuiet (drive_peers policy now rng ps).1
unfolding drive_peers drive_peer
drive_peers-IsQuiet policy now [] rng = tt
drive_peers-IsQuiet policy now ((cid, p) ∷ ps) rng =
    All-append _ _ _
      (All-append _ _ _ (drive_dial-IsQuiet policy now cid p)
        (drive_upgrade-IsQuiet policy now rng cid _))
      (drive_peers-IsQuiet policy now ps _)

drive_probe-IsQuiet : (c : Core) (now : Millis) → IsQuiet (drive_probe c now).1
unfolding drive_probe heal_mark
drive_probe-IsQuiet c now = ground arith

pub drive-IsQuiet : (c : Core) (now : Millis) → IsQuiet (drive c now).1
unfolding drive
drive-IsQuiet c now = elim (Bool-cases (is_up c.link && not c.forcing)) [
  | inl e ↦ rw e (
      All-append _ _ _ (drive_probe-IsQuiet c now) (drive_peers-IsQuiet c.policy now c.peers c.rng))
  | inr e ↦ rw e tt
]

pub drive-healing : (c : Core) (now : Millis) → (drive c now).0.healing ≡ c.healing
unfolding drive drive_probe
drive-healing c now = ground arith

pub rearm_peers-IsQuiet :
    (policy : SupervisorPolicy) (now : Millis) (ps : List (Cid × Peer)) (rng : Rng)
    → IsQuiet (rearm_peers policy rng now ps).1
unfolding rearm_peers heal_mark
rearm_peers-IsQuiet policy now [] rng = tt
rearm_peers-IsQuiet policy now ((cid, p) ∷ ps) rng = elim (Bool-cases (on_relay p)) [
  | inl e ↦ rw e (refl, rearm_peers-IsQuiet policy now ps _)
  | inr e ↦ rw e (rearm_peers-IsQuiet policy now ps _)
]
