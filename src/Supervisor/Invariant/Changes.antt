-- ===== src/Supervisor/Invariant/Changes.antt =====
-- Each change of one peer keeps it valid (kernel/supervisor/core/handlers.rs, link.rs, drive.rs).
use citadel_agent.Prelude.{arith}
use citadel_agent.Supervisor.Types.{Cid, Millis, P2pPathReport}
use citadel_agent.Supervisor.Policy.{SupervisorPolicy}
use citadel_agent.Supervisor.Backoff.{Rng}
use citadel_agent.Supervisor.Peer.{Peer, new_peer}
use citadel_agent.Supervisor.Core.Peers.{
  settle_peer, lost_peer, reachable_peer, path_peer, connected_peer, retry_in_progress, failed_peer,
}
use citadel_agent.Supervisor.Core.Link.{rearm_peer}
use citadel_agent.Supervisor.Core.Drive.{dial_due, drive_dial, drive_upgrade, drive_peer}
use citadel_agent.Supervisor.Invariant.{IsValid}

pub new_peer-IsValid : (now : Millis) → IsValid (new_peer now)
new_peer-IsValid now = ground arith

module _ (policy : SupervisorPolicy) (now : Millis) (p : Peer) (v : IsValid p) where
  pub settle_peer-IsValid : IsValid (settle_peer policy now p)
  unfolding settle_peer
  settle_peer-IsValid = ground arith

  pub reachable_peer-IsValid : IsValid (reachable_peer now p)
  unfolding reachable_peer
  reachable_peer-IsValid = ground arith

  drive_dial-IsValid : (cid : Cid) → IsValid (drive_dial policy now cid p).0
  unfolding drive_dial dial_due
  drive_dial-IsValid cid = ground arith

module _ (policy : SupervisorPolicy) (rng : Rng) (now : Millis) (p : Peer) (v : IsValid p) where
  pub lost_peer-IsValid : IsValid (lost_peer policy rng now p).0
  unfolding lost_peer
  lost_peer-IsValid = ground arith

  pub path_peer-IsValid : (path : P2pPathReport) → IsValid (path_peer policy rng path now p).0
  unfolding path_peer
  path_peer-IsValid path = ground arith

  pub up_peer-IsValid :
      (path : P2pPathReport) → IsValid (path_peer policy rng path now (connected_peer now p)).0
  unfolding path_peer connected_peer
  up_peer-IsValid path = ground arith

  pub retry_in_progress-IsValid : IsValid (retry_in_progress policy rng now p).0
  unfolding retry_in_progress
  retry_in_progress-IsValid = ground arith

  pub failed_peer-IsValid : IsValid (failed_peer policy rng now p).0
  unfolding failed_peer
  failed_peer-IsValid = ground arith

  pub rearm_peer-IsValid : IsValid (rearm_peer policy rng now p).0
  unfolding rearm_peer
  rearm_peer-IsValid = ground arith

  drive_upgrade-IsValid : (cid : Cid) → IsValid (drive_upgrade policy now rng cid p).0
  unfolding drive_upgrade
  drive_upgrade-IsValid cid = ground arith

pub drive_peer-IsValid :
    (policy : SupervisorPolicy) (now : Millis) (rng : Rng) (cid : Cid) (p : Peer)
    → IsValid p
    → IsValid (drive_peer policy now rng cid p).0
unfolding drive_peer
drive_peer-IsValid policy now rng cid p v =
    drive_upgrade-IsValid policy rng now _ (drive_dial-IsValid policy now p v cid) cid
