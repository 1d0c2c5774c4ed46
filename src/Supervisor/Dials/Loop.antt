-- ===== src/Supervisor/Dials/Loop.antt =====
-- The loop over the peers dials the peer `k` exactly when its dial is due.
use citadel_agent.Prelude.{
  ◌≡◌, refl, Bool, true, false, List, [], ◌∷◌, arith, ◌==◌, if◌then◌else◌, is_some_and,
}
use citadel_agent.Supervisor.Types.{Cid, Millis}
use citadel_agent.Supervisor.Policy.{SupervisorPolicy}
use citadel_agent.Supervisor.Backoff.{Rng}
use citadel_agent.Supervisor.Peer.{Peer}
use citadel_agent.Supervisor.PeerMap.{get, IsSorted}
use citadel_agent.Supervisor.PeerMap.Laws.{get-Above, Above→IsSorted}
use citadel_agent.Supervisor.Core.Drive.{
  dial_due, drive_dial, drive_upgrade, drive_peer, drive_peers,
}
use citadel_agent.Supervisor.Dials.{dials, dials-append, dialing}

abbrev pub due : SupervisorPolicy → Millis → Cid → List (Cid × Peer) → Bool
due policy now k m = is_some_and (dial_due policy now) (get k m)

drive_dial-dials :
    (policy : SupervisorPolicy) (now : Millis) (k j : Cid) (p : Peer)
    → dials k (drive_dial policy now j p).1
      ≡ (if k == j then (if dial_due policy now p then 1 else 0) else 0)
unfolding drive_dial dials
drive_dial-dials policy now k j p = ground arith

drive_upgrade-dials :
    (policy : SupervisorPolicy) (now : Millis) (rng : Rng) (k j : Cid) (p : Peer)
    → dials k (drive_upgrade policy now rng j p).1 ≡ 0
unfolding drive_upgrade dials
drive_upgrade-dials policy now rng k j p = ground arith

drive_peer-dials :
    (policy : SupervisorPolicy) (now : Millis) (rng : Rng) (k j : Cid) (p : Peer)
    → dials k (drive_peer policy now rng j p).1
      ≡ (if k == j then (if dial_due policy now p then 1 else 0) else 0)
unfolding drive_peer
drive_peer-dials policy now rng k j p =
    let q : Peer = (drive_dial policy now j p).0 in
    omega (
      arith,
      dials-append k (drive_dial policy now j p).1 (drive_upgrade policy now rng j q).1,
      drive_dial-dials policy now k j p,
      drive_upgrade-dials policy now rng k j q,
    )

-- After its round a peer is being dialled if it was, or if the dial was due.
drive_peer-in_flight :
    (policy : SupervisorPolicy) (now : Millis) (rng : Rng) (j : Cid) (p : Peer)
    → (drive_peer policy now rng j p).0.dial.in_flight
      ≡ (if dial_due policy now p then true else p.dial.in_flight)
unfolding drive_peer drive_dial drive_upgrade
drive_peer-in_flight policy now rng j p = ground arith

pub drive_peers-dials :
    (policy : SupervisorPolicy) (now : Millis) (k : Cid) (ps : List (Cid × Peer)) (rng : Rng)
    → IsSorted ps
    → dials k (drive_peers policy now rng ps).1 ≡ (if due policy now k ps then 1 else 0)
unfolding drive_peers
drive_peers-dials policy now k [] rng s = unfold dials in refl
drive_peers-dials policy now k ((j, p) ∷ ps) rng s =
    let rest = drive_peers-dials policy now k ps (drive_peer policy now rng j p).2 in
    ground (
      arith,
      dials-append k (drive_peer policy now rng j p).1
          (drive_peers policy now (drive_peer policy now rng j p).2 ps).1,
      drive_peer-dials policy now rng k j p,
      rest (Above→IsSorted j ps s),
      get-Above j k ps s,
    )

pub drive_peers-dialing :
    (policy : SupervisorPolicy) (now : Millis) (k : Cid) (ps : List (Cid × Peer)) (rng : Rng)
    → dialing k (drive_peers policy now rng ps).0
      ≡ (if due policy now k ps then true else dialing k ps)
unfolding drive_peers dialing
drive_peers-dialing policy now k [] rng = refl
drive_peers-dialing policy now k ((j, p) ∷ ps) rng = ground (
  arith,
  drive_peer-in_flight policy now rng j p,
  drive_peers-dialing policy now k ps (drive_peer policy now rng j p).2,
)

-- A peer that is being dialled is not dialled again.
pub dialing-due :
    (policy : SupervisorPolicy) (now : Millis) (k : Cid) (ps : List (Cid × Peer))
    → dialing k ps ≡ true
    → due policy now k ps ≡ false
unfolding dialing dial_due
dialing-due policy now k ps h = ground arith
