-- ===== src/Supervisor/Order.antt =====
-- The peers of the core stay in increasing order of their CIDs, each once, as in the `BTreeMap`.
use citadel_agent.Prelude.{List, [], ◌∷◌, inl, inr, Bool-cases}
use citadel_agent.Supervisor.Types.{
  Cid, Millis, LinkStatus, up, reconnecting, ended, ProbeOutcome, P2pPathReport, server_relay,
  DialOutcome, connected, failed, in_progress, Input, tick, network_changed, server_probe,
  server_link, force_failed, peer_lost, peer_released, peer_up, peer_reachable, peer_path,
  dial_result, backlog, interest,
}
use citadel_agent.Supervisor.Policy.{SupervisorPolicy}
use citadel_agent.Supervisor.Backoff.{Rng}
use citadel_agent.Supervisor.Peer.{Peer}
use citadel_agent.Supervisor.PeerMap.{IsSorted, Above}
use citadel_agent.Supervisor.PeerMap.Laws.{insert-IsSorted, map_values-IsSorted}
use citadel_agent.Supervisor.Core.State.{Core, put, entry}
use citadel_agent.Supervisor.Core.Peers.{
  settle, lost, released, peer_comes_up, reachable, path_changed, dialed, backlogged, interested,
}
use citadel_agent.Supervisor.Core.Link
use citadel_agent.Supervisor.Core.Link.{
  rearm_peers, rearm_relayed, probe_answered, probe_ok, probe_timeout, probed, lose_peers,
  lose_link, link_changed,
}
use citadel_agent.Supervisor.Core.Drive.{drive, drive_peers}
use citadel_agent.Supervisor.Core.Step.{handle, step, is_ended}
use citadel_agent.Supervisor.Frame.{
  is_active, drive-active, drive-idle, probed-peers, network_changed-peers,
}

put-IsSorted : (c : Core) (k : Cid) (p : Peer) → IsSorted c.peers → IsSorted (put c k p).peers
unfolding put
put-IsSorted c k p s = insert-IsSorted k p c.peers s

lost-IsSorted :
    (c : Core) (k : Cid) (now : Millis) → IsSorted c.peers → IsSorted (lost c k now).peers
unfolding lost
lost-IsSorted c k now s = put-IsSorted c k _ s

lose_peers-IsSorted :
    (ps : List Cid) (c : Core) → IsSorted c.peers → IsSorted (lose_peers c ps).peers
unfolding lose_peers
lose_peers-IsSorted [] c s = s
lose_peers-IsSorted (p ∷ ps) c s = lose_peers-IsSorted ps _ (lost-IsSorted c p c.now s)

rearm_peers-Above :
    (policy : SupervisorPolicy) (now : Millis) (n : Cid) (ps : List (Cid × Peer)) (rng : Rng)
    → Above n ps
    → Above n (rearm_peers policy rng now ps).0
unfolding rearm_peers
rearm_peers-Above policy now n [] rng a = tt
rearm_peers-Above policy now n ((k, p) ∷ ps) rng a = (a.0, rearm_peers-Above policy now k ps _ a.1)

rearm_peers-IsSorted :
    (policy : SupervisorPolicy) (now : Millis) (ps : List (Cid × Peer)) (rng : Rng)
    → IsSorted ps
    → IsSorted (rearm_peers policy rng now ps).0
unfolding rearm_peers
rearm_peers-IsSorted policy now [] rng s = tt
rearm_peers-IsSorted policy now ((k, p) ∷ ps) rng s = rearm_peers-Above policy now k ps _ s

drive_peers-Above :
    (policy : SupervisorPolicy) (now : Millis) (n : Cid) (ps : List (Cid × Peer)) (rng : Rng)
    → Above n ps
    → Above n (drive_peers policy now rng ps).0
unfolding drive_peers
drive_peers-Above policy now n [] rng a = tt
drive_peers-Above policy now n ((k, p) ∷ ps) rng a = (a.0, drive_peers-Above policy now k ps _ a.1)

pub drive_peers-IsSorted :
    (policy : SupervisorPolicy) (now : Millis) (ps : List (Cid × Peer)) (rng : Rng)
    → IsSorted ps
    → IsSorted (drive_peers policy now rng ps).0
unfolding drive_peers
drive_peers-IsSorted policy now [] rng s = tt
drive_peers-IsSorted policy now ((k, p) ∷ ps) rng s = drive_peers-Above policy now k ps _ s

pub drive-IsSorted : (c : Core) (now : Millis) → IsSorted c.peers → IsSorted (drive c now).0.peers
drive-IsSorted c now s = elim (Bool-cases (is_active c)) [
  | inl e ↦ rw (drive-active c now e) (drive_peers-IsSorted c.policy now c.peers c.rng s)
  | inr e ↦ rw (drive-idle c now e) s
]

probed-IsSorted : (c : Core) (o : ProbeOutcome) → IsSorted c.peers → IsSorted (probed c o).0.peers
probed-IsSorted c o s = elim (probed-peers c o) [
  | inl e ↦ rw e s
  | inr e ↦ rw e (rearm_peers-IsSorted c.policy c.now c.peers c.rng s)
]

link_changed-IsSorted :
    (c : Core) (l : LinkStatus) (now : Millis)
    → IsSorted c.peers
    → IsSorted (link_changed c l now).0.peers
unfolding link_changed lose_link
link_changed-IsSorted c up now s = s
link_changed-IsSorted c reconnecting now s = lose_peers-IsSorted _ _ s
link_changed-IsSorted c ended now s = tt

peer_comes_up-IsSorted :
    (c : Core) (k : Cid) (path : P2pPathReport) (now : Millis)
    → IsSorted c.peers
    → IsSorted (peer_comes_up c k path now).0.peers
unfolding peer_comes_up path_changed
peer_comes_up-IsSorted c k path now s = put-IsSorted _ k _ (put-IsSorted c k _ s)

dialed-IsSorted :
    (c : Core) (k : Cid) (o : DialOutcome) (now : Millis)
    → IsSorted c.peers
    → IsSorted (dialed c k o now).0.peers
unfolding dialed
dialed-IsSorted c k connected now s = elim (Bool-cases (entry c k).connected) [
  | inl e ↦ rw e (put-IsSorted c k _ s)
  | inr e ↦ rw e (peer_comes_up-IsSorted _ k server_relay now (put-IsSorted c k _ s))
]
dialed-IsSorted c k failed now s = put-IsSorted c k _ s
dialed-IsSorted c k in_progress now s = put-IsSorted c k _ s

pub handle-IsSorted :
    (c : Core) (i : Input) (now : Millis) → IsSorted c.peers → IsSorted (handle c i now).0.peers
unfolding handle settle released reachable path_changed backlogged interested Link.force_failed
handle-IsSorted c (tick _) now s = map_values-IsSorted _ c.peers s
handle-IsSorted c (network_changed _) now s = rw (network_changed-peers c) s
handle-IsSorted c (server_probe _ o) now s = probed-IsSorted c o s
handle-IsSorted c (server_link _ l) now s = link_changed-IsSorted c l now s
handle-IsSorted c (force_failed _) now s = s
handle-IsSorted c (peer_lost _ k) now s = lost-IsSorted c k now s
handle-IsSorted c (peer_released _ k) now s = put-IsSorted _ k _ (lost-IsSorted c k now s)
handle-IsSorted c (peer_up _ k path) now s = peer_comes_up-IsSorted c k path now s
handle-IsSorted c (peer_reachable _ k) now s = put-IsSorted c k _ s
handle-IsSorted c (peer_path _ k path) now s = put-IsSorted c k _ s
handle-IsSorted c (dial_result _ k o) now s = dialed-IsSorted c k o now s
handle-IsSorted c (backlog k pending) now s = put-IsSorted c k _ s
handle-IsSorted c (interest k until) now s = put-IsSorted c k _ s

pub step-IsSorted : (c : Core) (i : Input) → IsSorted c.peers → IsSorted (step c i).0.peers
unfolding step
step-IsSorted c i s = elim (Bool-cases (is_ended c.link)) [
  | inl e ↦ rw e s
  | inr e ↦ rw e (drive-IsSorted _ _ (handle-IsSorted _ i _ s))
]
