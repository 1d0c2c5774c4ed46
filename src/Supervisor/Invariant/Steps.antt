-- ===== src/Supervisor/Invariant/Steps.antt =====
-- Every step of the core keeps its peers in order and valid (kernel/supervisor/core/mod.rs).
use citadel_agent.Prelude.{
  ◌≡◌, refl, false, none, some, List, [], ◌∷◌, arith, inl, inr, Bool-cases, Option-cases, if_cases,
  ==_refl,
}
use citadel_agent.Supervisor.Types.{
  Cid, Millis, LinkStatus, up, reconnecting, ended, ProbeOutcome, P2pPathReport, server_relay,
  DialOutcome, connected, failed, in_progress, Input, tick, network_changed, server_probe,
  server_link, force_failed, peer_lost, peer_released, peer_up, peer_reachable, peer_path,
  dial_result, backlog, interest, Command,
}
use citadel_agent.Supervisor.Policy.{SupervisorPolicy}
use citadel_agent.Supervisor.Backoff.{Rng}
use citadel_agent.Supervisor.Peer.{Peer, on_relay}
use citadel_agent.Supervisor.PeerMap.{get, map_values}
use citadel_agent.Supervisor.PeerMap.Laws.{
  get-insert, insert-insert, insert-AllValues, get-AllValues,
}
use citadel_agent.Supervisor.Core.State.{Core, new, put, entry}
use citadel_agent.Supervisor.Core.Peers.{
  settle, settle_peer, lost, released, peer_comes_up, connected_peer, reachable, path_changed,
  dialed, backlogged, interested, later,
}
use citadel_agent.Supervisor.Core.Link
use citadel_agent.Supervisor.Core.Link.{
  rearm_peers, rearm_peer, probed, lose_peers, lose_link, link_changed,
}
use citadel_agent.Supervisor.Core.Drive.{drive, drive_peers}
use citadel_agent.Supervisor.Core.Step.{handle, step, run, is_ended, time_of}
use citadel_agent.Supervisor.Frame.{
  is_active, drive-active, drive-idle, step-live, step-ended, probed-peers, network_changed-peers,
}
use citadel_agent.Supervisor.Order.{step-IsSorted}
use citadel_agent.Supervisor.Invariant.{IsValid, AllValid, IsConsistent}
use citadel_agent.Supervisor.Invariant.Changes.{
  new_peer-IsValid, settle_peer-IsValid, reachable_peer-IsValid, lost_peer-IsValid,
  path_peer-IsValid, up_peer-IsValid, retry_in_progress-IsValid, failed_peer-IsValid,
  rearm_peer-IsValid, drive_peer-IsValid,
}

entry-IsValid : (c : Core) (k : Cid) → AllValid c.peers → IsValid (entry c k)
unfolding entry
entry-IsValid c k v = elim (Option-cases (get k c.peers)) [
  | inl e ↦ rw e (new_peer-IsValid c.now)
  | inr (p, e) ↦ rw e (get-AllValues IsValid k p c.peers v e)
]

-- What was just put in is what the entry holds.
entry-put : (c : Core) (k : Cid) (p : Peer) → entry (put c k p) k ≡ p
unfolding entry put
entry-put c k p = rw (get-insert k k p c.peers, ==_refl k)

put_frame :
    (c : Core) (k : Cid) (p : Peer) → ((put c k p).policy ≡ c.policy) × ((put c k p).rng ≡ c.rng)
unfolding put
put_frame c k p = (refl, refl)

put-put : (c : Core) (k : Cid) (p q : Peer) → put (put c k q) k p ≡ put c k p
unfolding put
put-put c k p q = rw insert-insert refl

put-AllValid :
    (c : Core) (k : Cid) (p : Peer) → IsValid p → AllValid c.peers → AllValid (put c k p).peers
unfolding put
put-AllValid c k p valid v = insert-AllValues IsValid k p c.peers valid v

lost-AllValid :
    (c : Core) (k : Cid) (now : Millis) → AllValid c.peers → AllValid (lost c k now).peers
unfolding lost
lost-AllValid c k now v =
    put-AllValid c k _ (lost_peer-IsValid c.policy c.rng now _ (entry-IsValid c k v)) v

lose_peers-AllValid :
    (ps : List Cid) (c : Core) → AllValid c.peers → AllValid (lose_peers c ps).peers
unfolding lose_peers
lose_peers-AllValid [] c v = v
lose_peers-AllValid (p ∷ ps) c v = lose_peers-AllValid ps _ (lost-AllValid c p c.now v)

released-AllValid :
    (c : Core) (k : Cid) (now : Millis) → AllValid c.peers → AllValid (released c k now).peers
unfolding released
released-AllValid c k now v =
    let lost_valid = lost-AllValid c k now v in
    let old = entry-IsValid _ k lost_valid in put-AllValid _ k _ (forget _ old) lost_valid
  where
    forget : (p : Peer) → IsValid p → IsValid (record p { lost_at = none; interest_until = none })
    forget p valid = ground arith

peer_comes_up-AllValid :
    (c : Core) (k : Cid) (path : P2pPathReport) (now : Millis)
    → AllValid c.peers
    → AllValid (peer_comes_up c k path now).0.peers
unfolding peer_comes_up path_changed
peer_comes_up-AllValid c k path now v =
    let p : Peer = entry c k in
    let up_valid = up_peer-IsValid c.policy c.rng now p (entry-IsValid c k v) path in
    rw
      (
        entry-put c k (connected_peer now p),
        put-put c k _ (connected_peer now p),
        (put_frame c k _).0,
        (put_frame c k _).1,
      )
      (put-AllValid c k _ up_valid v)

settle-AllValid :
    (policy : SupervisorPolicy) (now : Millis) (m : List (Cid × Peer))
    → AllValid m
    → AllValid (map_values (settle_peer policy now) m)
settle-AllValid policy now [] v = tt
settle-AllValid policy now ((k, p) ∷ m) v =
    (settle_peer-IsValid policy now p v.0, settle-AllValid policy now m v.1)

rearm_peers-AllValid :
    (policy : SupervisorPolicy) (now : Millis) (m : List (Cid × Peer)) (rng : Rng)
    → AllValid m
    → AllValid (rearm_peers policy rng now m).0
unfolding rearm_peers
rearm_peers-AllValid policy now [] rng v = tt
rearm_peers-AllValid policy now ((k, p) ∷ m) rng v = elim (Bool-cases (on_relay p)) [
  | inl e ↦ rw e (rearm_peer-IsValid policy rng now p v.0, rearm_peers-AllValid policy now m _ v.1)
  | inr e ↦ rw e (v.0, rearm_peers-AllValid policy now m _ v.1)
]

drive_peers-AllValid :
    (policy : SupervisorPolicy) (now : Millis) (m : List (Cid × Peer)) (rng : Rng)
    → AllValid m
    → AllValid (drive_peers policy now rng m).0
unfolding drive_peers
drive_peers-AllValid policy now [] rng v = tt
drive_peers-AllValid policy now ((k, p) ∷ m) rng v =
    (drive_peer-IsValid policy now rng k p v.0, drive_peers-AllValid policy now m _ v.1)

drive-AllValid : (c : Core) (now : Millis) → AllValid c.peers → AllValid (drive c now).0.peers
drive-AllValid c now v = elim (Bool-cases (is_active c)) [
  | inl e ↦ rw (drive-active c now e) (drive_peers-AllValid c.policy now c.peers c.rng v)
  | inr e ↦ rw (drive-idle c now e) v
]

dialed-AllValid :
    (c : Core) (k : Cid) (o : DialOutcome) (now : Millis)
    → AllValid c.peers
    → AllValid (dialed c k o now).0.peers
unfolding dialed
dialed-AllValid c k connected now v =
    if_cases {A = Core × List Command} (λ r. AllValid r.0.peers) (entry c k).connected _ _ still
      (peer_comes_up-AllValid _ k server_relay now still)
  where
    rest :
        (p : Peer) → IsValid p → IsValid (record p { dial = record (p.dial) { in_flight = false } })
    rest p valid = ground arith

    still :
        AllValid
          (put c k
            (record (entry c k) { dial = record ((entry c k).dial) { in_flight = false } })).peers
    still = put-AllValid c k _ (rest _ (entry-IsValid c k v)) v
dialed-AllValid c k failed now v =
    put-AllValid c k _ (failed_peer-IsValid c.policy c.rng now _ (entry-IsValid c k v)) v
dialed-AllValid c k in_progress now v =
    put-AllValid c k _ (retry_in_progress-IsValid c.policy c.rng now _ (entry-IsValid c k v)) v

link_changed-AllValid :
    (c : Core) (l : LinkStatus) (now : Millis)
    → AllValid c.peers
    → AllValid (link_changed c l now).0.peers
unfolding link_changed lose_link
link_changed-AllValid c up now v = v
link_changed-AllValid c reconnecting now v = lose_peers-AllValid _ _ v
link_changed-AllValid c ended now v = tt

probed-AllValid : (c : Core) (o : ProbeOutcome) → AllValid c.peers → AllValid (probed c o).0.peers
probed-AllValid c o v = elim (probed-peers c o) [
  | inl e ↦ rw e v
  | inr e ↦ rw e (rearm_peers-AllValid c.policy c.now c.peers c.rng v)
]

handle-AllValid :
    (c : Core) (i : Input) (now : Millis) → AllValid c.peers → AllValid (handle c i now).0.peers
unfolding handle settle reachable path_changed backlogged interested Link.force_failed
handle-AllValid c (tick _) now v = settle-AllValid c.policy now c.peers v
handle-AllValid c (network_changed _) now v = rw (network_changed-peers c) v
handle-AllValid c (server_probe _ o) now v = probed-AllValid c o v
handle-AllValid c (server_link _ l) now v = link_changed-AllValid c l now v
handle-AllValid c (force_failed _) now v = v
handle-AllValid c (peer_lost _ k) now v = lost-AllValid c k now v
handle-AllValid c (peer_released _ k) now v = released-AllValid c k now v
handle-AllValid c (peer_up _ k path) now v = peer_comes_up-AllValid c k path now v
handle-AllValid c (peer_reachable _ k) now v =
    put-AllValid c k _ (reachable_peer-IsValid c.policy now _ (entry-IsValid c k v)) v
handle-AllValid c (peer_path _ k path) now v =
    put-AllValid c k _ (path_peer-IsValid c.policy c.rng now _ (entry-IsValid c k v) path) v
handle-AllValid c (dial_result _ k o) now v = dialed-AllValid c k o now v
handle-AllValid c (backlog k pending) now v = put-AllValid c k _ (queue _ (entry-IsValid c k v)) v
  where
    queue : (p : Peer) → IsValid p → IsValid (record p { backlog = pending })
    queue p valid = ground arith
handle-AllValid c (interest k until) now v =
    put-AllValid c k _ (open_until _ (entry-IsValid c k v)) v
  where
    open_until :
        (p : Peer)
        → IsValid p
        → IsValid (record p { interest_until = some (later p.interest_until until) })
    open_until p valid = ground arith

-- Every step keeps the peers in order and valid.
pub step-IsConsistent : (c : Core) (i : Input) → IsConsistent c → IsConsistent (step c i).0
step-IsConsistent c i v = record {
  sorted = step-IsSorted c i v.sorted;
  valid = elim (Bool-cases (is_ended c.link)) [
    | inl e ↦ rw (step-ended c i e) v.valid
    | inr e ↦
        rw (step-live c i e)
          (drive-AllValid _ _ (handle-AllValid (record c { now = time_of i c.now }) i _ v.valid))
  ];
}

run-IsConsistent : (is : List Input) (c : Core) → IsConsistent c → IsConsistent (run c is).0
unfolding run
run-IsConsistent [] c v = v
run-IsConsistent (i ∷ is) c v = run-IsConsistent is _ (step-IsConsistent c i v)

-- In every state that a new core reaches, the peers are in order, each once, and valid.
pub reach-IsConsistent :
    (policy : SupervisorPolicy) (cid : Cid) (is : List Input)
    → IsConsistent (run (new policy cid) is).0
unfolding new
reach-IsConsistent policy cid is = run-IsConsistent is _ (record { sorted = tt; valid = tt })
