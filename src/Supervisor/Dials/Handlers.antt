-- ===== src/Supervisor/Dials/Handlers.antt =====
-- What the handlers do to a dial that is out: no input dials, and only word of the peer or of the
-- link ends a dial.
use citadel_agent.Prelude.{
  ◌≡◌, refl, Bool, true, false, List, [], ◌∷◌, arith, ◌==◌, if◌then◌else◌, inl, inr, Bool-cases,
  subst, ==→eq,
}
use citadel_agent.Supervisor.Types.{
  Cid, Millis, up, reconnecting, ended, ProbeOutcome, ok, timeout, error, P2pPathReport,
  server_relay, DialOutcome, connected, failed, in_progress, Input, tick, network_changed,
  server_probe, server_link, force_failed, peer_lost, peer_released, peer_up, peer_reachable,
  peer_path, dial_result, backlog, interest,
}
use citadel_agent.Supervisor.Policy.{SupervisorPolicy}
use citadel_agent.Supervisor.Backoff.{Rng}
use citadel_agent.Supervisor.Peer.{Peer, on_relay}
use citadel_agent.Supervisor.PeerMap.{map_values}
use citadel_agent.Supervisor.PeerMap.Laws.{get-insert}
use citadel_agent.Supervisor.Core.State.{Core, is_up, put, entry}
use citadel_agent.Supervisor.Core.Peers.{
  settle, settle_peer, lost, released, peer_comes_up, reachable, reachable_peer, path_changed,
  path_peer, dialed, backlogged, interested,
}
use citadel_agent.Supervisor.Core.Link
use citadel_agent.Supervisor.Core.Link.{
  rearm_peers, rearm_peer, rearm_relayed, probe_answered, probe_ok, probe_timeout, probed,
  lose_link, report_healed, link_changed,
}
use citadel_agent.Supervisor.Core.Step.{handle}
use citadel_agent.Supervisor.Frame.{probed-peers, network_changed-peers}
use citadel_agent.Supervisor.Dials.{dials, dials-append, dialing, answers}

put-dialing :
    (c : Core) (k j : Cid) (p : Peer)
    → dialing k (put c j p).peers ≡ (if k == j then p.dial.in_flight else dialing k c.peers)
unfolding put dialing
put-dialing c k j p = ground (arith, get-insert k j p c.peers)

entry-in_flight :
    (c : Core) (k : Cid) → dialing k c.peers ≡ true → (entry c k).dial.in_flight ≡ true
unfolding entry dialing
entry-in_flight c k h = ground arith

settle-dialing :
    (policy : SupervisorPolicy) (now : Millis) (k : Cid) (m : List (Cid × Peer))
    → dialing k (map_values (settle_peer policy now) m) ≡ dialing k m
unfolding dialing settle_peer
settle-dialing policy now k [] = refl
settle-dialing policy now k ((j, p) ∷ m) = ground (arith, settle-dialing policy now k m)

rearm_peers-dialing :
    (policy : SupervisorPolicy) (now : Millis) (k : Cid) (m : List (Cid × Peer)) (rng : Rng)
    → dialing k (rearm_peers policy rng now m).0 ≡ dialing k m
unfolding dialing rearm_peers rearm_peer
rearm_peers-dialing policy now k [] rng = refl
rearm_peers-dialing policy now k ((j, p) ∷ m) rng = ground (
  arith,
  rearm_peers-dialing policy now k m
      (if on_relay p then rearm_peer policy rng now p else (p, rng)).1,
)

probed-dialing :
    (c : Core) (o : ProbeOutcome) (k : Cid) → dialing k (probed c o).0.peers ≡ dialing k c.peers
probed-dialing c o k = elim (probed-peers c o) [
  | inl e ↦ rw e refl
  | inr e ↦ rw e (rearm_peers-dialing c.policy c.now k c.peers c.rng)
]

-- A change of an entry that keeps its dial out.
put_keeps-dialing :
    (c : Core) (k j : Cid) (p : Peer)
    → ((entry c j).dial.in_flight ≡ true → p.dial.in_flight ≡ true)
    → dialing k c.peers ≡ true
    → dialing k (put c j p).peers ≡ true
put_keeps-dialing c k j p keeps h = elim (Bool-cases (k == j)) [
  | inl e ↦
      rw (put-dialing c k j p, e)
        (keeps (entry-in_flight c j (subst (λ n. dialing n c.peers ≡ true) (==→eq k j e) h)))
  | inr e ↦ rw (put-dialing c k j p, e) h
]

-- A change of another entry.
put_other-dialing :
    (c : Core) (k j : Cid) (p : Peer)
    → (k == j) ≡ false
    → dialing k c.peers ≡ true
    → dialing k (put c j p).peers ≡ true
put_other-dialing c k j p e h = rw (put-dialing c k j p, e) h

path_peer-in_flight :
    (policy : SupervisorPolicy) (rng : Rng) (path : P2pPathReport) (now : Millis) (p : Peer)
    → (path_peer policy rng path now p).0.dial.in_flight ≡ p.dial.in_flight
unfolding path_peer
path_peer-in_flight policy rng path now p = ground arith

peer_comes_up-dialing :
    (c : Core) (k j : Cid) (path : P2pPathReport) (now : Millis)
    → (k == j) ≡ false
    → dialing k c.peers ≡ true
    → dialing k (peer_comes_up c j path now).0.peers ≡ true
unfolding peer_comes_up path_changed
peer_comes_up-dialing c k j path now e h =
    put_other-dialing _ k j _ e (put_other-dialing c k j _ e h)

dialed-dialing :
    (c : Core) (k j : Cid) (o : DialOutcome) (now : Millis)
    → (k == j) ≡ false
    → dialing k c.peers ≡ true
    → dialing k (dialed c j o now).0.peers ≡ true
unfolding dialed
dialed-dialing c k j connected now e h = elim (Bool-cases (entry c j).connected) [
  | inl u ↦ rw u (put_other-dialing c k j _ e h)
  | inr d ↦ rw d (peer_comes_up-dialing _ k j server_relay now e (put_other-dialing c k j _ e h))
]
dialed-dialing c k j failed now e h = put_other-dialing c k j _ e h
dialed-dialing c k j in_progress now e h = put_other-dialing c k j _ e h

-- An input that is no answer leaves a dial out.
pub handle-dialing :
    (c : Core) (i : Input) (now : Millis) (k : Cid)
    → answers k i ≡ false
    → dialing k c.peers ≡ true
    → dialing k (handle c i now).0.peers ≡ true
unfolding handle answers settle lost released reachable reachable_peer path_changed backlogged
    interested Link.force_failed
handle-dialing c (tick _) now k a h = rw (settle-dialing c.policy now k c.peers) h
handle-dialing c (network_changed _) now k a h = rw (network_changed-peers c) h
handle-dialing c (server_probe _ o) now k a h = rw (probed-dialing c o k) h
handle-dialing c (server_link _ l) now k a h = absurd (cc)
handle-dialing c (force_failed _) now k a h = h
handle-dialing c (peer_lost _ j) now k a h = put_other-dialing c k j _ a h
handle-dialing c (peer_released _ j) now k a h =
    put_other-dialing _ k j _ a (put_other-dialing c k j _ a h)
handle-dialing c (peer_up _ j path) now k a h = peer_comes_up-dialing c k j path now a h
handle-dialing c (peer_reachable _ j) now k a h = put_keeps-dialing c k j _ (λ f. f) h
handle-dialing c (peer_path _ j path) now k a h =
    put_keeps-dialing c k j _ (λ f. rw (path_peer-in_flight c.policy c.rng path now _) f) h
handle-dialing c (dial_result _ j o) now k a h = dialed-dialing c k j o now a h
handle-dialing c (backlog j pending) now k a h = put_keeps-dialing c k j _ (λ f. f) h
handle-dialing c (interest j until) now k a h = put_keeps-dialing c k j _ (λ f. f) h

rearm_peers-dials :
    (policy : SupervisorPolicy) (now : Millis) (k : Cid) (m : List (Cid × Peer)) (rng : Rng)
    → dials k (rearm_peers policy rng now m).1 ≡ 0
unfolding dials rearm_peers
rearm_peers-dials policy now k [] rng = refl
rearm_peers-dials policy now k ((j, p) ∷ m) rng = ground (
  arith,
  rearm_peers-dials policy now k m (if on_relay p then rearm_peer policy rng now p else (p, rng)).1,
)

rearm_relayed-dials : (c : Core) (k : Cid) → dials k (rearm_relayed c).1 ≡ 0
unfolding rearm_relayed
rearm_relayed-dials c k = elim (Bool-cases c.after_change) [
  | inl e ↦ rw e (rearm_peers-dials c.policy c.now k c.peers c.rng)
  | inr e ↦ rw e (unfold dials in refl)
]

report_healed-dials : (b : Bool) (k : Cid) → dials k (report_healed b) ≡ 0
unfolding dials
report_healed-dials true k = refl
report_healed-dials false k = refl

probe_answered-dials : (c : Core) (o : ProbeOutcome) (k : Cid) → dials k (probe_answered c o).1 ≡ 0
unfolding probe_answered probe_ok probe_timeout
probe_answered-dials c (ok rtt) k = omega (
  arith,
  dials-append k _ (report_healed (rearm_relayed _).0.healing),
  rearm_relayed-dials _ k,
  report_healed-dials (rearm_relayed _).0.healing k,
)
probe_answered-dials c timeout k = unfold dials in ground arith
probe_answered-dials c error k = unfold dials in refl

probed-dials : (c : Core) (o : ProbeOutcome) (k : Cid) → dials k (probed c o).1 ≡ 0
unfolding probed
probed-dials c o k = elim (Bool-cases (is_up c.link)) [
  | inl e ↦ elim (Bool-cases c.probe.recheck) [
    | inl again ↦ rw (e, again) (unfold dials in refl)
    | inr once ↦ rw (e, once) (probe_answered-dials _ o k)
  ]
  | inr e ↦ rw e (unfold dials in refl)
]

-- No handler dials.
pub handle-dials : (c : Core) (i : Input) (now : Millis) (k : Cid) → dials k (handle c i now).1 ≡ 0
unfolding handle dials link_changed
handle-dials c (tick _) now k = refl
handle-dials c (network_changed _) now k = unfold Link.network_changed in ground arith
handle-dials c (server_probe _ o) now k = probed-dials c o k
handle-dials c (server_link _ up) now k = report_healed-dials c.healing k
handle-dials c (server_link _ reconnecting) now k = unfold lose_link in ground arith
handle-dials c (server_link _ ended) now k = refl
handle-dials c (force_failed _) now k = unfold Link.force_failed in refl
handle-dials c (peer_lost _ j) now k = refl
handle-dials c (peer_released _ j) now k = refl
handle-dials c (peer_up _ j path) now k = unfold peer_comes_up in ground arith
handle-dials c (peer_reachable _ j) now k = refl
handle-dials c (peer_path _ j path) now k = refl
handle-dials c (dial_result _ j connected) now k = unfold dialed peer_comes_up in ground arith
handle-dials c (dial_result _ j failed) now k = unfold dialed in ground arith
handle-dials c (dial_result _ j in_progress) now k = unfold dialed in refl
handle-dials c (backlog j pending) now k = refl
handle-dials c (interest j until) now k = refl
