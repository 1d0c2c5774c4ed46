-- ===== src/Supervisor/Healing/Parts.antt =====
-- What each input reports of the link, and the `healing` flag that it leaves.
use citadel_agent.Prelude.{
  ◌≡◌, refl, ◌∙◌, Bool, true, false, inl, inr, some, List, [], ◌∷◌, arith, Bool-cases,
}
use citadel_agent.Supervisor.Types.{
  Cid, Millis, LinkStatus, up, reconnecting, ended, ProbeOutcome, ok, timeout, error, HealCause,
  link_lost, P2pPathReport, server_relay, DialOutcome, connected, failed, in_progress, Input, tick,
  network_changed, server_probe, server_link, force_failed, peer_lost, peer_released, peer_up,
  peer_reachable, peer_path, dial_result, backlog, interest, Command,
}
use citadel_agent.Supervisor.Core.State.{Core, entry, put, is_up}
use citadel_agent.Supervisor.Core.Peers.{
  settle, released, reachable, backlogged, interested, lost, peer_comes_up, dialed, path_changed,
}
use citadel_agent.Supervisor.Core.Link
use citadel_agent.Supervisor.Core.Link.{
  rearm_relayed, probe_ok, probe_timeout, probe_answered, probed, lose_peers, lose_link,
  link_changed, connected_cids, report_healed, report_healing, rearm_peers,
}
use citadel_agent.Supervisor.Core.Step.{handle}
use citadel_agent.Supervisor.Healing.{
  heal_mark, advance, follow, follow-append, follow-IsQuiet, IsQuiet,
}
use citadel_agent.Supervisor.Healing.Drives.{rearm_peers-IsQuiet}

-- What a handler reports takes the old flag to the new one.
abbrev pub Follows : Core → Core × List Command → Type 0
Follows c r = follow c.healing r.1 ≡ some r.0.healing

lose_peers-healing : (ps : List Cid) (c : Core) → (lose_peers c ps).healing ≡ c.healing
unfolding lose_peers lost put
lose_peers-healing [] c = refl
lose_peers-healing (p ∷ ps) c = lose_peers-healing ps (lost c p c.now)

rearm_relayed-healing : (c : Core) → (rearm_relayed c).0.healing ≡ c.healing
unfolding rearm_relayed
rearm_relayed-healing c = ground arith

rearm_relayed-IsQuiet : (c : Core) → IsQuiet (rearm_relayed c).1
unfolding rearm_relayed
rearm_relayed-IsQuiet c = elim (Bool-cases c.after_change) [
  | inl e ↦ rw e (rearm_peers-IsQuiet c.policy c.now c.peers c.rng)
  | inr e ↦ rw e tt
]

report_healed-follow : (b : Bool) → follow b (report_healed b) ≡ some false
unfolding follow advance heal_mark
report_healed-follow true = refl
report_healed-follow false = refl

report_healing-follow :
    (b : Bool) (cause : HealCause) → follow b (report_healing b cause) ≡ some true
unfolding follow advance heal_mark
report_healing-follow true cause = refl
report_healing-follow false cause = refl

probe_ok-Follows : (c : Core) → Follows c (probe_ok c)
unfolding probe_ok
probe_ok-Follows c = rw rearm_relayed-healing (
    follow-append c.healing _ (report_healed c.healing) {b' = c.healing}
      (follow-IsQuiet c.healing _ (rearm_relayed-IsQuiet _))
    ∙ report_healed-follow c.healing)

probe_timeout-Follows : (c : Core) → Follows c (probe_timeout c)
unfolding probe_timeout follow advance heal_mark
probe_timeout-Follows c = ground arith

probe_answered-Follows : (c : Core) (o : ProbeOutcome) → Follows c (probe_answered c o)
unfolding probe_answered
probe_answered-Follows c (ok rtt) = probe_ok-Follows c
probe_answered-Follows c timeout = probe_timeout-Follows c
probe_answered-Follows c error = unfold follow in refl

probed-Follows : (c : Core) (o : ProbeOutcome) → Follows c (probed c o)
unfolding probed follow advance heal_mark
probed-Follows c o = elim (Bool-cases (is_up c.link)) [
  | inl e ↦ rw e (elim (Bool-cases c.probe.recheck) [
    | inl again ↦ rw again refl
    | inr once ↦ rw once (probe_answered-Follows _ o)
  ])
  | inr e ↦ rw e refl
]

lose_link-Follows : (c : Core) (cause : HealCause) → Follows c (lose_link c cause)
unfolding lose_link
lose_link-Follows c cause =
    rw (lose_peers-healing (connected_cids c.peers) _) (report_healing-follow c.healing cause)

link_changed-Follows : (c : Core) (s : LinkStatus) (now : Millis) → Follows c (link_changed c s now)
unfolding link_changed follow
link_changed-Follows c up now = report_healed-follow c.healing
link_changed-Follows c reconnecting now = lose_link-Follows c link_lost
link_changed-Follows c ended now = refl

network_changed-Follows : (c : Core) → Follows c (Link.network_changed c)
unfolding Link.network_changed follow advance heal_mark
network_changed-Follows c = ground arith

peer_comes_up-Follows :
    (c : Core) (peer : Cid) (path : P2pPathReport) (now : Millis)
    → Follows c (peer_comes_up c peer path now)
unfolding peer_comes_up path_changed put follow advance heal_mark
peer_comes_up-Follows c peer path now = ground arith

dialed-Follows :
    (c : Core) (peer : Cid) (o : DialOutcome) (now : Millis) → Follows c (dialed c peer o now)
unfolding dialed put follow advance heal_mark
dialed-Follows c peer connected now = elim (Bool-cases (entry c peer).connected) [
  | inl e ↦ rw e refl
  | inr e ↦ rw e (peer_comes_up-Follows _ peer server_relay now)
]
dialed-Follows c peer in_progress now = refl
dialed-Follows c peer failed now = ground arith

pub handle-Follows : (c : Core) (i : Input) (now : Millis) → Follows c (handle c i now)
unfolding handle
handle-Follows c (tick _) now = unfold follow settle in refl
handle-Follows c (network_changed _) now = network_changed-Follows c
handle-Follows c (server_probe _ o) now = probed-Follows c o
handle-Follows c (server_link _ s) now = link_changed-Follows c s now
handle-Follows c (force_failed _) now = unfold follow Link.force_failed in refl
handle-Follows c (peer_lost _ peer) now = unfold follow lost put in refl
handle-Follows c (peer_released _ peer) now = unfold follow released lost put in refl
handle-Follows c (peer_up _ peer path) now = peer_comes_up-Follows c peer path now
handle-Follows c (peer_reachable _ peer) now = unfold follow reachable put in refl
handle-Follows c (peer_path _ peer path) now = unfold follow path_changed put in refl
handle-Follows c (dial_result _ peer o) now = dialed-Follows c peer o now
handle-Follows c (backlog peer pending) now = unfold follow backlogged put in refl
handle-Follows c (interest peer until) now = unfold follow interested put in refl
