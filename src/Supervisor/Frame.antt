-- ===== src/Supervisor/Frame.antt =====
-- What the handlers of kernel/supervisor/core leave alone: the policy and the time of the core.
use citadel_agent.Prelude.{
  ◌≡◌, refl, ◌⊎◌, inl, inr, Bool-cases, Bool, true, false, not, ◌&&◌, List, [], ◌∷◌, ◌++◌, arith,
}
use citadel_agent.Supervisor.Types.{
  Cid, Millis, LinkStatus, up, reconnecting, ended, ProbeOutcome, ok, timeout, error, DialOutcome,
  connected, failed, in_progress, Input, tick, network_changed, server_probe, server_link,
  force_failed, peer_lost, peer_released, peer_up, peer_reachable, peer_path, dial_result, backlog,
  interest, Command,
}
use citadel_agent.Supervisor.Peer.{Peer}
use citadel_agent.Supervisor.Core.State.{Core, put, is_up}
use citadel_agent.Supervisor.Core.Peers.{
  settle, lost, released, peer_comes_up, reachable, path_changed, dialed, backlogged, interested,
}
use citadel_agent.Supervisor.Core.Link
use citadel_agent.Supervisor.Core.Link.{
  rearm_peers, rearm_relayed, probe_answered, probe_ok, probe_timeout, probed, lose_peers,
  lose_link, link_changed,
}
use citadel_agent.Supervisor.Core.Drive.{drive, drive_probe, drive_peers}
use citadel_agent.Supervisor.Core.Step.{handle, step, time_of, is_ended}

pub record Keeps (c d : Core) : Type 0 where
  pub policy : d.policy ≡ c.policy
  pub now : d.now ≡ c.now

lose_peers-Keeps : (ps : List Cid) (c : Core) → Keeps c (lose_peers c ps)
unfolding lose_peers lost put
lose_peers-Keeps [] c = record { policy = refl; now = refl }
lose_peers-Keeps (p ∷ ps) c =
    let rest = lose_peers-Keeps ps (lost c p c.now) in
    record { policy = rest.policy; now = rest.now }

probed-Keeps : (c : Core) (o : ProbeOutcome) → Keeps c (probed c o).0
unfolding probed probe_answered probe_ok probe_timeout rearm_relayed
probed-Keeps c (ok rtt) = ground arith
probed-Keeps c timeout = ground arith
probed-Keeps c error = ground arith

link_changed-Keeps : (c : Core) (s : LinkStatus) (now : Millis) → Keeps c (link_changed c s now).0
unfolding link_changed lose_link
link_changed-Keeps c up now = record { policy = refl; now = refl }
link_changed-Keeps c reconnecting now =
    let rest = lose_peers-Keeps _ _ in record { policy = rest.policy; now = rest.now }
link_changed-Keeps c ended now = record { policy = refl; now = refl }

dialed-Keeps :
    (c : Core) (peer : Cid) (o : DialOutcome) (now : Millis) → Keeps c (dialed c peer o now).0
unfolding dialed peer_comes_up path_changed put
dialed-Keeps c peer connected now = ground arith
dialed-Keeps c peer failed now = record { policy = refl; now = refl }
dialed-Keeps c peer in_progress now = record { policy = refl; now = refl }

network_changed-Keeps : (c : Core) → Keeps c (Link.network_changed c).0
unfolding Link.network_changed
network_changed-Keeps c = ground arith

pub handle-Keeps : (c : Core) (i : Input) (now : Millis) → Keeps c (handle c i now).0
unfolding handle settle lost released peer_comes_up reachable path_changed backlogged interested put
    Link.force_failed
handle-Keeps c (tick _) now = record { policy = refl; now = refl }
handle-Keeps c (network_changed _) now = network_changed-Keeps c
handle-Keeps c (server_probe _ o) now = probed-Keeps c o
handle-Keeps c (server_link _ s) now = link_changed-Keeps c s now
handle-Keeps c (force_failed _) now = record { policy = refl; now = refl }
handle-Keeps c (peer_lost _ peer) now = record { policy = refl; now = refl }
handle-Keeps c (peer_released _ peer) now = record { policy = refl; now = refl }
handle-Keeps c (peer_up _ peer path) now = record { policy = refl; now = refl }
handle-Keeps c (peer_reachable _ peer) now = record { policy = refl; now = refl }
handle-Keeps c (peer_path _ peer path) now = record { policy = refl; now = refl }
handle-Keeps c (dial_result _ peer o) now = dialed-Keeps c peer o now
handle-Keeps c (backlog peer pending) now = record { policy = refl; now = refl }
handle-Keeps c (interest peer until) now = record { policy = refl; now = refl }

pub drive-Keeps : (c : Core) (now : Millis) → Keeps c (drive c now).0
unfolding drive drive_probe
drive-Keeps c now = ground arith

-- The state that `drive` leaves while the link is up and nothing is being forced.
abbrev pub driven : Core → Millis → Core
driven c now =
    let r = drive_peers c.policy now c.rng c.peers in
    record (drive_probe c now).0 { peers = r.0; rng = r.2 }

abbrev pub is_active : Core → Bool
is_active c = is_up c.link && not c.forcing

pub drive-active :
    (c : Core) (now : Millis)
    → is_active c ≡ true
    → drive c now
      ≡ (driven c now, (drive_probe c now).1 ++ (drive_peers c.policy now c.rng c.peers).1)
unfolding drive
drive-active c now e = rw e refl

pub drive-idle : (c : Core) (now : Millis) → is_active c ≡ false → drive c now ≡ (c, [])
unfolding drive
drive-idle c now e = rw e refl

abbrev pub rearmed : Core → List (Cid × Peer)
rearmed c = (rearm_peers c.policy c.rng c.now c.peers).0

rearm_relayed-peers :
    (c : Core) → ((rearm_relayed c).0.peers ≡ c.peers) ⊎ ((rearm_relayed c).0.peers ≡ rearmed c)
unfolding rearm_relayed
rearm_relayed-peers c = elim (Bool-cases c.after_change) [
  | inl e ↦ inr (rw e refl)
  | inr e ↦ inl (rw e refl)
]

probe_answered-peers :
    (c : Core) (o : ProbeOutcome)
    → ((probe_answered c o).0.peers ≡ c.peers) ⊎ ((probe_answered c o).0.peers ≡ rearmed c)
unfolding probe_answered probe_ok probe_timeout
probe_answered-peers c (ok rtt) = rearm_relayed-peers _
probe_answered-peers c timeout = ground arith
probe_answered-peers c error = inl refl

-- A probe's answer leaves the peers, or re-arms those on the relay.
pub probed-peers :
    (c : Core) (o : ProbeOutcome)
    → ((probed c o).0.peers ≡ c.peers) ⊎ ((probed c o).0.peers ≡ rearmed c)
unfolding probed
probed-peers c o = elim (Bool-cases (is_up c.link)) [
  | inl e ↦ elim (Bool-cases c.probe.recheck) [
    | inl again ↦ inl (rw (e, again) refl)
    | inr once ↦ rw (e, once) (probe_answered-peers _ o)
  ]
  | inr e ↦ inl (rw e refl)
]

pub network_changed-peers : (c : Core) → (Link.network_changed c).0.peers ≡ c.peers
unfolding Link.network_changed
network_changed-peers c = ground arith

-- An input handled at its time.
abbrev pub handled : Core → Input → Core × List Command
handled c i = handle (record c { now = time_of i c.now }) i (time_of i c.now)

pub step-live :
    (c : Core) (i : Input)
    → is_ended c.link ≡ false
    → step c i ≡ (
      (drive (handled c i).0 (time_of i c.now)).0,
      (handled c i).1 ++ (drive (handled c i).0 (time_of i c.now)).1,
    )
unfolding step
step-live c i e = rw e refl

pub step-ended : (c : Core) (i : Input) → is_ended c.link ≡ true → step c i ≡ (c, [])
unfolding step
step-ended c i e = rw e refl
