-- ===== src/Supervisor/Core/Link.antt =====
-- kernel/supervisor/core/link.rs: probing the server link, the network changing under it, and it
-- dropping or ending.
use citadel_agent.Prelude.{
  ◌+◌, ◌%◌, ◌^◌, Bool, true, false, not, ◌&&◌, some, List, [], ◌∷◌, ◌++◌, ltb, if◌then◌else◌,
}
use citadel_agent.Supervisor.Types.{
  Cid, Millis, after, LinkStatus, up, reconnecting, ended, ProbeOutcome, ok, timeout, error,
  HealCause, link_lost, probes_missed, SupervisorEvent, Command, probe_server, force_reconnect,
  rebind_transports, upgrade_path, report,
}
use citadel_agent.Supervisor.Policy.{SupervisorPolicy}
use citadel_agent.Supervisor.Backoff.{Rng, delay}
use citadel_agent.Supervisor.Peer.{Peer, on_relay}
use citadel_agent.Supervisor.Core.State.{Core, default_probe, is_up}
use citadel_agent.Supervisor.Core.Peers.{lost}

unfoldable pub network_changed : Core → Core × List Command
network_changed c =
    let d = record c { probe = record (c.probe) { missed = 0 }; after_change = true } in
    if is_up c.link && not c.forcing
    then (if c.probe.in_flight
        then (record d { probe = record (d.probe) { recheck = true } }, rebind_transports ∷ [])
        else (
          record d { probe = record (d.probe) { in_flight = true } },
          rebind_transports ∷ probe_server ∷ [],
        ))
    else (d, rebind_transports ∷ [])

-- The upgrade that `rearm_relayed` re-arms for one relayed peer.
unfoldable pub rearm_peer : SupervisorPolicy → Rng → Millis → Peer → Peer × Rng
rearm_peer policy rng now p =
    let (wait, rng') = delay rng policy.upgrade_backoff 0 policy.jitter_permille in
    (record p { upgrade = record (p.upgrade) { attempts = 0; next_at = after now wait } }, rng')

-- The loop of `rearm_relayed` over the peers on the relay.
unfoldable pub rearm_peers :
    SupervisorPolicy → Rng → Millis → List (Cid × Peer) → List (Cid × Peer) × List Command × Rng
unfolding rearm_peer
rearm_peers policy rng now [] = ([], [], rng)
rearm_peers policy rng now ((cid, p) ∷ ps) =
    let (q, rng') = if on_relay p then rearm_peer policy rng now p else (p, rng) in
    let (qs, commands, rng'') = rearm_peers policy rng' now ps in
    ((cid, q) ∷ qs, if on_relay p then upgrade_path cid true ∷ commands else commands, rng'')

unfoldable pub rearm_relayed : Core → Core × List Command
rearm_relayed c =
    let (peers, commands, rng') = rearm_peers c.policy c.rng c.now c.peers in
    if c.after_change
    then (record c { after_change = false; peers = peers; rng = rng' }, commands)
    else (c, [])

-- `Report(Healed)` if a `Healing` report is outstanding.
abbrev pub report_healed : Bool → List Command
report_healed true = report SupervisorEvent.healed ∷ []
report_healed false = []

-- `Report(Healing)` unless such a report is outstanding.
abbrev pub report_healing : Bool → HealCause → List Command
report_healing true cause = []
report_healing false cause = report (SupervisorEvent.healing cause) ∷ []

-- The probe was answered.
unfoldable pub probe_ok : Core → Core × List Command
probe_ok c =
    let next_at = some (after c.now c.policy.probe_interval) in
    let d = record c { probe = record (c.probe) { missed = 0; next_at = next_at } } in
    let (e, commands) = rearm_relayed d in
    (record e { healing = false }, commands ++ report_healed e.healing)

-- The probe was not answered in time.
unfoldable pub probe_timeout : Core → Core × List Command
probe_timeout c =
    let missed = (c.probe.missed + 1) % 2 ^ 32 in
    if ltb missed c.policy.missed_probes
    then (
      record c { probe = record (c.probe) { missed = missed; in_flight = true } },
      probe_server ∷ [],
    )
    else (
      record c {
        probe = record (c.probe) { missed = 0 };
        after_change = false;
        forcing = true;
        healing = true;
      },
      force_reconnect ∷ report_healing c.healing probes_missed,
    )

unfoldable pub probe_answered : Core → ProbeOutcome → Core × List Command
unfolding probe_ok probe_timeout
probe_answered c (ok rtt) = probe_ok c
probe_answered c error = (
  record c { probe = record (c.probe) { next_at = some (after c.now c.policy.probe_interval) } },
  [],
)
probe_answered c timeout = probe_timeout c

unfoldable pub probed : Core → ProbeOutcome → Core × List Command
unfolding probe_answered
probed c outcome =
    let d = record c { probe = record (c.probe) { in_flight = false } } in
    if is_up c.link
    then (if c.probe.recheck
        then (
          record d { probe = record (d.probe) { recheck = false; in_flight = true } },
          probe_server ∷ [],
        )
        else probe_answered d outcome)
    else (d, [])

-- The peers that a dropped link takes with it.
unfoldable pub connected_cids : List (Cid × Peer) → List Cid
connected_cids [] = []
connected_cids ((cid, p) ∷ ps) = if p.connected then cid ∷ connected_cids ps else connected_cids ps

unfoldable pub lose_peers : Core → List Cid → Core
lose_peers c [] = c
lose_peers c (peer ∷ ps) = lose_peers (lost c peer c.now) ps

unfoldable pub lose_link : Core → HealCause → Core × List Command
lose_link c cause =
    let d = record c { link = reconnecting; forcing = false; probe = default_probe } in
    let e = lose_peers d (connected_cids d.peers) in
    (record e { healing = true }, report_healing e.healing cause)

unfoldable pub link_changed : Core → LinkStatus → Millis → Core × List Command
unfolding lose_link
link_changed c up now = (
  record c {
    link = up;
    forcing = false;
    probe = record default_probe { next_at = some (after now c.policy.probe_interval) };
    healing = false;
  },
  report_healed c.healing,
)
link_changed c reconnecting now = lose_link c link_lost
link_changed c ended now = (record c { link = ended; peers = [] }, [])

unfoldable pub force_failed : Core → Millis → Core × List Command
force_failed c now = (
  record c {
    forcing = false;
    probe = record default_probe { next_at = some (after now c.policy.probe_interval) };
  },
  [],
)
