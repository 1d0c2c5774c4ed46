-- ===== src/Supervisor/Core/Drive.antt =====
-- kernel/supervisor/core/drive.rs: what is due now, and when something next is.
use citadel_agent.Prelude.{
  Bool, true, false, not, ◌&&◌, ◌||◌, Option, none, some, List, [], ◌∷◌, ◌++◌, min, leb,
  if◌then◌else◌, unwrap_or,
}
use citadel_agent.Time.{saturating_suc}
use citadel_agent.Supervisor.Types.{
  Cid, Millis, after, Command, probe_server, dial_peer, upgrade_path, report, peer_dialing,
}
use citadel_agent.Supervisor.Policy.{SupervisorPolicy}
use citadel_agent.Supervisor.Backoff.{Rng, delay}
use citadel_agent.Supervisor.Peer.{Peer, in_use, wanted, on_relay}
use citadel_agent.Supervisor.Core.State.{Core, is_up}

-- A dial that only waits for its time.
unfoldable pub dial_wanted : SupervisorPolicy → Millis → Peer → Bool
dial_wanted policy now p =
    policy.dial_peers
    && (not p.connected && (not p.dial.in_flight && wanted p now policy.redial_window))

unfoldable pub dial_due : SupervisorPolicy → Millis → Peer → Bool
unfolding dial_wanted
dial_due policy now p = dial_wanted policy now p && leb p.dial.next_at now

unfoldable pub drive_dial : SupervisorPolicy → Millis → Cid → Peer → Peer × List Command
drive_dial policy now cid p =
    if dial_due policy now p
    then (
      record p { dial = record (p.dial) { in_flight = true }; dialing_reported = true },
      if p.dialing_reported
          then dial_peer cid ∷ []
          else report (peer_dialing cid) ∷ dial_peer cid ∷ [],
    )
    else (p, [])

unfoldable pub upgrade_wanted : Millis → Peer → Bool
upgrade_wanted now p = on_relay p && in_use p now

unfoldable pub drive_upgrade :
    SupervisorPolicy → Millis → Rng → Cid → Peer → Peer × List Command × Rng
unfolding upgrade_wanted
drive_upgrade policy now rng cid p =
    let attempts = saturating_suc p.upgrade.attempts in
    let (wait, rng') = delay rng policy.upgrade_backoff attempts policy.jitter_permille in
    if upgrade_wanted now p && leb p.upgrade.next_at now
    then (
      record p { upgrade = record (p.upgrade) { attempts = attempts; next_at = after now wait } },
      upgrade_path cid true ∷ [],
      rng',
    )
    else (p, [], rng)

-- One round of the loop over the peers.
unfoldable pub drive_peer : SupervisorPolicy → Millis → Rng → Cid → Peer → Peer × List Command × Rng
drive_peer policy now rng cid p =
    let (q, dials) = drive_dial policy now cid p in
    let (r, upgrades, rng') = drive_upgrade policy now rng cid q in (r, dials ++ upgrades, rng')

unfoldable pub drive_peers :
    SupervisorPolicy → Millis → Rng → List (Cid × Peer) → List (Cid × Peer) × List Command × Rng
drive_peers policy now rng [] = ([], [], rng)
drive_peers policy now rng ((cid, p) ∷ ps) =
    let (q, commands, rng') = drive_peer policy now rng cid p in
    let (qs, rest, rng'') = drive_peers policy now rng' ps in
    ((cid, q) ∷ qs, commands ++ rest, rng'')

-- The probe: its time is set if none was, and it goes out when that has come.
unfoldable pub drive_probe : Core → Millis → Core × List Command
drive_probe c now =
    let armed = unwrap_or c.probe.next_at (after now c.policy.probe_interval) in
    let due = not c.probe.in_flight && leb armed now in
    (
      record c {
        probe = record (c.probe) { next_at = some armed; in_flight = c.probe.in_flight || due };
      },
      if due then probe_server ∷ [] else [],
    )

unfoldable pub drive : Core → Millis → Core × List Command
drive c now =
    let (d, probes) = drive_probe c now in
    let (peers, commands, rng') = drive_peers c.policy now c.rng c.peers in
    if is_up c.link && not c.forcing
    then (record d { peers = peers; rng = rng' }, probes ++ commands)
    else (c, [])

-- `bool::then_some`.
abbrev pub then_some {ℓ} : {A : Type ℓ} → Bool → A → List A → List A
then_some true a rest = a ∷ rest
then_some false a rest = rest

-- The time of the probe that is armed and not out.
abbrev pub probe_wakes : Bool → Option Millis → List Millis
probe_wakes false (some t) = t ∷ []
probe_wakes false none = []
probe_wakes true at = []

-- What each peer waits for.
unfoldable pub peer_wakes : SupervisorPolicy → Millis → List (Cid × Peer) → List Millis
unfolding dial_wanted upgrade_wanted
peer_wakes policy now [] = []
peer_wakes policy now ((cid, p) ∷ ps) =
    then_some (dial_wanted policy now p) p.dial.next_at
      (then_some (upgrade_wanted now p) p.upgrade.next_at (peer_wakes policy now ps))

-- `Iterator::min`.
abbrev pub minimum : List Millis → Option Millis
minimum [] = none
minimum (t ∷ ts) = some (elim (minimum ts) [ none ↦ t | some u ↦ min t u ])

unfoldable pub next_wake : Core → Option Millis
unfolding peer_wakes
next_wake c =
    if is_up c.link && not c.forcing
    then minimum
        (probe_wakes c.probe.in_flight c.probe.next_at ++ peer_wakes c.policy c.now c.peers)
    else none
