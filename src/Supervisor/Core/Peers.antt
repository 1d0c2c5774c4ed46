-- ===== src/Supervisor/Core/Peers.antt =====
-- kernel/supervisor/core/handlers.rs: what each peer input changes, and what it reports at once.
use citadel_agent.Prelude.{
  ℕ, ◌-◌, Bool, true, false, not, ◌&&◌, Option, none, some, List, [], ◌∷◌, max, leb, if◌then◌else◌,
  is_some, is_some_and,
}
use citadel_agent.Time.{saturating_suc}
use citadel_agent.Supervisor.Types.{
  Cid, Millis, after, since, P2pPathReport, server_relay, DialOutcome, connected, failed,
  in_progress, Command, report, peer_restored, SupervisorEvent,
}
use citadel_agent.Supervisor.Policy.{SupervisorPolicy}
use citadel_agent.Supervisor.Backoff.{Rng, delay}
use citadel_agent.Supervisor.PeerMap.{map_values}
use citadel_agent.Supervisor.Peer.{Peer, is_relay, on_relay}
use citadel_agent.Supervisor.Core.State.{Core, entry, put}

-- A connection that has held for `stable_after`.
unfoldable pub is_stable : SupervisorPolicy → Millis → Peer → Bool
is_stable policy now p = is_some_and (λ t. leb policy.stable_after (since now t)) p.connected_since

unfoldable pub settle_peer : SupervisorPolicy → Millis → Peer → Peer
unfolding is_stable
settle_peer policy now p =
    if p.connected && is_stable policy now p && not (is_relay p.path)
    then record p { upgrade = record (p.upgrade) { attempts = 0 } }
    else p

unfoldable pub settle : Core → Millis → Core
settle c now = record c { peers = map_values (settle_peer c.policy now) c.peers }

-- The redial of a peer that was connected.
unfoldable pub schedule_redial : SupervisorPolicy → Rng → Millis → Peer → Peer × Rng
unfolding is_stable
schedule_redial policy rng now p =
    let (wait, rng') = delay rng policy.dial_backoff p.dial.attempts policy.jitter_permille in
    if is_stable policy now p
    then (
      record p { dial = record (p.dial) { attempts = 0; next_at = now }; lost_at = some now },
      rng,
    )
    else (
      record p {
        dial = record (p.dial) {
          attempts = saturating_suc p.dial.attempts;
          next_at = after now wait;
        };
        lost_at = some now;
      },
      rng',
    )

unfoldable pub lost_peer : SupervisorPolicy → Rng → Millis → Peer → Peer × Rng
unfolding schedule_redial
lost_peer policy rng now p =
    let (q, rng') = if p.connected then schedule_redial policy rng now p else (p, rng) in
    (
      record q {
        connected = false;
        path = none;
        connected_since = none;
        dial = record (q.dial) { in_flight = false };
      },
      rng',
    )

unfoldable pub lost : Core → Cid → Millis → Core
lost c peer now =
    let (p, rng') = lost_peer c.policy c.rng now (entry c peer) in
    record (put c peer p) { rng = rng' }

unfoldable pub released : Core → Cid → Millis → Core
released c peer now =
    let c' = lost c peer now in
    put c' peer (record (entry c' peer) { lost_at = none; interest_until = none })

unfoldable pub reachable_peer : Millis → Peer → Peer
reachable_peer now p = record p {
  failed_dials = 0;
  dial = record (p.dial) { attempts = 0; next_at = if p.connected then p.dial.next_at else now };
}

unfoldable pub reachable : Core → Cid → Millis → Core
reachable c peer now = put c peer (reachable_peer now (entry c peer))

unfoldable pub path_peer : SupervisorPolicy → Rng → P2pPathReport → Millis → Peer → Peer × Rng
unfolding on_relay
path_peer policy rng path now p =
    let (wait, rng') = delay rng policy.upgrade_backoff p.upgrade.attempts policy.jitter_permille in
    let q = record p { path = some path } in
    if is_relay (some path) && not (on_relay p)
    then (record q { upgrade = record (q.upgrade) { next_at = after now wait } }, rng')
    else (q, rng)

unfoldable pub path_changed : Core → Cid → P2pPathReport → Millis → Core
path_changed c peer path now =
    let (p, rng') = path_peer c.policy c.rng path now (entry c peer) in
    record (put c peer p) { rng = rng' }

-- The fields that `up` sets before it looks at the path.
unfoldable pub connected_peer : Millis → Peer → Peer
connected_peer now p = record p {
  connected = true;
  connected_since = some now;
  lost_at = none;
  dial = record (p.dial) { in_flight = false };
  failed_dials = 0;
  dialing_reported = false;
  degraded_reported = false;
}

unfoldable pub peer_comes_up : Core → Cid → P2pPathReport → Millis → Core × List Command
peer_comes_up c peer path now =
    let restored = is_some (entry c peer).lost_at in
    let c' = path_changed (put c peer (connected_peer now (entry c peer))) peer path now in
    (c', if restored then report (peer_restored peer path) ∷ [] else [])

unfoldable pub retry_in_progress : SupervisorPolicy → Rng → Millis → Peer → Peer × Rng
retry_in_progress policy rng now p =
    let (wait, rng') = delay rng policy.dial_backoff p.dial.attempts policy.jitter_permille in
    (record p { dial = record (p.dial) { in_flight = false; next_at = after now wait } }, rng')

-- The wait after a failed dial, by the count of failures that includes it.
unfoldable pub failed_wait : SupervisorPolicy → Rng → ℕ → ℕ → ℕ × Rng
failed_wait policy rng failures attempts =
    if leb policy.unreachable_after failures
    then delay rng policy.unreachable_backoff (failures - policy.unreachable_after)
        policy.jitter_permille
    else delay rng policy.dial_backoff attempts policy.jitter_permille

unfoldable pub failed_peer : SupervisorPolicy → Rng → Millis → Peer → Peer × Rng
failed_peer policy rng now p =
    let failures = saturating_suc p.failed_dials in
    let (wait, rng') = failed_wait policy rng failures p.dial.attempts in
    (
      record p {
        dial = record {
          attempts = saturating_suc p.dial.attempts;
          next_at = after now wait;
          in_flight = false;
        };
        failed_dials = failures;
        degraded_reported = true;
      },
      rng',
    )

unfoldable pub dialed : Core → Cid → DialOutcome → Millis → Core × List Command
dialed c peer connected now =
    let p = entry c peer in
    let c' = put c peer (record p { dial = record (p.dial) { in_flight = false } }) in
    if p.connected then (c', []) else peer_comes_up c' peer server_relay now
dialed c peer in_progress now =
    let (p, rng') = retry_in_progress c.policy c.rng now (entry c peer) in
    (record (put c peer p) { rng = rng' }, [])
dialed c peer failed now =
    let (p, rng') = failed_peer c.policy c.rng now (entry c peer) in
    let first = not (entry c peer).degraded_reported in
    (
      record (put c peer p) { rng = rng' },
      if first then report (SupervisorEvent.degraded peer) ∷ [] else [],
    )

unfoldable pub backlogged : Core → Cid → ℕ → Core
backlogged c peer pending = put c peer (record (entry c peer) { backlog = pending })

-- The latest of the times that windows asked for.
abbrev pub later : Option Millis → Millis → Millis
later none until = until
later (some had) until = max had until

unfoldable pub interested : Core → Cid → Millis → Core
interested c peer until =
    let p = entry c peer in
    put c peer (record p { interest_until = some (later p.interest_until until) })
