-- ===== src/Supervisor/Tests.antt =====
-- Runs of the supervisor at concrete inputs, and the theorems at them.
use citadel_agent.Prelude.{◌+◌, ◌≤◌, ◌<◌, ◌≡◌, refl, false, some, List, [], ◌∷◌, arith}
use citadel_agent.Time.{from_secs, from_millis}
use citadel_agent.Supervisor.Types.{
  after, up, reconnecting, ended, timeout, Input, tick, server_probe, server_link, backlog, Command,
  probe_server, force_reconnect, report, probes_missed, healing, healed,
}
use citadel_agent.Supervisor.Policy.{agent_supervisor}
use citadel_agent.Supervisor.Backoff.{delay, capped, span}
use citadel_agent.Supervisor.Backoff.Bounds.{delay_bounds}
use citadel_agent.Supervisor.Peer.{wanted, on_relay}
use citadel_agent.Supervisor.Core.State.{Core, new, entry, put}
use citadel_agent.Supervisor.Core.Peers.{settle, settle_peer, backlogged}
use citadel_agent.Supervisor.Core.Link
use citadel_agent.Supervisor.Core.Drive.{
  drive, drive_probe, drive_peers, drive_peer, drive_dial, drive_upgrade, next_wake, dial_due,
}
use citadel_agent.Supervisor.Core.Step.{handle, step, run}
use citadel_agent.Supervisor.Healing.{follow}
use citadel_agent.Supervisor.Healing.Run.{reports_alternate}
use citadel_agent.Supervisor.Ended.{run-ended}
use citadel_agent.Supervisor.Wake.{step-next_wake}
use citadel_agent.Supervisor.Dials.{dials, answers}
use citadel_agent.Supervisor.Invariant.{IsConsistent}
use citadel_agent.Supervisor.Invariant.Steps.{reach-IsConsistent}
use citadel_agent.Supervisor.Dials.Once.{run-dials}

abbrev fresh : Core
fresh = new agent_supervisor 7

-- A probe goes out after 15 s and two time-outs hand the link over; then it comes back.
abbrev outage : List Input
outage =
    tick 0
    ∷ tick 15000
    ∷ server_probe 20000 timeout
    ∷ server_probe 25000 timeout
    ∷ server_link 26000 reconnecting
    ∷ server_link 30000 up
    ∷ []

-- What the tests unfold.
abbrev outage_commands : List Command
outage_commands =
    probe_server
    ∷ probe_server
    ∷ force_reconnect
    ∷ report (healing probes_missed)
    ∷ report healed
    ∷ []

outage_runs : (run fresh outage).1 ≡ outage_commands
unfolding run step handle settle drive drive_probe drive_peers Link.probed Link.probe_answered
    Link.probe_timeout Link.link_changed Link.lose_link Link.lose_peers Link.connected_cids new
    after
outage_runs = refl

-- A message is queued for a peer: it is dialled, the dial fails, and it waits for its backoff.
abbrev queued : List Input
queued = backlog 3 1 ∷ tick 500 ∷ tick 20000 ∷ []

reports_alternate_example : follow false (run fresh outage).1 ≡ some (run fresh outage).0.healing
unfolding new
reports_alternate_example = reports_alternate agent_supervisor 7 outage

run-dials_example : dials 3 (run fresh queued).1 ≤ 1
unfolding new answers
run-dials_example = run-dials queued fresh 3 tt (refl, (refl, (refl, tt)))

queued-dials : dials 3 (run fresh queued).1 ≡ 1
unfolding run step handle settle drive drive_probe drive_peers drive_peer drive_dial drive_upgrade
    backlogged dial_due wanted entry put new after dials on_relay settle_peer
queued-dials = refl

step-next_wake_example : 0 < 15000
unfolding step handle settle drive drive_probe drive_peers new after next_wake
step-next_wake_example =
    step-next_wake fresh (tick 0) 15000
      (record { initial = omega arith; capped = omega arith; fraction = omega arith }) (omega arith)
      refl

delay_bounds_example :
    let wait = (delay 5 agent_supervisor.dial_backoff 3 250).0 in
    (wait ≤ from_secs 30)
    × (wait ≤ from_millis (capped agent_supervisor.dial_backoff 3))
    × (from_millis (capped agent_supervisor.dial_backoff 3)
        ≤ wait + from_millis (span (capped agent_supervisor.dial_backoff 3) 250))
delay_bounds_example = delay_bounds 5 agent_supervisor.dial_backoff 3 250 (omega arith)

reach-IsConsistent_example : IsConsistent (run fresh queued).0
reach-IsConsistent_example = reach-IsConsistent agent_supervisor 7 queued

run-ended_example :
    run fresh (server_link 5 ended ∷ tick 20000 ∷ []) ≡ ((step fresh (server_link 5 ended)).0, [])
run-ended_example = run-ended fresh 5 (tick 20000 ∷ [])
