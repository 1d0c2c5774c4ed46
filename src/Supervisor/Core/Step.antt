-- ===== src/Supervisor/Core/Step.antt =====
-- kernel/supervisor/core/mod.rs: one input, handled and then driven; and a run of inputs.
use citadel_agent.Prelude.{Bool, true, false, List, [], ◌∷◌, ◌++◌, if◌then◌else◌}
use citadel_agent.Supervisor.Types.{
  Millis, LinkStatus, ended, Input, tick, network_changed, server_probe, server_link, force_failed,
  peer_lost, peer_released, peer_up, peer_reachable, peer_path, dial_result, backlog, interest,
  Command,
}
use citadel_agent.Supervisor.Core.State.{Core}
use citadel_agent.Supervisor.Core.Peers.{
  settle, lost, released, peer_comes_up, reachable, path_changed, dialed, backlogged, interested,
}
use citadel_agent.Supervisor.Core.Link.{
  network_changed as network_changes, probed, link_changed, force_failed as force_fails,
}
use citadel_agent.Supervisor.Core.Drive.{drive}

abbrev pub is_ended : LinkStatus → Bool
is_ended ended = true
is_ended _ = false

-- The time that an input carries, or the last time seen.
abbrev pub time_of : Input → Millis → Millis
time_of (tick now) last = now
time_of (network_changed now) last = now
time_of (server_probe now outcome) last = now
time_of (server_link now state) last = now
time_of (force_failed now) last = now
time_of (peer_lost now peer) last = now
time_of (peer_released now peer) last = now
time_of (peer_up now peer path) last = now
time_of (peer_reachable now peer) last = now
time_of (peer_path now peer path) last = now
time_of (dial_result now peer outcome) last = now
time_of (backlog peer pending) last = last
time_of (interest peer until) last = last

unfoldable pub handle : Core → Input → Millis → Core × List Command
handle c (tick _) now = (settle c now, [])
handle c (network_changed _) now = network_changes c
handle c (server_probe _ outcome) now = probed c outcome
handle c (server_link _ state) now = link_changed c state now
handle c (force_failed _) now = force_fails c now
handle c (peer_lost _ peer) now = (lost c peer now, [])
handle c (peer_released _ peer) now = (released c peer now, [])
handle c (peer_up _ peer path) now = peer_comes_up c peer path now
handle c (peer_reachable _ peer) now = (reachable c peer now, [])
handle c (peer_path _ peer path) now = (path_changed c peer path now, [])
handle c (dial_result _ peer outcome) now = dialed c peer outcome now
handle c (backlog peer pending) now = (backlogged c peer pending, [])
handle c (interest peer until) now = (interested c peer until, [])

unfoldable pub step : Core → Input → Core × List Command
step c input =
    let now = time_of input c.now in
    let (d, commands) = handle (record c { now = now }) input now in
    let (e, due) = drive d now in if is_ended c.link then (c, []) else (e, commands ++ due)

-- The shell feeds inputs one at a time and carries out the commands in order.
unfoldable pub run : Core → List Input → Core × List Command
run c [] = (c, [])
run c (input ∷ inputs) =
    let (d, commands) = step c input in let (e, rest) = run d inputs in (e, commands ++ rest)
