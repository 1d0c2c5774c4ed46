-- ===== src/Supervisor/Types.antt =====
-- kernel/supervisor/types.rs: what goes into the core and what comes out of it.
use citadel_agent.Prelude.{ℕ, ◌+◌, ◌-◌, min, Bool, Option, none, some}
use citadel_agent.Time.{Duration, u64_max, as_u64_millis, from_millis}

abbrev pub Cid : Type 0
Cid = ℕ

abbrev pub Millis : Type 0
Millis = ℕ

unfoldable pub after : Millis → Duration → Millis
after t wait = min (t + as_u64_millis wait) u64_max

unfoldable pub since : Millis → Millis → Duration
since t earlier = from_millis (t - earlier)

-- citadel-internal-service-types/src/turn.rs.
pub data P2pPathReport : Type 0 where
  direct turn server_relay : P2pPathReport

pub data LinkStatus : Type 0 where
  up reconnecting ended : LinkStatus

pub data ProbeOutcome : Type 0 where
  ok : Duration → ProbeOutcome
  timeout : ProbeOutcome
  error : ProbeOutcome

pub data DialOutcome : Type 0 where
  connected failed in_progress : DialOutcome

pub data Input : Type 0 where
  tick : Millis → Input
  network_changed : Millis → Input
  server_probe : Millis → ProbeOutcome → Input
  server_link : Millis → LinkStatus → Input
  force_failed : Millis → Input
  peer_lost : Millis → Cid → Input
  peer_released : Millis → Cid → Input
  peer_up : Millis → Cid → P2pPathReport → Input
  peer_reachable : Millis → Cid → Input
  peer_path : Millis → Cid → P2pPathReport → Input
  dial_result : Millis → Cid → DialOutcome → Input
  backlog : Cid → ℕ → Input
  interest : Cid → Millis → Input

pub data HealCause : Type 0 where
  link_lost probes_missed : HealCause

pub data SupervisorEvent : Type 0 where
  healing : HealCause → SupervisorEvent
  healed : SupervisorEvent
  peer_dialing : Cid → SupervisorEvent
  peer_restored : Cid → P2pPathReport → SupervisorEvent
  degraded : Cid → SupervisorEvent

pub data Command : Type 0 where
  probe_server : Command
  force_reconnect : Command
  rebind_transports : Command
  dial_peer : Cid → Command
  upgrade_path : Cid → Bool → Command
  report : SupervisorEvent → Command

-- citadel-internal-service-types/src/supervisor.rs.
pub data SupervisorState : Type 0 where
  healing healed degraded : SupervisorState

unfoldable pub wire : SupervisorEvent → Option Cid × SupervisorState
wire (SupervisorEvent.healing cause) = (none, SupervisorState.healing)
wire SupervisorEvent.healed = (none, SupervisorState.healed)
wire (peer_dialing cid) = (some cid, SupervisorState.healing)
wire (peer_restored cid path) = (some cid, SupervisorState.healed)
wire (SupervisorEvent.degraded cid) = (some cid, SupervisorState.degraded)
