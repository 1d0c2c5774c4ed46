-- ===== src/Supervisor/Invariant.antt =====
-- What holds of the peers of a core between two inputs (kernel/supervisor/core).
mod Changes
pub mod Steps
use citadel_agent.Prelude.{◌≡◌, ◌≤◌, true, false, none, is_some, List}
use citadel_agent.Time.{u32_max}
use citadel_agent.Supervisor.Types.{Cid}
use citadel_agent.Supervisor.Peer.{Peer}
use citadel_agent.Supervisor.PeerMap.{IsSorted}
use citadel_agent.Supervisor.PeerMap.Laws.{AllValues}
use citadel_agent.Supervisor.Core.State.{Core}

-- A connected peer has a path and a time, and no dial, loss or dialling report is pending for it;
-- the counters fit a `u32`.
pub record IsValid (p : Peer) : Type 0 where
  pub timed : is_some p.connected_since ≡ p.connected
  pub routed : p.connected ≡ true → is_some p.path ≡ true
  pub idle : p.connected ≡ true → p.dial.in_flight ≡ false
  pub found : p.connected ≡ true → p.lost_at ≡ none
  pub told : p.connected ≡ true → p.dialing_reported ≡ false
  pub announced : p.dial.in_flight ≡ true → p.dialing_reported ≡ true
  pub dials_fit : p.dial.attempts ≤ u32_max
  pub failures_fit : p.failed_dials ≤ u32_max
  pub upgrades_fit : p.upgrade.attempts ≤ u32_max

abbrev pub AllValid : List (Cid × Peer) → Type 0
AllValid = AllValues IsValid

pub record IsConsistent (c : Core) : Type 0 where
  pub sorted : IsSorted c.peers
  pub valid : AllValid c.peers
