-- ===== src/Supervisor/Core/State.antt =====
-- kernel/supervisor/core/mod.rs: the state of the core, and how it reaches one peer.
use citadel_agent.Prelude.{ℕ, Bool, false, Option, none, List, [], unwrap_or}
use citadel_agent.Supervisor.Types.{Cid, Millis, LinkStatus, up}
use citadel_agent.Supervisor.Policy.{SupervisorPolicy}
use citadel_agent.Supervisor.Backoff.{Rng, seeded}
use citadel_agent.Supervisor.PeerMap.{get, insert}
use citadel_agent.Supervisor.Peer.{Peer, new_peer}

pub record Probe : Type 0 where
  pub next_at : Option Millis
  pub in_flight : Bool
  pub missed : ℕ
  pub recheck : Bool

-- `Probe::default()`.
abbrev pub default_probe : Probe
default_probe = record { next_at = none; in_flight = false; missed = 0; recheck = false }

pub record Core : Type 0 where
  pub policy : SupervisorPolicy
  pub link : LinkStatus
  pub now : Millis
  pub probe : Probe
  pub peers : List (Cid × Peer)
  pub rng : Rng
  pub healing : Bool
  pub forcing : Bool
  pub after_change : Bool

unfoldable pub new : SupervisorPolicy → Cid → Core
new policy cid = record {
  policy = policy;
  link = up;
  now = 0;
  probe = default_probe;
  peers = [];
  rng = seeded policy.jitter_seed cid;
  healing = false;
  forcing = false;
  after_change = false;
}

abbrev pub is_up : LinkStatus → Bool
is_up up = Bool.true
is_up _ = false

-- The entry that `peer` hands out: the stored one, or a new one.
unfoldable pub entry : Core → Cid → Peer
entry c peer = unwrap_or (get peer c.peers) (new_peer c.now)

-- A change through the `&mut Peer` of `peer`.
unfoldable pub put : Core → Cid → Peer → Core
put c peer p = record c { peers = insert peer p c.peers }
