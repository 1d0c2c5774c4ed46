-- ===== src/Supervisor.antt =====
-- The connection supervisor of an account: citadel-internal-service/src/kernel/supervisor.
pub mod Types
pub mod Policy
pub mod Backoff
pub mod PeerMap
pub mod Peer
pub mod Core
pub mod Frame
pub mod Healing
pub mod Wake
pub mod Order
pub mod Dials
pub mod Invariant
pub mod Ended
mod Tests
