-- ===== src/Media.antt =====
-- The media queue of a client: citadel-internal-service/src/kernel/media/lane.rs.
pub mod Lane
pub mod Bounded
pub mod Wakeup
mod Tests
