-- ===== src/NetPolicy.antt =====
-- The egress policy of a Citadel app: the crate citadel-app-net-policy.
pub mod Limits
pub mod Ranges
pub mod Url
pub mod Grant
pub mod Headers
pub mod Decide
mod Tests
