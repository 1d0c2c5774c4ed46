-- ===== src/AppNet.antt =====
-- The host side of the network access of apps: citadel-internal-service/src/kernel/apps/net.
pub mod Rate
pub mod Retain
pub mod Admit
pub mod Window
pub mod Caps
mod Tests
