-- ===== src/Reconnect.antt =====
-- How a session that its server dropped is brought back (citadel-internal-service/src/kernel/reconnect).
pub mod Policy
pub mod Failure
pub mod Delays
pub mod Run
pub mod Ends
pub mod Renders
pub mod SignIn
mod Tests
