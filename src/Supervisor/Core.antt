-- ===== src/Supervisor/Core.antt =====
-- kernel/supervisor/core: the state machine of one hosted account. `State` has the record,
-- `Peers` handlers.rs, `Link` link.rs, `Drive` drive.rs and `Step` core/mod.rs.
pub mod State
pub mod Peers
pub mod Link
pub mod Drive
pub mod Step
