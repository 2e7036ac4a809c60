-- ===== src/Agent.antt =====
-- The agent package: the lease of a turn, and what prepares a confirmed write.
pub mod ConfirmationProvider
pub mod RunLease
mod Tests
