-- ===== src/Platform.antt =====
-- The platform package: approvals, confirmation tokens, fencing, idempotency, the message outbox,
-- the login guard, and the tables that a session of the business modules shares.
pub mod Approval
pub mod Confirmation
pub mod Tables
pub mod ConfirmationPort
pub mod Idempotency
pub mod Outbox
pub mod LoginGuard
mod Tests
