-- ===== src/Inspection.antt =====
-- The package src/property_agent/inspection: patrol tasks and security events.
pub mod Enums
pub mod EventEnums
pub mod Errors
pub mod Task
pub mod Event
pub mod Classification
pub mod Commands
pub mod Snapshot
pub mod Repository
pub mod Ports
pub mod Service
pub mod Tasks
pub mod Events
pub mod Invariant
pub mod Visibility
mod TestData
mod Tests
