-- ===== src/Repair.antt =====
-- The repair package: the work order and its state machine, the ports, the repository, the service.
pub mod Enums
pub mod Errors
pub mod WorkOrder
pub mod Commands
pub mod Snapshot
pub mod Repository
pub mod Ports
pub mod Service
pub mod AutoAssignment
mod TestData
mod Tests
mod ReadTests
mod AssignmentTests
