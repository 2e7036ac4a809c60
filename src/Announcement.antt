-- ===== src/Announcement.antt =====
-- The announcement package: the life of an announcement.
pub mod Entities
mod Tests
