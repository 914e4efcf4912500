-- ===== src/Groups.antt =====
-- The capability groups (src/sandbox_tester/group_*.py): what a group's tests ask of the machine, and
-- how the answers are classified.
pub mod Machine
pub mod Attempts
pub mod Handlers
pub mod DiskSpace
pub mod ResourceLimits
pub mod Logs
pub mod Variables
pub mod Redacted
pub mod Run
mod Tests
