-- ===== src/Engine.antt =====
-- The test engine (src/sandbox_tester/).
pub mod Json
pub mod Context
pub mod Redaction
pub mod Models
pub mod Testing
pub mod Runner
pub mod Output
mod Tests
