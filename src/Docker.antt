-- ===== src/Docker.antt =====
-- The Docker sandbox (src/docker_sandbox/).
pub mod Models
pub mod Profiles
pub mod Constants
pub mod Environment
pub mod Executables
pub mod Gateway
pub mod Options
pub mod Script
pub mod ConfigData
pub mod Run
pub mod Command
pub mod Landlock
pub mod Image
mod Tests
