-- ===== src/Docker/Run.antt =====
-- A run of the container: `run_sandbox_container` of src/docker_sandbox/sandbox_container.py. What it
-- prepares and starts is in the modules below.
pub mod Host
pub mod Fixtures
pub mod Egress
pub mod Container
pub mod Quiet
pub mod Preparing
pub mod Commands
pub mod Ended
pub mod Succeeds
pub mod Ending
pub mod Returns
pub mod Refused
