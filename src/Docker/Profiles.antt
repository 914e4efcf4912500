-- ===== src/Docker/Profiles.antt =====
-- src/docker_sandbox/profiles.py: the table of hardening profiles and its lookup.
pub mod Names
pub mod Defaults
pub mod Baseline
pub mod ReadonlyFs
pub mod NetworkEgress
pub mod AmbientServices
pub mod ExecutionControl
pub mod SyscallControl
pub mod ResourceLimits
pub mod BrowserSurface
pub mod DnsProxyControl
pub mod MinimizedImage
pub mod FilesystemVisibility
pub mod RuntimeControl
pub mod NetworkSocketControl
pub mod DesktopChannelControl
pub mod SystemConfigControl
pub mod HardwareDeviceControl
pub mod PersistenceControl
pub mod NoShellAccess
pub mod Table
pub mod Lookup
pub mod Controls
pub mod Strength
