-- ===== src/Docker/Profiles/Table.antt =====
-- `_PROFILES` and `get_docker_profile` of src/docker_sandbox/profiles.py.
use sandbox_tester.Common.{
  String, ◌<>◌, Option, none, some, [], ◌∷◌, value_error, Result, ok, err, string_eq,
}
use sandbox_tester.Common.Dict
use sandbox_tester.Common.Dict.{Dict}
use sandbox_tester.Docker.Models.{DockerProfile}
use sandbox_tester.Docker.Profiles.Names.{
  baseline_profile_name, readonly_fs_profile_name, network_egress_profile_name,
  ambient_services_profile_name, execution_control_profile_name, syscall_control_profile_name,
  resource_limits_profile_name, browser_surface_profile_name, dns_proxy_control_profile_name,
  minimized_image_profile_name, filesystem_visibility_profile_name, runtime_control_profile_name,
  network_socket_control_profile_name, desktop_channel_control_profile_name,
  system_config_control_profile_name, hardware_device_control_profile_name,
  persistence_control_profile_name, no_shell_access_profile_name,
}
use sandbox_tester.Docker.Profiles.Baseline.{baseline}
use sandbox_tester.Docker.Profiles.ReadonlyFs.{readonly_fs}
use sandbox_tester.Docker.Profiles.NetworkEgress.{network_egress}
use sandbox_tester.Docker.Profiles.AmbientServices.{ambient_services}
use sandbox_tester.Docker.Profiles.ExecutionControl.{execution_control}
use sandbox_tester.Docker.Profiles.SyscallControl.{syscall_control}
use sandbox_tester.Docker.Profiles.ResourceLimits.{resource_limits}
use sandbox_tester.Docker.Profiles.BrowserSurface.{browser_surface}
use sandbox_tester.Docker.Profiles.DnsProxyControl.{dns_proxy_control}
use sandbox_tester.Docker.Profiles.MinimizedImage.{minimized_image}
use sandbox_tester.Docker.Profiles.FilesystemVisibility.{filesystem_visibility}
use sandbox_tester.Docker.Profiles.RuntimeControl.{runtime_control}
use sandbox_tester.Docker.Profiles.NetworkSocketControl.{network_socket_control}
use sandbox_tester.Docker.Profiles.DesktopChannelControl.{desktop_channel_control}
use sandbox_tester.Docker.Profiles.SystemConfigControl.{system_config_control}
use sandbox_tester.Docker.Profiles.HardwareDeviceControl.{hardware_device_control}
use sandbox_tester.Docker.Profiles.PersistenceControl.{persistence_control}
use sandbox_tester.Docker.Profiles.NoShellAccess.{no_shell_access}

-- The dict, in the order in which its entries are added.
unfoldable pub profiles : Dict DockerProfile
unfolding baseline readonly_fs network_egress ambient_services execution_control syscall_control
    resource_limits browser_surface dns_proxy_control minimized_image filesystem_visibility
    runtime_control network_socket_control desktop_channel_control system_config_control
    hardware_device_control persistence_control no_shell_access
profiles =
    (baseline_profile_name, baseline)
    ∷ (readonly_fs_profile_name, readonly_fs)
    ∷ (network_egress_profile_name, network_egress)
    ∷ (ambient_services_profile_name, ambient_services)
    ∷ (execution_control_profile_name, execution_control)
    ∷ (syscall_control_profile_name, syscall_control)
    ∷ (resource_limits_profile_name, resource_limits)
    ∷ (browser_surface_profile_name, browser_surface)
    ∷ (dns_proxy_control_profile_name, dns_proxy_control)
    ∷ (minimized_image_profile_name, minimized_image)
    ∷ (filesystem_visibility_profile_name, filesystem_visibility)
    ∷ (runtime_control_profile_name, runtime_control)
    ∷ (network_socket_control_profile_name, network_socket_control)
    ∷ (desktop_channel_control_profile_name, desktop_channel_control)
    ∷ (system_config_control_profile_name, system_config_control)
    ∷ (hardware_device_control_profile_name, hardware_device_control)
    ∷ (persistence_control_profile_name, persistence_control)
    ∷ (no_shell_access_profile_name, no_shell_access)
    ∷ []

abbrev pub found_profile : String → Option DockerProfile → Result DockerProfile
found_profile name none = err (value_error ("Unsupported Docker sandbox profile: " <> name))
found_profile name (some profile) = ok profile

unfoldable pub get_docker_profile : String → Result DockerProfile
unfolding profiles Dict.get
get_docker_profile name = found_profile name (Dict.get profiles name)
