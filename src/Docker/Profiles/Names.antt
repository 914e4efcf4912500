-- ===== src/Docker/Profiles/Names.antt =====
-- The names of the profiles and of their images: the constants of src/docker_sandbox/profiles.py.
use sandbox_tester.Common.{String}

abbrev pub baseline_profile_name : String
baseline_profile_name = "baseline"

abbrev pub baseline_image_name : String
baseline_image_name = "sandbox-tester/docker-sandbox:baseline"

abbrev pub readonly_fs_profile_name : String
readonly_fs_profile_name = "readonly-fs"

abbrev pub readonly_fs_image_name : String
readonly_fs_image_name = "sandbox-tester/docker-sandbox:readonly-fs"

abbrev pub network_egress_profile_name : String
network_egress_profile_name = "network-egress"

abbrev pub network_egress_image_name : String
network_egress_image_name = "sandbox-tester/docker-sandbox:network-egress"

abbrev pub ambient_services_profile_name : String
ambient_services_profile_name = "ambient-services"

abbrev pub ambient_services_image_name : String
ambient_services_image_name = "sandbox-tester/docker-sandbox:ambient-services"

abbrev pub execution_control_profile_name : String
execution_control_profile_name = "execution-control"

abbrev pub execution_control_image_name : String
execution_control_image_name = "sandbox-tester/docker-sandbox:execution-control"

abbrev pub syscall_control_profile_name : String
syscall_control_profile_name = "syscall-control"

abbrev pub syscall_control_image_name : String
syscall_control_image_name = "sandbox-tester/docker-sandbox:syscall-control"

abbrev pub resource_limits_profile_name : String
resource_limits_profile_name = "resource-limits"

abbrev pub resource_limits_image_name : String
resource_limits_image_name = "sandbox-tester/docker-sandbox:resource-limits"

abbrev pub browser_surface_profile_name : String
browser_surface_profile_name = "browser-surface"

abbrev pub browser_surface_image_name : String
browser_surface_image_name = "sandbox-tester/docker-sandbox:browser-surface"

abbrev pub dns_proxy_control_profile_name : String
dns_proxy_control_profile_name = "dns-proxy-control"

abbrev pub dns_proxy_control_image_name : String
dns_proxy_control_image_name = "sandbox-tester/docker-sandbox:dns-proxy-control"

abbrev pub minimized_image_profile_name : String
minimized_image_profile_name = "minimized-image"

abbrev pub minimized_image_image_name : String
minimized_image_image_name = "sandbox-tester/docker-sandbox:minimized-image"

abbrev pub filesystem_visibility_profile_name : String
filesystem_visibility_profile_name = "filesystem-visibility"

abbrev pub filesystem_visibility_image_name : String
filesystem_visibility_image_name = "sandbox-tester/docker-sandbox:filesystem-visibility"

abbrev pub runtime_control_profile_name : String
runtime_control_profile_name = "runtime-control"

abbrev pub runtime_control_image_name : String
runtime_control_image_name = "sandbox-tester/docker-sandbox:runtime-control"

abbrev pub network_socket_control_profile_name : String
network_socket_control_profile_name = "network-socket-control"

abbrev pub network_socket_control_image_name : String
network_socket_control_image_name = "sandbox-tester/docker-sandbox:network-socket-control"

abbrev pub desktop_channel_control_profile_name : String
desktop_channel_control_profile_name = "desktop-channel-control"

abbrev pub desktop_channel_control_image_name : String
desktop_channel_control_image_name = "sandbox-tester/docker-sandbox:desktop-channel-control"

abbrev pub system_config_control_profile_name : String
system_config_control_profile_name = "system-config-control"

abbrev pub system_config_control_image_name : String
system_config_control_image_name = "sandbox-tester/docker-sandbox:system-config-control"

abbrev pub hardware_device_control_profile_name : String
hardware_device_control_profile_name = "hardware-device-control"

abbrev pub hardware_device_control_image_name : String
hardware_device_control_image_name = "sandbox-tester/docker-sandbox:hardware-device-control"

abbrev pub persistence_control_profile_name : String
persistence_control_profile_name = "persistence-control"

abbrev pub persistence_control_image_name : String
persistence_control_image_name = "sandbox-tester/docker-sandbox:persistence-control"

abbrev pub no_shell_access_profile_name : String
no_shell_access_profile_name = "no-shell-access"

abbrev pub no_shell_access_image_name : String
no_shell_access_image_name = "sandbox-tester/docker-sandbox:no-shell-access"
