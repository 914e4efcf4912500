-- ===== src/Docker/Profiles/HardwareDeviceControl.antt =====
-- The `hardware-device-control` profile of src/docker_sandbox/profiles.py.
use sandbox_tester.Common.{some, [], ◌∷◌, ◌++◌}
use sandbox_tester.Docker.Models.{DockerProfile}
use sandbox_tester.Docker.Profiles.Defaults.{policy}
use sandbox_tester.Docker.Profiles.Names.{
  hardware_device_control_profile_name, hardware_device_control_image_name,
}
use sandbox_tester.Docker.Profiles.SystemConfigControl.{system_config_control}

unfoldable pub hardware_device_control : DockerProfile
unfolding system_config_control
hardware_device_control = record system_config_control {
  name = hardware_device_control_profile_name;
  description =
      "Start from the system-config-control hardening profile so hardware and peripheral device enumeration controls can be added and measured independently.";
  image_name = hardware_device_control_image_name;
  environment =
      system_config_control.environment
      ++ (policy "SANDBOX_DENY_HARDWARE_DEVICE_ENUMERATION" (some "1") ∷ []);
}
