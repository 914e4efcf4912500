-- ===== src/Docker/Profiles/PersistenceControl.antt =====
-- The `persistence-control` profile of src/docker_sandbox/profiles.py.
use sandbox_tester.Common.{[], ◌∷◌, ◌++◌}
use sandbox_tester.Docker.Models.{DockerProfile}
use sandbox_tester.Docker.Profiles.Names.{
  persistence_control_profile_name, persistence_control_image_name,
}
use sandbox_tester.Docker.Profiles.HardwareDeviceControl.{hardware_device_control}

unfoldable pub persistence_control : DockerProfile
unfolding hardware_device_control
persistence_control = record hardware_device_control {
  name = persistence_control_profile_name;
  description =
      "Start from the hardware-device-control hardening profile so user persistence configuration paths can be narrowed and measured independently.";
  image_name = persistence_control_image_name;
  readonly_persistence_directories =
      hardware_device_control.readonly_persistence_directories
      ++ ("/tmp/sandbox-home/.config/systemd/user" ∷ "/tmp/sandbox-config/systemd/user" ∷ []);
}
