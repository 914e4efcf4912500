-- ===== src/Docker/Profiles/SystemConfigControl.antt =====
-- The `system-config-control` profile of src/docker_sandbox/profiles.py.
use sandbox_tester.Common.{[], ◌∷◌}
use sandbox_tester.Docker.Models.{DockerProfile}
use sandbox_tester.Docker.Profiles.Names.{
  system_config_control_profile_name, system_config_control_image_name,
}
use sandbox_tester.Docker.Profiles.DesktopChannelControl.{desktop_channel_control}

unfoldable pub system_config_control : DockerProfile
unfolding desktop_channel_control
system_config_control = record desktop_channel_control {
  name = system_config_control_profile_name;
  description =
      "Start from the desktop-channel-control hardening profile so system configuration and startup-item controls can be added and measured independently.";
  image_name = system_config_control_image_name;
  image_build_arguments =
      "--build-arg" ∷ "SANDBOX_MINIMIZE_IMAGE=true" ∷ "--build-arg"
      ∷ "SANDBOX_REMOVE_PYTHON_PACKAGING=true" ∷ "--build-arg"
      ∷ "SANDBOX_REMOVE_DESKTOP_AUTOMATION=true" ∷ "--build-arg"
      ∷ "SANDBOX_REMOVE_PACKAGE_METADATA=true" ∷ [];
  readonly_persistence_directories =
      "/tmp/sandbox-home/.config/autostart" ∷ "/tmp/sandbox-config/autostart" ∷ [];
}
