-- ===== src/Docker/Profiles/DesktopChannelControl.antt =====
-- The `desktop-channel-control` profile of src/docker_sandbox/profiles.py.
use sandbox_tester.Common.{[], ◌∷◌, true}
use sandbox_tester.Docker.Models.{DockerProfile}
use sandbox_tester.Docker.Profiles.Names.{
  desktop_channel_control_profile_name, desktop_channel_control_image_name,
}
use sandbox_tester.Docker.Profiles.NetworkSocketControl.{network_socket_control}

unfoldable pub desktop_channel_control : DockerProfile
unfolding network_socket_control
desktop_channel_control = record network_socket_control {
  name = desktop_channel_control_profile_name;
  description =
      "Start from the network-socket-control hardening profile so desktop automation channel controls can be added and measured independently.";
  image_name = desktop_channel_control_image_name;
  image_build_arguments =
      "--build-arg" ∷ "SANDBOX_MINIMIZE_IMAGE=true" ∷ "--build-arg"
      ∷ "SANDBOX_REMOVE_PYTHON_PACKAGING=true" ∷ "--build-arg"
      ∷ "SANDBOX_REMOVE_DESKTOP_AUTOMATION=true" ∷ [];
  remove_desktop_automation_tools = true;
}
