-- ===== src/Docker/Constants.antt =====
-- The constants at the top of src/docker_sandbox/sandbox_container.py.
use sandbox_tester.Common.{String, List, [], ◌∷◌}

abbrev pub docker_executable : String
docker_executable = "docker"

abbrev pub remote_output_directory : String
remote_output_directory = "/sandbox-output"

abbrev pub remote_landlock_policy_path : String
remote_landlock_policy_path = "/sandbox-output/landlock-policy.json"

abbrev pub remote_source_directory : String
remote_source_directory = "/sandbox-source/src"

abbrev pub gateway_container_name_prefix : String
gateway_container_name_prefix = "sandbox-tester-gateway"

abbrev pub network_name_prefix : String
network_name_prefix = "sandbox-tester-net"

abbrev pub readonly_denied_source_directory : String
readonly_denied_source_directory = "readonly-denied"

abbrev pub squid_configuration_file_name : String
squid_configuration_file_name = "squid.conf"

abbrev pub seccomp_profile_file_name : String
seccomp_profile_file_name = "seccomp-profile.json"

abbrev pub denied_executable_source_directory : String
denied_executable_source_directory = "denied-executables"

abbrev pub readonly_persistence_source_directory : String
readonly_persistence_source_directory = "readonly-persistence"

abbrev pub desktop_automation_environment_names : List String
desktop_automation_environment_names =
    "DBUS_SESSION_BUS_ADDRESS" ∷ "DISPLAY" ∷ "WAYLAND_DISPLAY" ∷ "XAUTHORITY" ∷ []

abbrev pub desktop_automation_executable_paths : List String
desktop_automation_executable_paths =
    "/usr/bin/busctl" ∷ "/usr/bin/dbus-send" ∷ "/usr/bin/gdbus" ∷ "/usr/bin/qdbus"
    ∷ "/usr/bin/wmctrl" ∷ "/usr/bin/xdotool" ∷ []

abbrev pub allowed_file_content : String
allowed_file_content = "This is a test file for the allowed directory."

abbrev pub denied_file_content : String
denied_file_content = "This is a test file for the denied directory."

abbrev pub hidden_allowed_file_content : String
hidden_allowed_file_content = "This is a hidden file."

abbrev pub hidden_denied_file_content : String
hidden_denied_file_content = "This is a hidden file in the denied directory."

abbrev pub git_remote_url : String
git_remote_url = "https://github.com/SomeNewKid/ScratchpadOne.git"

abbrev pub local_environment_value : String
local_environment_value = "[local]"
