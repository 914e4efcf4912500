-- ===== src/Docker/ConfigData/Read.antt =====
-- How the test engine reads the configuration of the Docker harness.
use sandbox_tester.Common.{String, ◌<>◌, Option, none, some, ◌≡◌, refl, ok, string_eq}
use sandbox_tester.Common.Dict.{get}
use sandbox_tester.Common.PosixPath.{FilePath}
use sandbox_tester.Docker.ConfigData.{
  ConfigArguments, build_config_data, optional_text, get_browser_debugging_url,
  get_browser_executable, get_existing_browser_profile, get_browser_chromium_arguments,
  get_allow_camera_capture, get_allow_microphone_capture,
}
use sandbox_tester.Docker.Constants.{git_remote_url, remote_output_directory}
use sandbox_tester.Engine.Json.{Json, null, text}
use sandbox_tester.Engine.Context.{
  CapabilityContext, linux, from_json_data, path_from_json, operating_system_from_json,
  optional_path_from_json, truth, iterate,
}
use sandbox_tester.Engine.Context.RoundTrip.{values-items, str_of-text}
use sandbox_tester.Common.PosixPath

abbrev pub optional_path : Option String → Option FilePath
optional_path none = none
optional_path (some s) = some (PosixPath.parse s)

-- The context that the container's tests run in.
abbrev pub container_context : ConfigArguments → CapabilityContext
container_context a = record {
  working_directory = PosixPath.parse a.remote_run_directory;
  allowed_directory = PosixPath.parse a.allowed_directory;
  denied_directory = PosixPath.parse a.denied_directory;
  runtime_user_directory = PosixPath.parse ("/home/" <> a.guest_user);
  runtime_temp_directory = PosixPath.parse "/tmp";
  mounted_shared_directory = none;
  operating_system = linux;
  allowed_domain = text "example.com";
  denied_domain = text "example.net";
  allowed_local_address = null;
  denied_local_address = null;
  allowed_localnet_address = null;
  denied_localnet_address = null;
  allowed_intranet_target = null;
  denied_intranet_target = text "192.168.86.28";
  allowed_database_address = null;
  denied_database_address = null;
  container_runtime_socket = null;
  local_dev_server_url = null;
  local_model_server_url = null;
  metadata_endpoint_url = null;
  dns_exfiltration_domain = text "c2FuZGJveC10ZXN0ZXI.example.com";
  http_exfiltration_domain = text "example.com";
  http_exfiltration_header = text "exfiltration=example";
  websocket_exfiltration_url = text "wss://echo.websocket.org";
  smtp_exfiltration_url = null;
  ssh_agent_socket = optional_text a.ssh_agent_socket;
  browser_debugging_url = optional_text (get_browser_debugging_url a.browser_debugging);
  browser_executable = optional_path (get_browser_executable a.browser_debugging);
  existing_browser_profile = optional_path (get_existing_browser_profile a.browser_debugging);
  browser_chromium_arguments = get_browser_chromium_arguments a.browser_surface;
  allowed_git_repository = none;
  denied_git_repository = none;
  git_remote_url = text git_remote_url;
  output_directory = some (PosixPath.parse remote_output_directory);
  allow_camera_capture = get_allow_camera_capture a.browser_surface;
  allow_microphone_capture = get_allow_microphone_capture a.browser_surface;
}

optional_path_from_json-optional_text :
    (s : Option String) → optional_path_from_json (optional_text s) ≡ ok (optional_path s)
unfolding optional_path_from_json path_from_json
optional_path_from_json-optional_text none = refl
optional_path_from_json-optional_text (some s) = refl

-- The test engine reads the configuration that the Docker harness builds, and takes it for the context
-- of the container: the directories, the Linux system, the fixed targets, and the browser's settings
-- of the profile.
pub from_json_data-build_config_data :
    (container_text : Json → String) (a : ConfigArguments)
    → from_json_data container_text (build_config_data a) ≡ ok (container_context a)
unfolding from_json_data build_config_data get string_eq iterate truth path_from_json
    operating_system_from_json optional_path_from_json
from_json_data-build_config_data container_text a =
    rw
      (
        optional_path_from_json-optional_text (get_browser_executable a.browser_debugging),
        optional_path_from_json-optional_text (get_existing_browser_profile a.browser_debugging),
        values-items,
        str_of-text,
      )
      refl
