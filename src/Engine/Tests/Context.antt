-- ===== src/Engine/Tests/Context.antt =====
-- Tests of the capability context.
use sandbox_tester.Common.{
  number_eq, ◌≡◌, refl, true, false, [], ◌∷◌, some, none, ok, is_ok, string_eq, String,
}
use sandbox_tester.Common.Text.{any_char}
use sandbox_tester.Common.Dict.{Dict, get}
use sandbox_tester.Common.PosixPath.{FilePath, absolute}
use sandbox_tester.Engine.Json.{Json, null, text}
use sandbox_tester.Engine.Context.{CapabilityContext, linux, from_json_data, to_json_data}
use sandbox_tester.Engine.Context.RoundTrip.{from_json_data-to_json_data}
use sandbox_tester.Engine.Context.Accepts.{is_ok-from_json_data, accepts}

-- `/work` and a directory in it.
abbrev work : FilePath
work = record { root = absolute; parts = "work" ∷ [] }

abbrev shared : FilePath
shared = record { root = absolute; parts = "work" ∷ "shared" ∷ [] }

abbrev container_text : Json → String
container_text j = "{}"

abbrev context : CapabilityContext
context = record {
  working_directory = work;
  allowed_directory = work;
  denied_directory = work;
  runtime_user_directory = work;
  runtime_temp_directory = work;
  mounted_shared_directory = some shared;
  operating_system = linux;
  allowed_domain = text "example.org";
  denied_domain = null;
  allowed_local_address = null;
  denied_local_address = null;
  allowed_localnet_address = null;
  denied_localnet_address = null;
  allowed_intranet_target = null;
  denied_intranet_target = null;
  allowed_database_address = null;
  denied_database_address = null;
  container_runtime_socket = null;
  local_dev_server_url = null;
  local_model_server_url = null;
  metadata_endpoint_url = null;
  dns_exfiltration_domain = null;
  http_exfiltration_domain = null;
  http_exfiltration_header = null;
  websocket_exfiltration_url = null;
  smtp_exfiltration_url = null;
  ssh_agent_socket = null;
  browser_debugging_url = null;
  browser_executable = none;
  existing_browser_profile = none;
  browser_chromium_arguments = "--headless" ∷ [];
  allowed_git_repository = none;
  denied_git_repository = none;
  git_remote_url = null;
  output_directory = none;
  allow_camera_capture = true;
  allow_microphone_capture = false;
}

from_json_data-to_json_data_example :
    from_json_data container_text (to_json_data context) ≡ ok context
unfolding string_eq any_char number_eq
from_json_data-to_json_data_example = from_json_data-to_json_data container_text context (
  ((refl, refl), tt),
  ((refl, refl), tt),
  ((refl, refl), tt),
  ((refl, refl), tt),
  ((refl, refl), tt),
  ((refl, refl), ((refl, refl), tt)),
  tt,
  tt,
  tt,
  tt,
  tt,
)

-- No working directory.
abbrev incomplete : Dict Json
incomplete = ("allowed_directory", text "/work") ∷ []

is_ok-from_json_data_example : is_ok (from_json_data container_text incomplete) ≡ accepts incomplete
is_ok-from_json_data_example = is_ok-from_json_data container_text incomplete

rejected : accepts incomplete ≡ false
unfolding get string_eq
rejected = refl
