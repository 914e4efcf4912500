-- ===== src/Docker/Tests/Config.antt =====
-- A test of the configuration of the Docker harness.
use sandbox_tester.Common.{◌≡◌, none, some, [], ◌∷◌, ok, true, false}
use sandbox_tester.Docker.ConfigData.{ConfigArguments, build_config_data}
use sandbox_tester.Docker.ConfigData.Read.{container_context, from_json_data-build_config_data}
use sandbox_tester.Engine.Context.{from_json_data}

abbrev arguments : ConfigArguments
arguments = record {
  remote_run_directory = "/tmp/run-1";
  allowed_directory = "/tmp/run-1/allowed";
  denied_directory = "/tmp/run-1/denied";
  guest_user = "agent";
  ssh_agent_socket = some "/run/ssh.sock";
  browser_debugging = some (record {
    debugging_url = some "http://localhost:9222";
    browser_executable = some "/usr/bin/chromium";
    existing_browser_profile = none;
  });
  browser_surface = some (record {
    chromium_arguments = "--headless" ∷ [];
    allow_camera_capture = false;
    allow_microphone_capture = true;
  });
}

from_json_data-build_config_data_example :
    from_json_data (λ j. "") (build_config_data arguments) ≡ ok (container_context arguments)
from_json_data-build_config_data_example = from_json_data-build_config_data (λ j. "") arguments
