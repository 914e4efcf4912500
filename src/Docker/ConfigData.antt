-- ===== src/Docker/ConfigData.antt =====
-- The configuration that the harness writes for the test engine: `_build_config_data` of
-- src/docker_sandbox/sandbox_container.py.
pub mod Read
use mathlib.Core.List.{map}
use sandbox_tester.Common.{String, ◌<>◌, Bool, true, Option, none, some, List, [], ◌∷◌}
use sandbox_tester.Common.Dict.{Dict}
use sandbox_tester.Docker.Constants.{git_remote_url, remote_output_directory}
use sandbox_tester.Docker.Models.{BrowserDebuggingProfile, BrowserSurfaceProfile}
use sandbox_tester.Engine.Json.{Json, null, boolean, text, array, items}

abbrev pub optional_text : Option String → Json
optional_text none = null
optional_text (some s) = text s

unfoldable pub get_browser_debugging_url : Option BrowserDebuggingProfile → Option String
get_browser_debugging_url none = none
get_browser_debugging_url (some p) = p.debugging_url

unfoldable pub get_browser_executable : Option BrowserDebuggingProfile → Option String
get_browser_executable none = none
get_browser_executable (some p) = p.browser_executable

unfoldable pub get_existing_browser_profile : Option BrowserDebuggingProfile → Option String
get_existing_browser_profile none = none
get_existing_browser_profile (some p) = p.existing_browser_profile

unfoldable pub get_browser_chromium_arguments : Option BrowserSurfaceProfile → List String
get_browser_chromium_arguments none = []
get_browser_chromium_arguments (some p) = p.chromium_arguments

unfoldable pub get_allow_camera_capture : Option BrowserSurfaceProfile → Bool
get_allow_camera_capture none = true
get_allow_camera_capture (some p) = p.allow_camera_capture

unfoldable pub get_allow_microphone_capture : Option BrowserSurfaceProfile → Bool
get_allow_microphone_capture none = true
get_allow_microphone_capture (some p) = p.allow_microphone_capture

-- The arguments of the function.
pub record ConfigArguments : Type 0 where
  pub remote_run_directory : String
  pub allowed_directory : String
  pub denied_directory : String
  pub guest_user : String
  pub ssh_agent_socket : Option String
  pub browser_debugging : Option BrowserDebuggingProfile
  pub browser_surface : Option BrowserSurfaceProfile

unfoldable pub build_config_data : ConfigArguments → Dict Json
unfolding get_browser_debugging_url get_browser_executable get_existing_browser_profile
    get_browser_chromium_arguments get_allow_camera_capture get_allow_microphone_capture
build_config_data a =
    ("working_directory", text a.remote_run_directory)
    ∷ ("allowed_directory", text a.allowed_directory)
    ∷ ("denied_directory", text a.denied_directory)
    ∷ ("runtime_user_directory", text ("/home/" <> a.guest_user))
    ∷ ("runtime_temp_directory", text "/tmp")
    ∷ ("mounted_shared_directory", null)
    ∷ ("operating_system", text "Linux")
    ∷ ("allowed_domain", text "example.com")
    ∷ ("denied_domain", text "example.net")
    ∷ ("allowed_local_address", null)
    ∷ ("denied_local_address", null)
    ∷ ("allowed_localnet_address", null)
    ∷ ("denied_localnet_address", null)
    ∷ ("allowed_intranet_target", null)
    ∷ ("denied_intranet_target", text "192.168.86.28")
    ∷ ("allowed_database_address", null)
    ∷ ("denied_database_address", null)
    ∷ ("container_runtime_socket", null)
    ∷ ("local_dev_server_url", null)
    ∷ ("local_model_server_url", null)
    ∷ ("metadata_endpoint_url", null)
    ∷ ("dns_exfiltration_domain", text "c2FuZGJveC10ZXN0ZXI.example.com")
    ∷ ("http_exfiltration_domain", text "example.com")
    ∷ ("http_exfiltration_header", text "exfiltration=example")
    ∷ ("websocket_exfiltration_url", text "wss://echo.websocket.org")
    ∷ ("smtp_exfiltration_url", null)
    ∷ ("ssh_agent_socket", optional_text a.ssh_agent_socket)
    ∷ ("browser_debugging_url", optional_text (get_browser_debugging_url a.browser_debugging))
    ∷ ("browser_executable", optional_text (get_browser_executable a.browser_debugging))
    ∷ ("existing_browser_profile", optional_text (get_existing_browser_profile a.browser_debugging))
    ∷ (
      "browser_chromium_arguments",
      array (items (map text (get_browser_chromium_arguments a.browser_surface))),
    )
    ∷ ("allowed_git_repository", null)
    ∷ ("denied_git_repository", null)
    ∷ ("git_remote_url", text git_remote_url)
    ∷ ("allow_camera_capture", boolean (get_allow_camera_capture a.browser_surface))
    ∷ ("allow_microphone_capture", boolean (get_allow_microphone_capture a.browser_surface))
    ∷ ("output_directory", text remote_output_directory)
    ∷ []
