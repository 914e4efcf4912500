-- ===== src/Engine/Context.antt =====
-- The capability context and its JSON data: `OperatingSystem` and `CapabilityContext` of
-- src/sandbox_tester/testing.py. Python does not check the annotation `str | None`, so a field that has
-- it holds any value. Paths are those of POSIX. The data have no numbers, which no field is written as.
pub mod RoundTrip
pub mod Accepts
use mathlib.Core.List.{map}
use sandbox_tester.Common.{
  String, Bool, true, false, Option, none, some, List, [], ◌∷◌, Result, ok, err, string_eq, ◌>>=◌,
  if◌then◌else◌, key_error, type_error, ◌==◌, runtime_error, value_error, ◌<>◌,
}
use sandbox_tester.Common.Dict.{Dict, get}
use sandbox_tester.Common.PosixPath.{FilePath}
use sandbox_tester.Engine.Json.{
  Json, null, boolean, text, array, object, Items, items, Members, item, member, no_items,
  no_members,
}
use sandbox_tester.Common.PosixPath

pub data OperatingSystem : Type 0 where
  windows linux : OperatingSystem

pub record CapabilityContext : Type 0 where
  pub working_directory : FilePath
  pub allowed_directory : FilePath
  pub denied_directory : FilePath
  pub runtime_user_directory : FilePath
  pub runtime_temp_directory : FilePath
  pub mounted_shared_directory : Option FilePath
  pub operating_system : OperatingSystem
  pub allowed_domain : Json
  pub denied_domain : Json
  pub allowed_local_address : Json
  pub denied_local_address : Json
  pub allowed_localnet_address : Json
  pub denied_localnet_address : Json
  pub allowed_intranet_target : Json
  pub denied_intranet_target : Json
  pub allowed_database_address : Json
  pub denied_database_address : Json
  pub container_runtime_socket : Json
  pub local_dev_server_url : Json
  pub local_model_server_url : Json
  pub metadata_endpoint_url : Json
  pub dns_exfiltration_domain : Json
  pub http_exfiltration_domain : Json
  pub http_exfiltration_header : Json
  pub websocket_exfiltration_url : Json
  pub smtp_exfiltration_url : Json
  pub ssh_agent_socket : Json
  pub browser_debugging_url : Json
  pub browser_executable : Option FilePath
  pub existing_browser_profile : Option FilePath
  pub browser_chromium_arguments : List String
  pub allowed_git_repository : Option FilePath
  pub denied_git_repository : Option FilePath
  pub git_remote_url : Json
  pub output_directory : Option FilePath
  pub allow_camera_capture : Bool
  pub allow_microphone_capture : Bool

-- The value of an `OperatingSystem`.
unfoldable pub operating_system_text : OperatingSystem → String
operating_system_text windows = "Windows"
operating_system_text linux = "Linux"

-- `platform.system()`, read by `from_current_environment`.
unfoldable pub operating_system_of : String → Result OperatingSystem
operating_system_of name =
    if name == "Windows"
    then ok windows
    else if name == "Linux"
    then ok linux
    else err (runtime_error ("Unsupported operating system: " <> name))

unfoldable pub path_to_json : FilePath → Json
path_to_json path = text (PosixPath.to_text path)

unfoldable pub optional_path_to_json : Option FilePath → Json
optional_path_to_json none = null
optional_path_to_json (some path) = path_to_json path

-- `Path(value)` takes a text only.
unfoldable pub path_from_json : Json → Result FilePath
path_from_json (text s) = ok (PosixPath.parse s)
path_from_json _ = err (type_error "argument should be a str")

unfoldable pub optional_path_from_json : Json → Result (Option FilePath)
optional_path_from_json null = ok none
optional_path_from_json j = do path ← path_from_json j; ok (some path)

-- `OperatingSystem(value)`
unfoldable pub operating_system_from_json : Json → Result OperatingSystem
operating_system_from_json (text s) =
    if s == "Windows"
    then ok windows
    else if s == "Linux"
    then ok linux
    else err (value_error (s <> " is not a valid OperatingSystem"))
operating_system_from_json _ = err (value_error "not a valid OperatingSystem")

unfoldable pub to_json_data : CapabilityContext → Dict Json
to_json_data c =
    ("working_directory", path_to_json c.working_directory)
    ∷ ("allowed_directory", path_to_json c.allowed_directory)
    ∷ ("denied_directory", path_to_json c.denied_directory)
    ∷ ("runtime_user_directory", path_to_json c.runtime_user_directory)
    ∷ ("runtime_temp_directory", path_to_json c.runtime_temp_directory)
    ∷ ("mounted_shared_directory", optional_path_to_json c.mounted_shared_directory)
    ∷ ("operating_system", text (operating_system_text c.operating_system))
    ∷ ("allowed_domain", c.allowed_domain)
    ∷ ("denied_domain", c.denied_domain)
    ∷ ("allowed_local_address", c.allowed_local_address)
    ∷ ("denied_local_address", c.denied_local_address)
    ∷ ("allowed_localnet_address", c.allowed_localnet_address)
    ∷ ("denied_localnet_address", c.denied_localnet_address)
    ∷ ("allowed_intranet_target", c.allowed_intranet_target)
    ∷ ("denied_intranet_target", c.denied_intranet_target)
    ∷ ("allowed_database_address", c.allowed_database_address)
    ∷ ("denied_database_address", c.denied_database_address)
    ∷ ("container_runtime_socket", c.container_runtime_socket)
    ∷ ("local_dev_server_url", c.local_dev_server_url)
    ∷ ("local_model_server_url", c.local_model_server_url)
    ∷ ("metadata_endpoint_url", c.metadata_endpoint_url)
    ∷ ("dns_exfiltration_domain", c.dns_exfiltration_domain)
    ∷ ("http_exfiltration_domain", c.http_exfiltration_domain)
    ∷ ("http_exfiltration_header", c.http_exfiltration_header)
    ∷ ("websocket_exfiltration_url", c.websocket_exfiltration_url)
    ∷ ("smtp_exfiltration_url", c.smtp_exfiltration_url)
    ∷ ("ssh_agent_socket", c.ssh_agent_socket)
    ∷ ("browser_debugging_url", c.browser_debugging_url)
    ∷ ("browser_executable", optional_path_to_json c.browser_executable)
    ∷ ("existing_browser_profile", optional_path_to_json c.existing_browser_profile)
    ∷ ("browser_chromium_arguments", array (items (map text c.browser_chromium_arguments)))
    ∷ ("allowed_git_repository", optional_path_to_json c.allowed_git_repository)
    ∷ ("denied_git_repository", optional_path_to_json c.denied_git_repository)
    ∷ ("git_remote_url", c.git_remote_url)
    ∷ ("output_directory", optional_path_to_json c.output_directory)
    ∷ ("allow_camera_capture", boolean c.allow_camera_capture)
    ∷ ("allow_microphone_capture", boolean c.allow_microphone_capture)
    ∷ []

-- `data[key]`
abbrev pub required : Option Json → String → Result Json
required none key = err (key_error key)
required (some j) key = ok j

-- `data.get(key)`
abbrev pub or_null : Option Json → Json
or_null none = null
or_null (some j) = j

-- `bool(value)`
unfoldable pub truth : Json → Bool
truth null = false
truth (boolean b) = b
truth (text String.[]) = false
truth (text (String.◌∷◌ c s)) = true
truth (array no_items) = false
truth (array (item j js)) = true
truth (object no_members) = false
truth (object (member key j js)) = true

abbrev pub characters : String → List Json
characters String.[] = []
characters (String.◌∷◌ c s) = text (String.◌∷◌ c "") ∷ characters s

abbrev pub values : Items → List Json
values no_items = []
values (item j js) = j ∷ values js

abbrev pub member_keys : Members → List Json
member_keys no_members = []
member_keys (member key j js) = text key ∷ member_keys js

-- `for argument in value`, which also takes the characters of a text and the keys of a dict.
unfoldable pub iterate : Json → Result (List Json)
iterate null = err (type_error "'NoneType' object is not iterable")
iterate (boolean b) = err (type_error "'bool' object is not iterable")
iterate (text s) = ok (characters s)
iterate (array js) = ok (values js)
iterate (object js) = ok (member_keys js)

-- `data.get("browser_chromium_arguments", ())`
abbrev pub arguments_of : Option Json → Result (List Json)
arguments_of none = ok []
arguments_of (some j) = iterate j

-- `str` of a list and of a dict is given.
module _ (container_text : Json → String) where
  -- `str(value)`
  unfoldable pub str_of : Json → String
  str_of null = "None"
  str_of (boolean true) = "True"
  str_of (boolean false) = "False"
  str_of (text s) = s
  str_of (array js) = container_text (array js)
  str_of (object js) = container_text (object js)

  -- The fields are read in the order of the class's call, so that the first bad one is the one raised.
  unfoldable pub from_json_data : Dict Json → Result CapabilityContext
  from_json_data entries = do
    working_directory_value ← required (get entries "working_directory") "working_directory"
    working_directory ← path_from_json working_directory_value
    allowed_directory_value ← required (get entries "allowed_directory") "allowed_directory"
    allowed_directory ← path_from_json allowed_directory_value
    denied_directory_value ← required (get entries "denied_directory") "denied_directory"
    denied_directory ← path_from_json denied_directory_value
    runtime_user_directory_value ←
        required (get entries "runtime_user_directory") "runtime_user_directory"
    runtime_user_directory ← path_from_json runtime_user_directory_value
    runtime_temp_directory_value ←
        required (get entries "runtime_temp_directory") "runtime_temp_directory"
    runtime_temp_directory ← path_from_json runtime_temp_directory_value
    mounted_shared_directory ←
        optional_path_from_json (or_null (get entries "mounted_shared_directory"))
    operating_system_value ← required (get entries "operating_system") "operating_system"
    operating_system ← operating_system_from_json operating_system_value
    browser_executable ← optional_path_from_json (or_null (get entries "browser_executable"))
    existing_browser_profile ←
        optional_path_from_json (or_null (get entries "existing_browser_profile"))
    browser_chromium_arguments ← arguments_of (get entries "browser_chromium_arguments")
    allowed_git_repository ←
        optional_path_from_json (or_null (get entries "allowed_git_repository"))
    denied_git_repository ← optional_path_from_json (or_null (get entries "denied_git_repository"))
    output_directory ← optional_path_from_json (or_null (get entries "output_directory"))
    ok (record {
      working_directory = working_directory;
      allowed_directory = allowed_directory;
      denied_directory = denied_directory;
      runtime_user_directory = runtime_user_directory;
      runtime_temp_directory = runtime_temp_directory;
      mounted_shared_directory = mounted_shared_directory;
      operating_system = operating_system;
      allowed_domain = or_null (get entries "allowed_domain");
      denied_domain = or_null (get entries "denied_domain");
      allowed_local_address = or_null (get entries "allowed_local_address");
      denied_local_address = or_null (get entries "denied_local_address");
      allowed_localnet_address = or_null (get entries "allowed_localnet_address");
      denied_localnet_address = or_null (get entries "denied_localnet_address");
      allowed_intranet_target = or_null (get entries "allowed_intranet_target");
      denied_intranet_target = or_null (get entries "denied_intranet_target");
      allowed_database_address = or_null (get entries "allowed_database_address");
      denied_database_address = or_null (get entries "denied_database_address");
      container_runtime_socket = or_null (get entries "container_runtime_socket");
      local_dev_server_url = or_null (get entries "local_dev_server_url");
      local_model_server_url = or_null (get entries "local_model_server_url");
      metadata_endpoint_url = or_null (get entries "metadata_endpoint_url");
      dns_exfiltration_domain = or_null (get entries "dns_exfiltration_domain");
      http_exfiltration_domain = or_null (get entries "http_exfiltration_domain");
      http_exfiltration_header = or_null (get entries "http_exfiltration_header");
      websocket_exfiltration_url = or_null (get entries "websocket_exfiltration_url");
      smtp_exfiltration_url = or_null (get entries "smtp_exfiltration_url");
      ssh_agent_socket = or_null (get entries "ssh_agent_socket");
      browser_debugging_url = or_null (get entries "browser_debugging_url");
      browser_executable = browser_executable;
      existing_browser_profile = existing_browser_profile;
      browser_chromium_arguments = map str_of browser_chromium_arguments;
      allowed_git_repository = allowed_git_repository;
      denied_git_repository = denied_git_repository;
      git_remote_url = or_null (get entries "git_remote_url");
      output_directory = output_directory;
      allow_camera_capture = truth (or_null (get entries "allow_camera_capture"));
      allow_microphone_capture = truth (or_null (get entries "allow_microphone_capture"));
    })
