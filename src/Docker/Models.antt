-- ===== src/Docker/Models.antt =====
-- The data of src/docker_sandbox/models.py: the Docker profile, the image and the run.
use sandbox_tester.Common.{ℕ, String, Bool, Option, List}
use sandbox_tester.Common.PosixPath.{FilePath}
use sandbox_tester.Groups.Machine.{ℤ}

pub record LandlockPathRule : Type 0 where
  pub path : String
  pub access : String

pub record NetworkGatewayProfile : Type 0 where
  pub image_name : String
  pub proxy_host : String
  pub proxy_port : ℕ
  pub allowed_domains : List String
  pub allowed_ip_addresses : List String
  pub no_proxy_hosts : List String

pub record NetworkDnsPolicy : Type 0 where
  pub use_gateway_as_dns : Bool
  pub fallback_dns_address : String
  pub dns_options : List String
  pub blocked_hostnames : List String
  pub blocked_hostname_address : String

pub record SocketMount : Type 0 where
  pub source_path : FilePath
  pub target_path : String
  pub readonly : Bool

pub record AgentSocketForward : Type 0 where
  pub source_path : FilePath
  pub target_path : String

pub record BrowserDebuggingProfile : Type 0 where
  pub debugging_url : Option String
  pub browser_executable : Option String
  pub existing_browser_profile : Option String

pub record BrowserSurfaceProfile : Type 0 where
  pub chromium_arguments : List String
  pub allow_camera_capture : Bool
  pub allow_microphone_capture : Bool

pub record EnvironmentVariablePolicy : Type 0 where
  pub name : String
  pub value : Option String

pub record SeccompProfile : Type 0 where
  pub denied_syscalls : List String
  pub action : String
  pub default_action : String

pub record DockerUlimit : Type 0 where
  pub name : String
  pub soft : ℕ
  pub hard : ℕ

pub record DockerSysctl : Type 0 where
  pub name : String
  pub value : String

pub record DockerProfile : Type 0 where
  pub name : String
  pub description : String
  pub image_name : String
  pub image_build_arguments : List String
  pub ipc_mode : Option String
  pub shm_size : Option String
  pub cgroupns_mode : Option String
  pub pids_limit : Option ℕ
  pub memory : Option String
  pub memory_swap : Option String
  pub cpus : Option String
  pub ulimits : List DockerUlimit
  pub sysctls : List DockerSysctl
  pub cap_drop : List String
  pub cap_add : List String
  pub security_options : List String
  pub seccomp_profile : Option SeccompProfile
  pub container_run_options : List String
  pub remote_run_root : String
  pub allowed_directory_template : String
  pub denied_directory_template : String
  pub readonly_denied_mount_target : Option String
  pub landlock_rules : List LandlockPathRule
  pub network_gateway : Option NetworkGatewayProfile
  pub network_dns_policy : Option NetworkDnsPolicy
  pub socket_mounts : List SocketMount
  pub ssh_agent_socket : Option AgentSocketForward
  pub gpg_agent_socket : Option AgentSocketForward
  pub allow_desktop_automation_channel : Bool
  pub remove_desktop_automation_tools : Bool
  pub readonly_persistence_directories : List String
  pub browser_debugging : Option BrowserDebuggingProfile
  pub browser_surface : Option BrowserSurfaceProfile
  pub environment : List EnvironmentVariablePolicy
  pub denied_executables : List String
  pub denied_executable_paths : List String

pub data DockerImageStatus : Type 0 where
  exists created build_failed docker_missing dockerfile_missing : DockerImageStatus

pub record DockerConfiguration : Type 0 where
  pub base_directory : FilePath
  pub dockerfile_path : FilePath
  pub build_context : FilePath
  pub guest_user : String
  pub profile : DockerProfile

pub record DockerImageResult : Type 0 where
  pub status : DockerImageStatus
  pub image_name : String
  pub dockerfile_path : FilePath
  pub command : Option (List String)

pub record DockerRunResult : Type 0 where
  pub image_name : String
  pub profile_name : String
  pub container_name : String
  pub run_directory : FilePath
  pub command : List String
  pub remove_command : List String
  pub exit_code : ℤ
  pub stdout : String
  pub stderr : String
  pub network_name : Option String
  pub gateway_container_name : Option String
  pub gateway_ip_address : Option String
  pub gateway_commands : Option (List (List String))
  pub gateway_cleanup_commands : Option (List (List String))
