-- ===== src/Docker/Profiles/Defaults.antt =====
-- The defaults of the dataclasses of src/docker_sandbox/models.py.
use sandbox_tester.Common.{ℕ, String, Option, none, some, [], ◌∷◌, true, false}
use sandbox_tester.Docker.Models.{
  LandlockPathRule, NetworkDnsPolicy, BrowserSurfaceProfile, EnvironmentVariablePolicy,
  SeccompProfile, DockerUlimit, DockerSysctl, DockerProfile,
}

-- `LandlockPathRule(path, access)`
abbrev pub rule : String → String → LandlockPathRule
rule path access = record { path = path; access = access }

-- `EnvironmentVariablePolicy(name, value)`
abbrev pub policy : String → Option String → EnvironmentVariablePolicy
policy name value = record { name = name; value = value }

-- `DockerUlimit(name, soft, hard)`
abbrev pub ulimit : String → ℕ → ℕ → DockerUlimit
ulimit name soft hard = record { name = name; soft = soft; hard = hard }

-- `DockerSysctl(name, value)`
abbrev pub sysctl : String → String → DockerSysctl
sysctl name value = record { name = name; value = value }

-- `NetworkDnsPolicy()`
abbrev pub default_dns_policy : NetworkDnsPolicy
default_dns_policy = record {
  use_gateway_as_dns = true;
  fallback_dns_address = "127.0.0.1";
  dns_options = "attempts:1" ∷ "timeout:1" ∷ [];
  blocked_hostnames =
      "host.docker.internal" ∷ "gateway.docker.internal" ∷ "kubernetes.docker.internal" ∷ [];
  blocked_hostname_address = "0.0.0.0";
}

-- `BrowserSurfaceProfile()`
abbrev pub default_browser_surface : BrowserSurfaceProfile
default_browser_surface = record {
  chromium_arguments =
      "--disable-background-networking" ∷ "--disable-breakpad"
      ∷ "--disable-component-extensions-with-background-pages" ∷ "--disable-component-update"
      ∷ "--disable-default-apps" ∷ "--disable-dev-shm-usage" ∷ "--disable-extensions"
      ∷ "--disable-features=AutofillServerCommunication,MediaRouter,OptimizationHints"
      ∷ "--disable-gpu" ∷ "--disable-hang-monitor" ∷ "--disable-popup-blocking"
      ∷ "--disable-prompt-on-repost" ∷ "--disable-sync" ∷ "--disable-translate"
      ∷ "--metrics-recording-only" ∷ "--mute-audio" ∷ "--no-default-browser-check"
      ∷ "--no-first-run" ∷ "--password-store=basic" ∷ "--use-mock-keychain" ∷ [];
  allow_camera_capture = false;
  allow_microphone_capture = false;
}

-- `SeccompProfile()`
abbrev pub default_seccomp_profile : SeccompProfile
default_seccomp_profile = record {
  denied_syscalls =
      "acct" ∷ "add_key" ∷ "bpf" ∷ "delete_module" ∷ "finit_module" ∷ "get_mempolicy"
      ∷ "init_module" ∷ "ioperm" ∷ "iopl" ∷ "keyctl" ∷ "kcmp" ∷ "lookup_dcookie" ∷ "mbind" ∷ "mount"
      ∷ "move_mount" ∷ "name_to_handle_at" ∷ "nfsservctl" ∷ "open_by_handle_at" ∷ "open_tree"
      ∷ "perf_event_open" ∷ "personality" ∷ "pidfd_getfd" ∷ "pivot_root" ∷ "process_vm_readv"
      ∷ "process_vm_writev" ∷ "ptrace" ∷ "quotactl" ∷ "reboot" ∷ "request_key" ∷ "set_mempolicy"
      ∷ "setns" ∷ "syslog" ∷ "umount" ∷ "umount2" ∷ "unshare" ∷ [];
  action = "SCMP_ACT_ERRNO";
  default_action = "SCMP_ACT_ALLOW";
}

-- `DockerProfile(name, description, image_name)`, with the default of every other field.
abbrev pub docker_profile : String → String → String → DockerProfile
docker_profile name description image_name = record {
  name = name;
  description = description;
  image_name = image_name;
  image_build_arguments = [];
  ipc_mode = some "host";
  shm_size = none;
  cgroupns_mode = some "private";
  pids_limit = some 512;
  memory = some "2g";
  memory_swap = some "2g";
  cpus = some "2";
  ulimits = ulimit "nofile" 4096 4096 ∷ ulimit "nproc" 512 512 ∷ [];
  sysctls = [];
  cap_drop = "ALL" ∷ [];
  cap_add = [];
  security_options = "no-new-privileges" ∷ [];
  seccomp_profile = some default_seccomp_profile;
  container_run_options = [];
  remote_run_root = "/tmp/sandbox-tester";
  allowed_directory_template = "{remote_run_directory}/allowed";
  denied_directory_template = "{remote_run_directory}/denied";
  readonly_denied_mount_target = none;
  landlock_rules = [];
  network_gateway = none;
  network_dns_policy = some default_dns_policy;
  socket_mounts = [];
  ssh_agent_socket = none;
  gpg_agent_socket = none;
  allow_desktop_automation_channel = false;
  remove_desktop_automation_tools = false;
  readonly_persistence_directories = [];
  browser_debugging = none;
  browser_surface = some default_browser_surface;
  environment = [];
  denied_executables = [];
  denied_executable_paths =
      "/opt/sandbox-tester/.venv/bin/pip" ∷ "/opt/sandbox-tester/.venv/bin/pip3"
      ∷ "/usr/local/bin/pip" ∷ "/usr/local/bin/pip3" ∷ "/usr/bin/apt" ∷ "/usr/bin/apt-get"
      ∷ "/usr/bin/bash" ∷ "/usr/bin/busctl" ∷ "/usr/bin/dbus-send" ∷ "/usr/bin/dpkg"
      ∷ "/usr/bin/dpkg-query" ∷ "/usr/bin/findmnt" ∷ "/usr/bin/git" ∷ "/usr/bin/gpg"
      ∷ "/usr/bin/gpg-connect-agent" ∷ "/usr/bin/gpgconf" ∷ "/usr/bin/journalctl"
      ∷ "/usr/bin/loginctl" ∷ "/usr/bin/mount" ∷ "/usr/bin/nice" ∷ "/usr/bin/nohup"
      ∷ "/usr/bin/nsenter" ∷ "/usr/bin/perl" ∷ "/usr/bin/renice" ∷ "/usr/bin/scp" ∷ "/usr/bin/sftp"
      ∷ "/usr/bin/setsid" ∷ "/usr/bin/ssh" ∷ "/usr/bin/ssh-add" ∷ "/usr/bin/su"
      ∷ "/usr/bin/systemd-run" ∷ "/usr/bin/systemctl" ∷ "/usr/bin/umount" ∷ "/usr/bin/unshare"
      ∷ "/usr/sbin/service" ∷ [];
}
