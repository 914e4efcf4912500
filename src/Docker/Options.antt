-- ===== src/Docker/Options.antt =====
-- The options of `docker run` that the profile asks for, from src/docker_sandbox/sandbox_container.py.
use mathlib.Core.List.{map}
use sandbox_tester.Common.{
  ℕ, String, ◌<>◌, Option, none, some, List, [], ◌∷◌, ◌++◌, if◌then◌else◌, flat_map, traverse,
  Result, ok, ◌>>=◌, ◌>>◌,
}
use sandbox_tester.Common.PosixPath.{FilePath}
use sandbox_tester.Common.Text.{decimal}
use sandbox_tester.Docker.Constants.{
  remote_source_directory, seccomp_profile_file_name, readonly_denied_source_directory,
}
use sandbox_tester.Docker.Executables.{
  validate_container_directory, build_readonly_persistence_source_directory, mount_options,
}
use sandbox_tester.Docker.Models.{
  NetworkDnsPolicy, SocketMount, AgentSocketForward, DockerUlimit, DockerSysctl, SeccompProfile,
  DockerConfiguration,
}
use sandbox_tester.Common.PosixPath

-- `if value is not None: options.extend([name, value])`
abbrev pub option : String → Option String → List String
option name none = []
option name (some value) = name ∷ value ∷ []

-- `if value is not None: options.append(f"{name}={value}")`
abbrev pub joined_option : String → Option String → List String
joined_option name none = []
joined_option name (some value) = (name <> ("=" <> value)) ∷ []

unfoldable pub build_ipc_options : DockerConfiguration → List String
build_ipc_options c =
    joined_option "--ipc" c.profile.ipc_mode ++ option "--shm-size" c.profile.shm_size

abbrev pub decimal_option : Option ℕ → Option String
decimal_option none = none
decimal_option (some n) = some (decimal n)

unfoldable pub ulimit_options : DockerUlimit → List String
unfolding decimal
ulimit_options u =
    "--ulimit" ∷ (u.name <> ("=" <> (decimal u.soft <> (":" <> decimal u.hard)))) ∷ []

abbrev pub sysctl_options : DockerSysctl → List String
sysctl_options s = "--sysctl" ∷ (s.name <> ("=" <> s.value)) ∷ []

unfoldable pub seccomp_options : FilePath → Option SeccompProfile → List String
unfolding PosixPath.child PosixPath.to_text
seccomp_options run_directory none = []
seccomp_options run_directory (some profile) =
    "--security-opt"
    ∷ ("seccomp=" <> PosixPath.to_text (PosixPath.child run_directory seccomp_profile_file_name))
    ∷ []

unfoldable pub build_security_options : DockerConfiguration → FilePath → List String
unfolding ulimit_options seccomp_options flat_map
build_security_options c run_directory =
    joined_option "--cgroupns" c.profile.cgroupns_mode
    ++ (option "--pids-limit" (decimal_option c.profile.pids_limit)
        ++ (option "--memory" c.profile.memory
            ++ (option "--memory-swap" c.profile.memory_swap
                ++ (option "--cpus" c.profile.cpus
                    ++ (flat_map ulimit_options c.profile.ulimits
                        ++ (flat_map sysctl_options c.profile.sysctls
                            ++ (map (λ capability. "--cap-drop=" <> capability) c.profile.cap_drop
                                ++ (map (λ capability. "--cap-add=" <> capability) c.profile.cap_add
                                    ++ (flat_map
                                          (λ security_option.
                                            "--security-opt" ∷ security_option ∷ [])
                                          c.profile.security_options
                                        ++ seccomp_options run_directory
                                            c.profile.seccomp_profile)))))))))

unfoldable pub get_dns_policy_address : NetworkDnsPolicy → Option String → String
get_dns_policy_address policy none = policy.fallback_dns_address
get_dns_policy_address policy (some address) =
    if policy.use_gateway_as_dns then address else policy.fallback_dns_address

abbrev pub dns_policy_options : Option NetworkDnsPolicy → Option String → List String
dns_policy_options none address = []
dns_policy_options (some policy) address =
    "--dns"
    ∷ get_dns_policy_address policy address
    ∷ (flat_map (λ dns_option. "--dns-option" ∷ dns_option ∷ []) policy.dns_options
        ++ flat_map
            (λ hostname. "--add-host" ∷ (hostname <> (":" <> policy.blocked_hostname_address)) ∷ [])
            policy.blocked_hostnames)

unfoldable pub build_dns_policy_options : DockerConfiguration → Option String → List String
unfolding get_dns_policy_address flat_map
build_dns_policy_options c address = dns_policy_options c.profile.network_dns_policy address

-- The text of a bind mount, without or with the read-only mark.
abbrev pub bind_mount : String → String → String
bind_mount source target = "type=bind,source=" <> (source <> (",target=" <> target))

abbrev pub readonly_mount : String → String → String
readonly_mount source target = bind_mount source target <> ",readonly"

unfoldable pub build_source_mount : DockerConfiguration → String
unfolding PosixPath.child PosixPath.to_text
build_source_mount c =
    readonly_mount (PosixPath.to_text (PosixPath.child c.build_context "src"))
      remote_source_directory

unfoldable pub build_readonly_denied_mount_options : DockerConfiguration → FilePath → List String
unfolding PosixPath.child PosixPath.to_text
build_readonly_denied_mount_options c run_directory = elim c.profile.readonly_denied_mount_target [
  | none ↦ []
  | some target ↦
      "--mount"
      ∷ readonly_mount
          (PosixPath.to_text (PosixPath.child run_directory readonly_denied_source_directory))
          target
      ∷ []
]

unfoldable pub readonly_persistence_mount : FilePath → String → Result String
readonly_persistence_mount run_directory target = do
  validate_container_directory target
  let source = build_readonly_persistence_source_directory run_directory target
  ok (readonly_mount (PosixPath.to_text source) target)

unfoldable pub build_readonly_persistence_mount_options :
    DockerConfiguration → FilePath → Result (List String)
build_readonly_persistence_mount_options c run_directory = do
  mounts ←
      traverse (readonly_persistence_mount run_directory) c.profile.readonly_persistence_directories
  ok (mount_options mounts)

unfoldable pub build_socket_mount_option : SocketMount → String
unfolding PosixPath.to_text
build_socket_mount_option m =
    let mount = bind_mount (PosixPath.to_text m.source_path) m.target_path in
    if m.readonly then mount <> ",readonly" else mount

unfoldable pub build_socket_mount_options : DockerConfiguration → List String
unfolding mount_options build_socket_mount_option
build_socket_mount_options c = mount_options (map build_socket_mount_option c.profile.socket_mounts)

-- `if value is not None: forwards.append(value)`
abbrev pub optional_forward : Option AgentSocketForward → List AgentSocketForward
optional_forward none = []
optional_forward (some forward) = forward ∷ []

unfoldable pub get_agent_socket_forwards : DockerConfiguration → List AgentSocketForward
get_agent_socket_forwards c =
    optional_forward c.profile.ssh_agent_socket ++ optional_forward c.profile.gpg_agent_socket

unfoldable pub build_agent_socket_mount_option : AgentSocketForward → String
unfolding PosixPath.to_text
build_agent_socket_mount_option a = bind_mount (PosixPath.to_text a.source_path) a.target_path

unfoldable pub build_agent_socket_mount_options : DockerConfiguration → List String
unfolding mount_options build_agent_socket_mount_option get_agent_socket_forwards
build_agent_socket_mount_options c =
    mount_options (map build_agent_socket_mount_option (get_agent_socket_forwards c))
