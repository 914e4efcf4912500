-- ===== src/Docker/Profiles/Controls.antt =====
-- The controls of a profile that another takes over. Not compared are the names and the description, the
-- directories of a run, the address of the proxy and the hosts that it is not used for, and the
-- variables among the options of the container.
use mathlib.Core.List.{map}
use sandbox_tester.Common.{
  ℕ, code, String, Bool, true, false, not, ◌&&◌, ◌||◌, Option, none, some, List, [], ◌∷◌, ◌==◌, leb,
  string_eq, number_eq, contains, has_any, is_some, if◌then◌else◌,
}
use sandbox_tester.Common.Text.{split}
use sandbox_tester.Docker.Models.{
  LandlockPathRule, NetworkGatewayProfile, NetworkDnsPolicy, EnvironmentVariablePolicy,
  DockerProfile, DockerUlimit, DockerSysctl, SeccompProfile, BrowserSurfaceProfile,
}

abbrev all_of {ℓ} : {A : Type ℓ} → (A → Bool) → List A → Bool
all_of test [] = true
all_of test (x ∷ xs) = test x && all_of test xs

abbrev some_of {ℓ} : {A : Type ℓ} → (A → Bool) → List A → Bool
some_of test [] = false
some_of test (x ∷ xs) = test x || some_of test xs

abbrev subset : List String → List String → Bool
subset xs ys = all_of (contains ys) xs

abbrev implies : Bool → Bool → Bool
implies old new = not old || new

-- A limit or a mode stays as it is, or is introduced.
abbrev keeps_text : Option String → Option String → Bool
keeps_text none new = true
keeps_text (some a) none = false
keeps_text (some a) (some b) = a == b

abbrev keeps_number : Option ℕ → Option ℕ → Bool
keeps_number none new = true
keeps_number (some a) none = false
keeps_number (some a) (some b) = a == b

abbrev same_text : Option String → Option String → Bool
same_text none none = true
same_text (some a) (some b) = a == b
same_text _ _ = false

abbrev same_rule : LandlockPathRule → LandlockPathRule → Bool
same_rule r s = r.path == s.path && r.access == s.access

-- Paths that were restricted stay restricted, to rules that were there before.
abbrev keeps_landlock : List LandlockPathRule → List LandlockPathRule → Bool
keeps_landlock old new =
    not (has_any old) || (has_any new && all_of (λ r. some_of (same_rule r) old) new)

abbrev keeps_policies : List EnvironmentVariablePolicy → List EnvironmentVariablePolicy → Bool
keeps_policies old new =
    all_of (λ p. some_of (λ q. p.name == q.name && same_text p.value q.value) new) old

abbrev keeps_gateway : Option NetworkGatewayProfile → Option NetworkGatewayProfile → Bool
keeps_gateway none new = true
keeps_gateway (some old) none = false
keeps_gateway (some old) (some new) =
    subset new.allowed_domains old.allowed_domains
    && subset new.allowed_ip_addresses old.allowed_ip_addresses

abbrev keeps_dns : Option NetworkDnsPolicy → Option NetworkDnsPolicy → Bool
keeps_dns none new = true
keeps_dns (some old) none = false
keeps_dns (some old) (some new) =
    subset old.blocked_hostnames new.blocked_hostnames
    && old.blocked_hostname_address == new.blocked_hostname_address
    && implies old.use_gateway_as_dns new.use_gateway_as_dns
    && old.fallback_dns_address == new.fallback_dns_address
    && subset old.dns_options new.dns_options

-- No soft or hard limit is raised or dropped.
abbrev keeps_ulimits : List DockerUlimit → List DockerUlimit → Bool
keeps_ulimits old new =
    all_of (λ u. some_of (λ v. u.name == v.name && leb v.soft u.soft && leb v.hard u.hard) new) old

abbrev keeps_sysctls : List DockerSysctl → List DockerSysctl → Bool
keeps_sysctls old new = all_of (λ s. some_of (λ t. s.name == t.name && s.value == t.value) new) old

-- Every call that was denied is denied, in the same way.
abbrev keeps_seccomp : Option SeccompProfile → Option SeccompProfile → Bool
keeps_seccomp none new = true
keeps_seccomp (some old) none = false
keeps_seccomp (some old) (some new) =
    subset old.denied_syscalls new.denied_syscalls
    && old.action == new.action
    && old.default_action == new.default_action

abbrev keeps_surface : Option BrowserSurfaceProfile → Option BrowserSurfaceProfile → Bool
keeps_surface none new = true
keeps_surface (some old) none = false
keeps_surface (some old) (some new) =
    subset old.chromium_arguments new.chromium_arguments
    && implies new.allow_camera_capture old.allow_camera_capture
    && implies new.allow_microphone_capture old.allow_microphone_capture

-- The namespace of the host is not joined again.
abbrev is_private : Option String → Bool
is_private none = false
is_private (some mode) = mode == "private"

-- The arguments of the options `--tmpfs`.
abbrev tmpfs_mounts : List String → List String
tmpfs_mounts [] = []
tmpfs_mounts (word ∷ []) = []
tmpfs_mounts (word ∷ mount ∷ words) =
    let rest = tmpfs_mounts (mount ∷ words) in if word == "--tmpfs" then mount ∷ rest else rest

-- The target of a mount, and the names of its options: `TARGET:NAME,NAME=VALUE`.
abbrev head_text : List String → String
head_text [] = ""
head_text (word ∷ words) = word

abbrev tmpfs_target : String → String
tmpfs_target mount = head_text (split (λ c. code c == b':') mount)

abbrev tmpfs_option_names : String → List String
tmpfs_option_names mount =
    map (λ option. head_text (split (λ c. code c == b'=') option))
      (split (λ c. code c == b',' || code c == b':') mount)

-- A mount of the same target has every option that the old one had: `nosuid`, `nodev`, `noexec` and a
-- size are kept.
abbrev keeps_tmpfs : List String → List String → Bool
keeps_tmpfs old new =
    all_of
      (λ m.
        some_of
          (λ n.
            tmpfs_target m == tmpfs_target n
            && subset (tmpfs_option_names m) (tmpfs_option_names n))
          (tmpfs_mounts new))
      (tmpfs_mounts old)

abbrev keeps_limits : DockerProfile → DockerProfile → Bool
keeps_limits p q =
    keeps_number p.pids_limit q.pids_limit
    && keeps_text p.memory q.memory
    && keeps_text p.memory_swap q.memory_swap
    && keeps_text p.cpus q.cpus
    && keeps_text p.shm_size q.shm_size
    && keeps_ulimits p.ulimits q.ulimits
    && keeps_sysctls p.sysctls q.sysctls

abbrev keeps_isolation : DockerProfile → DockerProfile → Bool
keeps_isolation p q =
    subset p.cap_drop q.cap_drop
    && subset q.cap_add p.cap_add
    && subset p.security_options q.security_options
    && keeps_seccomp p.seccomp_profile q.seccomp_profile
    && keeps_text p.cgroupns_mode q.cgroupns_mode
    && implies (is_private p.ipc_mode) (is_private q.ipc_mode)
    && implies (contains p.container_run_options "--read-only")
        (contains q.container_run_options "--read-only")
    && keeps_tmpfs p.container_run_options q.container_run_options

-- What is shared with the host, and what is left in the image.
abbrev keeps_surroundings : DockerProfile → DockerProfile → Bool
keeps_surroundings p q =
    implies (has_any q.socket_mounts) (has_any p.socket_mounts)
    && implies (is_some q.ssh_agent_socket) (is_some p.ssh_agent_socket)
    && implies (is_some q.gpg_agent_socket) (is_some p.gpg_agent_socket)
    && implies (is_some q.browser_debugging) (is_some p.browser_debugging)
    && implies q.allow_desktop_automation_channel p.allow_desktop_automation_channel
    && implies p.remove_desktop_automation_tools q.remove_desktop_automation_tools
    && keeps_surface p.browser_surface q.browser_surface
    && subset p.image_build_arguments q.image_build_arguments

abbrev keeps_access : DockerProfile → DockerProfile → Bool
keeps_access p q =
    subset p.denied_executables q.denied_executables
    && subset p.denied_executable_paths q.denied_executable_paths
    && subset p.readonly_persistence_directories q.readonly_persistence_directories
    && keeps_text p.readonly_denied_mount_target q.readonly_denied_mount_target
    && keeps_landlock p.landlock_rules q.landlock_rules
    && keeps_policies p.environment q.environment
    && keeps_gateway p.network_gateway q.network_gateway
    && keeps_dns p.network_dns_policy q.network_dns_policy

-- The second profile has every control of the first.
abbrev pub keeps_controls : DockerProfile → DockerProfile → Bool
keeps_controls p q =
    keeps_limits p q && keeps_isolation p q && keeps_surroundings p q && keeps_access p q
