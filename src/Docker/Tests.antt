-- ===== src/Docker/Tests.antt =====
-- Tests of the Docker sandbox on the built-in profiles, and the theorems applied to them.
mod Launch
mod Config
mod Run
mod Policy
use Prim.Native.Nat.{bit_and}
use mathlib.Core.List.{map}
use sandbox_tester.Docker.Image.{ensure_base_image, image_exists, image_result, build_image_command}
use sandbox_tester.Docker.Models.{DockerImageStatus, DockerConfiguration, DockerProfile}
use sandbox_tester.Common.{
  ==_refl, none, if◌then◌else◌, traverse, ◌++◌, ℕ, number_eq, keep_if, Result, err, value_error,
  ◌⊎◌, ◌<>◌, fromkeys, String, ◌≡◌, refl, Bool, true, false, ◌||◌, Option, some, List, [], ◌∷◌, ok,
  string_eq, ◌==◌, contains, is_ok, ◌&&◌, IsDistinct,
}
use sandbox_tester.Common.Shell.Words.{lex, between, word, redirect}
use sandbox_tester.Docker.Script.{
  container_script_lines, build_denied_directory, format_directory_template,
  build_allowed_directory,
}
use sandbox_tester.Docker.Script.Words.{after_six, lex-container_script_lines}
use sandbox_tester.Docker.Constants.{allowed_file_content, hidden_allowed_file_content}
use sandbox_tester.Docker.Command.Buildable.{
  is_ok-build_docker_run_command, is_ok-build_docker_run_command_named,
}
use sandbox_tester.Docker.Landlock.{
  add_path_rule, add_path_rules, restrict, apply_landlock_rules, Kernel, value, PathRule, Call,
  get_abi_version, create_ruleset, open_path, add_rule, close, set_no_new_privileges, restrict_self,
  collect_rights, access_by_name, supported_access_mask, parse_access, write_rights,
}
use sandbox_tester.Docker.Landlock.Order.{Adds, apply_landlock_rules_lem}
use sandbox_tester.Docker.Executables.{
  build_denied_executable_mount_options, get_denied_executable_targets,
  build_denied_executable_stub_name, keep_target, name_target, path_target,
  validate_executable_name, validate_executable_path, is_invalid_name, is_invalid_path,
  flatten_path,
}
use sandbox_tester.Docker.Options.{build_readonly_persistence_mount_options}
use sandbox_tester.Docker.Command.Laws.{
  build_docker_run_command_read_only, on_host, build_docker_run_command-on_host,
}
use sandbox_tester.Docker.Profiles.Lookup.{get_docker_profile_named}
use sandbox_tester.Docker.Gateway.{
  is_redundant, normalize_gateway_domain, append_git_remote_domain,
  remove_redundant_gateway_domain_suffixes, build_allowed_gateway_domains,
  squid_configuration_lines, starts_with_dot, tail,
}
use sandbox_tester.Common.PosixPath.{FilePath}
use sandbox_tester.Docker.Command.{RunArguments, build_docker_run_command}
use sandbox_tester.Docker.Environment.{
  Environment, build_container_environment, build_proxy_url, get_proxy_host,
}
use sandbox_tester.Docker.Environment.Lookup.{get-build_container_environment}
use sandbox_tester.Common.Text.{decimal, any_char, is_slash}
use sandbox_tester.Docker.Executables.Laws.{
  requested_targets, is_ok-get_denied_executable_targets, contains-get_denied_executable_targets,
}
use sandbox_tester.Docker.Gateway.Access.{access, access-squid_configuration_lines}
use sandbox_tester.Docker.Gateway.Domains.{
  gateway_domains, gateway_domains_conflict, gateway_domains_complete,
}
use sandbox_tester.Docker.Landlock.Access.{
  parse_access_lem, is_ok-parse_access, parse_access_no_write,
}
use sandbox_tester.Docker.Profiles.Table.{profiles, get_docker_profile}
use sandbox_tester.Docker.Profiles.Controls.{keeps_controls}
use sandbox_tester.Docker.Profiles.Strength.{get_docker_profile-keeps_controls}
use sandbox_tester.Docker.Profiles.ReadonlyFs.{readonly_fs}
use sandbox_tester.Docker.Profiles.Baseline.{baseline}
use sandbox_tester.Docker.Profiles.NetworkEgress.{network_egress}
use sandbox_tester.Common.Dict
use sandbox_tester.Common.PosixPath

abbrev configuration : DockerProfile → DockerConfiguration
configuration profile = record {
  base_directory = PosixPath.parse "/work/docker";
  dockerfile_path = PosixPath.parse "/repo/src/docker_sandbox/Dockerfile";
  build_context = PosixPath.parse "/repo";
  guest_user = "pwuser";
  profile = profile;
}

abbrev arguments : RunArguments
arguments = record {
  run_directory = PosixPath.parse "/work/docker/runs/1";
  container_name = "sandbox-tester-1";
  remote_run_directory = "/sandbox-work/1";
  network_name = none;
  allowed_directory = none;
  denied_directory = none;
  environment_variables = [];
  gateway_ip_address = none;
  local_environment_variable_names = [];
  verbose = true;
  serialize_evidence = false;
}

abbrev configured : Environment
configured = ("API_KEY", "[local]") ∷ ("DISPLAY", ":0") ∷ ("MODE", "strict") ∷ []

abbrev first_host : Environment
first_host = ("API_KEY", "one") ∷ ("HOME", "/root") ∷ []

abbrev second_host : Environment
second_host = ("HOME", "/home/user") ∷ ("API_KEY", "two") ∷ []

build_docker_run_command-on_host_example :
    build_docker_run_command (configuration readonly_fs) (on_host arguments configured first_host)
    ≡ build_docker_run_command
        (configuration readonly_fs)
        (on_host arguments configured second_host)
unfolding Dict.get string_eq
build_docker_run_command-on_host_example =
    build_docker_run_command-on_host (configuration readonly_fs) arguments configured first_host
      second_host (refl, (refl, (refl, tt)))

get-build_container_environment_example :
    Dict.get
      (build_container_environment (configuration network_egress) configured (some "172.18.0.2"))
      "HTTPS_PROXY"
    ≡ some "http://172.18.0.2:3128"
unfolding Dict.get string_eq network_egress build_proxy_url get_proxy_host decimal
get-build_container_environment_example =
    get-build_container_environment (configuration network_egress) configured (some "172.18.0.2")
      "HTTPS_PROXY"

get_docker_profile-keeps_controls_example : keeps_controls baseline readonly_fs ≡ true
unfolding get_docker_profile profiles string_eq
get_docker_profile-keeps_controls_example =
    get_docker_profile-keeps_controls "baseline" "readonly-fs" baseline readonly_fs refl refl refl

abbrev matched : String → Bool
matched acl =
    acl == "all"
    || acl == "Safe_ports"
    || acl == "CONNECT"
    || acl == "SSL_ports"
    || acl == "allowed_sites"

access-squid_configuration_lines_example :
    access matched (squid_configuration_lines (".example.com" ∷ []) 3128 []) ≡ some true
unfolding string_eq
access-squid_configuration_lines_example =
    access-squid_configuration_lines matched (".example.com" ∷ []) 3128 [] refl

abbrev denying : DockerProfile
denying = record baseline {
  remove_desktop_automation_tools = true;
  denied_executables = "git" ∷ "xdotool" ∷ [];
  denied_executable_paths = "/usr/bin/git" ∷ "/opt/tool" ∷ [];
}

abbrev denied_targets : List String
denied_targets = "/usr/bin/git" ∷ "/opt/tool" ∷ []

contains-get_denied_executable_targets_example :
    IsDistinct denied_targets
    × (contains denied_targets "/opt/tool" ≡ (
        contains (requested_targets (configuration denying)) "/opt/tool"
        && keep_target true "/opt/tool"))
unfolding baseline get_denied_executable_targets string_eq traverse name_target
    validate_executable_name is_invalid_name path_target validate_executable_path is_invalid_path
    fromkeys
contains-get_denied_executable_targets_example =
    contains-get_denied_executable_targets (configuration denying) denied_targets "/opt/tool" refl

abbrev unsafe : DockerProfile
unsafe = record baseline { denied_executables = "bin/git" ∷ [] }

is_ok-get_denied_executable_targets_example :
    is_ok (get_denied_executable_targets (configuration unsafe)) ≡ false
unfolding baseline is_invalid_name
is_ok-get_denied_executable_targets_example =
    is_ok-get_denied_executable_targets (configuration unsafe)

abbrev words_or {ℓ} : {A : Type ℓ} → A → Result A → A
words_or default (ok a) = a
words_or default (err e) = default

abbrev readonly_command : List String
readonly_command = words_or [] (build_docker_run_command (configuration readonly_fs) arguments)

build_docker_run_command_read_only_example :
    (options : List String) × (script : String) × (contains options "--read-only" ≡ true)
    × (readonly_command
        ≡ "docker" ∷ "run" ∷ (options ++ readonly_fs.image_name ∷ "/bin/sh" ∷ "-c" ∷ script ∷ []))
unfolding build_docker_run_command get_docker_profile profiles string_eq
    build_readonly_persistence_mount_options traverse build_denied_executable_mount_options
    get_denied_executable_targets fromkeys keep_if build_allowed_directory format_directory_template
    build_denied_directory
build_docker_run_command_read_only_example =
    build_docker_run_command_read_only "readonly-fs" (configuration readonly_fs) arguments
      readonly_command refl (λ h. cc) refl

get_docker_profile_named_example :
    ((p : DockerProfile) × (get_docker_profile "hardened" ≡ ok p)
      × (p.name ≡ "hardened")
      × (p.image_name ≡ "sandbox-tester/docker-sandbox:" <> "hardened"))
    ⊎ ((contains (Dict.keys profiles) "hardened" ≡ false)
        × (get_docker_profile "hardened"
            ≡ err (value_error ("Unsupported Docker sandbox profile: " <> "hardened"))))
get_docker_profile_named_example = get_docker_profile_named "hardened"
