-- ===== src/Docker/Tests/Launch.antt =====
-- Tests of what is built and started: the image, the command, its script, the Landlock launcher.
use mathlib.Core.List.{map}
use sandbox_tester.Docker.Tests.{configuration, arguments, unsafe}
use sandbox_tester.Docker.Image.{ensure_base_image, image_exists, image_result, build_image_command}
use sandbox_tester.Docker.Image.Ensured.{TagNames, ensure_base_image_again}
use sandbox_tester.Docker.Models.{DockerImageStatus}
use sandbox_tester.Common.{
  ==_refl, none, if◌then◌else◌, traverse, ◌++◌, ℕ, number_eq, String, ◌≡◌, refl, true, false, some,
  List, [], ◌∷◌, string_eq, contains, is_ok,
}
use sandbox_tester.Common.Shell.Words.{lex, between, word, redirect}
use sandbox_tester.Docker.Script.{container_script_lines}
use sandbox_tester.Docker.Script.Words.{after_six, lex-container_script_lines}
use sandbox_tester.Docker.Constants.{allowed_file_content, hidden_allowed_file_content}
use sandbox_tester.Docker.Command.Buildable.{
  is_ok-build_docker_run_command, is_ok-build_docker_run_command_named,
}
use sandbox_tester.Docker.Landlock.{
  add_path_rule, add_path_rules, restrict, apply_landlock_rules, Kernel, value, PathRule, Call,
  get_abi_version, create_ruleset, open_path, add_rule, close, set_no_new_privileges, restrict_self,
  collect_rights, access_by_name, supported_access_mask, parse_access,
}
use sandbox_tester.Docker.Landlock.Order.{Adds, apply_landlock_rules_lem}
use sandbox_tester.Docker.Executables.{
  get_denied_executable_targets, name_target, validate_executable_name, is_invalid_name,
}
use sandbox_tester.Common.PosixPath.{FilePath}
use sandbox_tester.Docker.Command.{build_docker_run_command}
use sandbox_tester.Docker.Profiles.Table.{profiles, get_docker_profile}
use sandbox_tester.Docker.Profiles.ReadonlyFs.{readonly_fs}
use sandbox_tester.Docker.Profiles.Baseline.{baseline}
use sandbox_tester.Docker.Profiles.NetworkEgress.{network_egress}
use sandbox_tester.Common.PosixPath

abbrev obliging : Kernel
obliging trace c = value 3

abbrev usr_rule : PathRule
usr_rule = record { path = PosixPath.parse "/usr"; access = "rx" }

abbrev usr_calls : List Call
usr_calls =
    get_abi_version
    ∷ create_ruleset 32767
    ∷ open_path (PosixPath.parse "/usr")
    ∷ add_rule 3 24589 3
    ∷ close 3
    ∷ set_no_new_privileges
    ∷ restrict_self 3
    ∷ close 3
    ∷ []

apply_landlock_rules_lem_example :
    (abi_version : ℕ) × (ruleset_fd : ℕ) × (calls : List Call) × (obliging [] get_abi_version
      ≡ value abi_version)
    × (obliging (get_abi_version ∷ []) (create_ruleset (supported_access_mask abi_version))
        ≡ value ruleset_fd)
    × Adds obliging ruleset_fd
        (supported_access_mask abi_version)
        (get_abi_version ∷ create_ruleset (supported_access_mask abi_version) ∷ [])
        (usr_rule ∷ [])
        calls
    × (obliging
          (get_abi_version
            ∷ create_ruleset (supported_access_mask abi_version)
            ∷ (calls ++ set_no_new_privileges ∷ []))
          (restrict_self ruleset_fd)
        ≡ value 3)
    × (usr_calls
        ≡ get_abi_version
          ∷ create_ruleset (supported_access_mask abi_version)
          ∷ (calls ++ set_no_new_privileges ∷ restrict_self ruleset_fd ∷ close ruleset_fd ∷ []))
unfolding parse_access number_eq collect_rights access_by_name apply_landlock_rules restrict
    add_path_rules add_path_rule supported_access_mask
apply_landlock_rules_lem_example =
    apply_landlock_rules_lem obliging (usr_rule ∷ []) usr_calls 3 refl

is_ok-build_docker_run_command_example :
    is_ok (build_docker_run_command (configuration unsafe) arguments) ≡ false
unfolding get_denied_executable_targets name_target validate_executable_name is_invalid_name
    traverse baseline
is_ok-build_docker_run_command_example =
    is_ok-build_docker_run_command (configuration unsafe) arguments

is_ok-build_docker_run_command_named_example :
    is_ok (build_docker_run_command (configuration network_egress) arguments) ≡ true
unfolding get_docker_profile profiles string_eq
is_ok-build_docker_run_command_named_example =
    is_ok-build_docker_run_command_named "network-egress" (configuration network_egress) arguments
      refl

lex-container_script_lines_example :
    map (lex between) (
      after_six
        (container_script_lines "/tmp/it's here" "/sandbox-denied" false ("python" ∷ "-m" ∷ [])))
    ≡ some (word "mkdir" ∷ word "-p" ∷ word "/tmp/it's here/allowed" ∷ [])
      ∷ some (
          word "printf"
          ∷ word "%s"
          ∷ word allowed_file_content
          ∷ redirect
          ∷ word "/tmp/it's here/allowed/allowed.txt"
          ∷ [])
      ∷ some (
          word "printf"
          ∷ word "%s"
          ∷ word hidden_allowed_file_content
          ∷ redirect
          ∷ word "/tmp/it's here/allowed/.hidden"
          ∷ [])
      ∷ some (word "python" ∷ word "-m" ∷ [])
      ∷ []
lex-container_script_lines_example =
    lex-container_script_lines "/tmp/it's here" "/sandbox-denied" false ("python" ∷ "-m" ∷ [])

-- A Docker that knows the names of its images: four words inspect, more words build.
abbrev small_docker : List String → List String → List String × ℕ
small_docker images (docker ∷ verb ∷ third ∷ image ∷ []) =
    (images, if contains images image then 0 else 1)
small_docker images (docker ∷ verb ∷ file ∷ path ∷ tag ∷ image ∷ rest) = (image ∷ images, 0)
small_docker images _ = (images, 1)

small_docker-TagNames : TagNames small_docker
unfolding number_eq
small_docker-TagNames s file tag context arguments h built = rw (==_refl {A = String} tag) refl

ensure_base_image_again_example :
    ensure_base_image small_docker
      (λ path. true)
      true
      (configuration readonly_fs)
      (ensure_base_image small_docker (λ path. true) true (configuration readonly_fs) []).0
    ≡ (
      (ensure_base_image small_docker (λ path. true) true (configuration readonly_fs) []).0,
      image_result (configuration readonly_fs) DockerImageStatus.exists none,
    )
unfolding ensure_base_image image_exists build_image_command number_eq string_eq readonly_fs
ensure_base_image_again_example =
    ensure_base_image_again small_docker (λ path. true) true (configuration readonly_fs) []
      (λ s image. refl) small_docker-TagNames refl refl
