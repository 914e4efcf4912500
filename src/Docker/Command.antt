-- ===== src/Docker/Command.antt =====
-- The `docker run` command: `_build_docker_run_command` of src/docker_sandbox/sandbox_container.py.
pub mod Laws
pub mod Buildable
use sandbox_tester.Common.{
  String, Bool, Option, none, some, List, [], ◌∷◌, ◌++◌, Result, ok, ◌>>=◌, true, false,
}
use sandbox_tester.Common.PosixPath.{FilePath}
use sandbox_tester.Docker.Constants.{
  docker_executable, remote_output_directory, remote_landlock_policy_path,
}
use sandbox_tester.Docker.Environment.{Environment, build_container_environment}
use sandbox_tester.Docker.Environment.Sorted.{build_environment_options}
use sandbox_tester.Docker.Executables.{build_denied_executable_mount_options}
use sandbox_tester.Docker.Models.{LandlockPathRule, DockerConfiguration}
use sandbox_tester.Docker.Options.{
  option, bind_mount, build_ipc_options, build_security_options, build_dns_policy_options,
  build_source_mount, build_readonly_denied_mount_options, build_readonly_persistence_mount_options,
  build_socket_mount_options, build_agent_socket_mount_options,
}
use sandbox_tester.Docker.Script.{
  build_allowed_directory, build_denied_directory, build_container_script,
}
use sandbox_tester.Common.PosixPath

-- The keyword arguments of the function.
pub record RunArguments : Type 0 where
  pub run_directory : FilePath
  pub container_name : String
  pub remote_run_directory : String
  pub network_name : Option String
  pub allowed_directory : Option String
  pub denied_directory : Option String
  pub environment_variables : Environment
  pub gateway_ip_address : Option String
  pub local_environment_variable_names : List String
  pub verbose : Bool
  pub serialize_evidence : Bool

-- A directory that is given, or the one that the profile's template gives.
abbrev pub directory_or : Option String → Result String → Result String
directory_or none built = built
directory_or (some directory) built = ok directory

abbrev pub is_missing {ℓ} : {A : Type ℓ} → Option A → Bool
is_missing none = true
is_missing (some a) = false

abbrev pub landlock_policy_path : List LandlockPathRule → Option String
landlock_policy_path [] = none
landlock_policy_path (r ∷ rules) = some remote_landlock_policy_path

-- The options before `container_run_options`.
unfoldable pub leading_options : DockerConfiguration → RunArguments → List String
leading_options c a =
    build_ipc_options c
    ++ (build_security_options c a.run_directory
        ++ (("--mount"
              ∷ bind_mount (PosixPath.to_text a.run_directory) remote_output_directory
              ∷ "--mount"
              ∷ build_source_mount c
              ∷ "--user"
              ∷ c.guest_user
              ∷ [])
            ++ (option "--network" a.network_name
                ++ build_dns_policy_options c a.gateway_ip_address)))

-- The mounts behind them; the targets of two kinds have been validated before.
unfoldable pub trailing_options :
    DockerConfiguration → RunArguments → List String → List String → List String
trailing_options c a persistence_mounts executable_mounts =
    build_readonly_denied_mount_options c a.run_directory
    ++ (persistence_mounts
        ++ (build_socket_mount_options c
            ++ (build_agent_socket_mount_options c ++ executable_mounts)))

unfoldable pub docker_run_options :
    DockerConfiguration → RunArguments → List String → List String → List String
docker_run_options c a persistence_mounts executable_mounts =
    leading_options c a
    ++ (c.profile.container_run_options
        ++ trailing_options c a persistence_mounts executable_mounts)

unfoldable pub docker_run_environment_options : DockerConfiguration → RunArguments → List String
docker_run_environment_options c a =
    build_environment_options
      (build_container_environment c a.environment_variables a.gateway_ip_address)
      a.local_environment_variable_names

unfoldable pub build_docker_run_command : DockerConfiguration → RunArguments → Result (List String)
build_docker_run_command c a = do
  persistence_mounts ← build_readonly_persistence_mount_options c a.run_directory
  executable_mounts ← build_denied_executable_mount_options c a.run_directory
  allowed_directory ←
      directory_or a.allowed_directory (build_allowed_directory c a.remote_run_directory)
  denied_directory ←
      directory_or a.denied_directory (build_denied_directory c a.remote_run_directory)
  let script =
      build_container_script a.remote_run_directory (some allowed_directory) (some denied_directory)
        (is_missing c.profile.readonly_denied_mount_target) a.verbose a.serialize_evidence
        (landlock_policy_path c.profile.landlock_rules)
  ok (
      (docker_executable ∷ "run" ∷ "--name" ∷ a.container_name ∷ "--init" ∷ [])
      ++ (docker_run_options c a persistence_mounts executable_mounts
          ++ (docker_run_environment_options c a
              ++ c.profile.image_name ∷ "/bin/sh" ∷ "-c" ∷ script ∷ [])))

unfoldable pub build_docker_remove_command : String → List String
build_docker_remove_command container_name =
    docker_executable ∷ "rm" ∷ "--force" ∷ container_name ∷ []
