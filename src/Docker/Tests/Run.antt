-- ===== src/Docker/Tests/Run.antt =====
-- Tests of a run of the container on a host where everything goes well, and of one that is refused.
use sandbox_tester.Common.{
  ◌<>◌, ◌≡◌, refl, true, false, none, some, List, [], ◌∷◌, ◌++◌, Result, ok, err, is_ok, traverse,
  arith, string_eq,
}
use sandbox_tester.Docker.Command.{RunArguments, build_docker_run_command}
use sandbox_tester.Docker.Executables.{
  build_denied_executable_mount_options, get_denied_executable_targets, name_target,
  validate_executable_name, is_invalid_name,
}
use sandbox_tester.Docker.Options.{build_readonly_persistence_mount_options}
use sandbox_tester.Docker.Models.{DockerConfiguration, DockerProfile, DockerRunResult}
use sandbox_tester.Docker.Profiles.NetworkEgress.{network_egress}
use sandbox_tester.Docker.Profiles.Table.{profiles, get_docker_profile}
use sandbox_tester.Docker.Run.Commands.{commands_before, commands_after}
use sandbox_tester.Docker.Run.Container.{run_directory_of, run_result, run_sandbox_container}
use sandbox_tester.Docker.Run.Ended.{run_sandbox_container-commands}
use sandbox_tester.Docker.Run.Host.{Host, Effect, is_parent}
use sandbox_tester.Docker.Run.Quiet.{docker_commands}
use sandbox_tester.Docker.Run.Refused.{run_sandbox_container-refused}
use sandbox_tester.Docker.Run.Returns.{is_ok-run_sandbox_container}
use sandbox_tester.Groups.Machine.{Completed, pos}
use sandbox_tester.Common.PosixPath

abbrev answered : Completed
answered = record { returncode = pos 0; stdout = "172.18.0.2\n"; stderr = "" }

abbrev host : Host
host = record {
  timestamp = "2026-01-02-03-04-05";
  environment = ("OPENAI_API_KEY", "secret") ∷ [];
  hostname = λ url. some "github.com";
  ip_network = λ address. ok address;
  dumps_text = λ s. "\"" <> (s <> "\"");
  raises = λ done e. none;
  completed = λ done command. answered;
  resolve = λ done path. path;
}

abbrev configuration : DockerProfile → DockerConfiguration
configuration profile = record {
  base_directory = PosixPath.parse "/work/docker";
  dockerfile_path = PosixPath.parse "/repo/src/docker_sandbox/Dockerfile";
  build_context = PosixPath.parse "/repo";
  guest_user = "pwuser";
  profile = profile;
}

abbrev ended : List Effect × Result DockerRunResult
ended = run_sandbox_container host (configuration network_egress) true false []

is_ok-run_sandbox_container_example : is_ok (ended.1) ≡ true
unfolding get_docker_profile profiles string_eq is_parent PosixPath.child PosixPath.parse
is_ok-run_sandbox_container_example =
    is_ok-run_sandbox_container host (configuration network_egress) "network-egress" true false
      (λ done e. refl) (λ done. refl) (λ done. refl) (λ done. refl) refl

-- The result, where the run returns one.
abbrev result_or : DockerRunResult → Result DockerRunResult → DockerRunResult
result_or other (ok r) = r
result_or other (err e) = other

abbrev result : DockerRunResult
result =
    result_or (run_result host (configuration network_egress) (none, none) [] answered) (ended.1)

returned :
    (run : List Effect × Result DockerRunResult) (other : DockerRunResult)
    → is_ok (run.1) ≡ true
    → run ≡ (run.0, ok (result_or other (run.1)))
returned (done, ok r) other h = refl
returned (done, err e) other h = ground arith

run_sandbox_container-commands_example :
    docker_commands (ended.0)
    ≡ commands_before host
        (run_directory_of host (configuration network_egress))
        network_egress.network_gateway
      ++ result.command ∷ commands_after host network_egress.network_gateway
unfolding get_docker_profile profiles string_eq is_parent PosixPath.child PosixPath.parse
run_sandbox_container-commands_example =
    run_sandbox_container-commands host (configuration network_egress) true false (ended.0) result (
      returned ended _ (
        is_ok-run_sandbox_container host (configuration network_egress) "network-egress" true false
          (λ done e. refl) (λ done. refl) (λ done. refl) (λ done. refl) refl))

abbrev arguments : RunArguments
arguments = record {
  run_directory = PosixPath.parse "/work/docker/runs/1";
  container_name = "sandbox-tester-run-1";
  remote_run_directory = "/sandbox-work/1";
  network_name = none;
  allowed_directory = none;
  denied_directory = none;
  environment_variables = [];
  gateway_ip_address = none;
  local_environment_variable_names = [];
  verbose = true;
  serialize_evidence = false;
}

abbrev refused : DockerConfiguration
refused = configuration (record network_egress { denied_executables = "bin/git" ∷ [] })

run_sandbox_container-refused_example :
    docker_commands ((run_sandbox_container host refused true false []).0) ≡ []
unfolding network_egress build_docker_run_command build_readonly_persistence_mount_options traverse
    build_denied_executable_mount_options get_denied_executable_targets name_target
    validate_executable_name is_invalid_name
run_sandbox_container-refused_example =
    run_sandbox_container-refused host refused true false arguments refl
