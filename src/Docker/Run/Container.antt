-- ===== src/Docker/Run/Container.antt =====
-- The run itself, from the directory of the run to its result: `run_sandbox_container` of
-- src/docker_sandbox/sandbox_container.py. `raises` of the host covers every file operation and the
-- start of a process; `dt.datetime.now()` is its `timestamp`.
use sandbox_tester.Common.{String, ◌<>◌, Bool, Option, some, List, [], ◌∷◌}
use sandbox_tester.Common.PosixPath.{FilePath}
use sandbox_tester.Docker.Command.{
  RunArguments, build_docker_run_command, build_docker_remove_command,
}
use sandbox_tester.Docker.ConfigData.{ConfigArguments, build_config_data}
use sandbox_tester.Docker.Constants.{local_environment_value}
use sandbox_tester.Docker.Environment.{
  Environment, get_container_ssh_agent_socket, resolve_environment_variables,
  get_local_environment_variable_names,
}
use sandbox_tester.Docker.Gateway.{
  build_gateway_container_name, build_network_name, build_gateway_cleanup_commands,
}
use sandbox_tester.Docker.Models.{DockerConfiguration, DockerRunResult}
use sandbox_tester.Docker.Run.Egress.{
  Started, write_squid_configuration, start_network_gateway, write_gateway_logs,
}
use sandbox_tester.Docker.Run.Fixtures.{
  prepare_readonly_denied_directory, prepare_readonly_persistence_directories,
  prepare_denied_executable_stubs, write_landlock_policy, write_seccomp_profile,
  delete_readonly_denied_directory, delete_readonly_persistence_directory,
  delete_denied_executable_directory,
}
use sandbox_tester.Docker.Run.Host.{
  Host, Action, make_directory, write_text, json, pure, lift, ◌>>=◌, ◌>>◌, perform, run_docker,
}
use sandbox_tester.Docker.Script.{
  build_remote_run_directory, build_allowed_directory, build_denied_directory,
}
use sandbox_tester.Engine.Json.{object, members}
use sandbox_tester.Groups.Machine.{Completed}
use sandbox_tester.Common.PosixPath

abbrev pub sandbox_tester_environment_variables : Environment
sandbox_tester_environment_variables = ("OPENAI_API_KEY", local_environment_value) ∷ []

abbrev run_id : Host → String
run_id host = "run-" <> host.timestamp

abbrev pub run_directory_of : Host → DockerConfiguration → FilePath
run_directory_of host c = PosixPath.child (PosixPath.child c.base_directory "runs") (run_id host)

-- The paths that the templates of the profile give, in the container.
pub record RunDirectories : Type 0 where
  pub remote_run_directory : String
  pub allowed_directory : String
  pub denied_directory : String

module _ (host : Host) where
  abbrev config_arguments : DockerConfiguration → RunDirectories → ConfigArguments
  config_arguments c directories = record {
    remote_run_directory = directories.remote_run_directory;
    allowed_directory = directories.allowed_directory;
    denied_directory = directories.denied_directory;
    guest_user = c.guest_user;
    ssh_agent_socket = get_container_ssh_agent_socket c;
    browser_debugging = c.profile.browser_debugging;
    browser_surface = c.profile.browser_surface;
  }

  unfoldable pub run_directories : DockerConfiguration → Action RunDirectories
  run_directories c = do
    let remote = build_remote_run_directory c (run_id host)
    allowed ← lift (build_allowed_directory c remote)
    denied ← lift (build_denied_directory c remote)
    pure (record {
      remote_run_directory = remote;
      allowed_directory = allowed;
      denied_directory = denied;
    })

  -- What is done before the first docker command, after the directories are known.
  unfoldable pub prepare_files : DockerConfiguration → RunDirectories → Action (Unit {0})
  unfolding PosixPath.child
  prepare_files c directories = do
    let run_directory = run_directory_of host c
    let config_data = build_config_data (config_arguments c directories)
    prepare_readonly_denied_directory host c run_directory
    prepare_readonly_persistence_directories host c run_directory
    prepare_denied_executable_stubs host c run_directory
    write_landlock_policy host c run_directory
    write_seccomp_profile host c run_directory
    write_squid_configuration host c run_directory config_data
    perform host (
        write_text (PosixPath.child run_directory "config.json")
          (json (object (members config_data))))

  unfoldable pub prepare_run : DockerConfiguration → Action RunDirectories
  unfolding PosixPath.child
  prepare_run c = do
    perform host (make_directory (run_directory_of host c))
    directories ← run_directories c
    prepare_files c directories
    pure directories

  abbrev pub container_name_of : String
  container_name_of = "sandbox-tester-run-" <> host.timestamp

  unfoldable pub run_arguments :
      DockerConfiguration → RunDirectories → Option String → Bool → Bool → RunArguments
  unfolding PosixPath.child
  run_arguments c directories gateway_ip_address verbose serialize_evidence = record {
    run_directory = run_directory_of host c;
    container_name = container_name_of;
    remote_run_directory = directories.remote_run_directory;
    network_name = build_network_name c host.timestamp;
    allowed_directory = some directories.allowed_directory;
    denied_directory = some directories.denied_directory;
    environment_variables =
        resolve_environment_variables sandbox_tester_environment_variables host.environment;
    gateway_ip_address = gateway_ip_address;
    local_environment_variable_names =
        get_local_environment_variable_names sandbox_tester_environment_variables;
    verbose = verbose;
    serialize_evidence = serialize_evidence;
  }

  -- What is done after the container has ended.
  unfoldable pub clean_up : DockerConfiguration → Action (Unit {0})
  unfolding PosixPath.child
  clean_up c = do
    let run_directory = run_directory_of host c
    write_gateway_logs host c run_directory (build_gateway_container_name c host.timestamp)
    delete_readonly_denied_directory host c run_directory
    delete_readonly_persistence_directory host c run_directory
    delete_denied_executable_directory host c run_directory

  unfoldable pub run_result :
      DockerConfiguration → Started → List String → Completed → DockerRunResult
  unfolding PosixPath.child
  run_result c (gateway_commands, gateway_ip_address) command completed =
      let network_name = build_network_name c host.timestamp in
      let gateway_container_name = build_gateway_container_name c host.timestamp in
      record {
        image_name = c.profile.image_name;
        profile_name = c.profile.name;
        container_name = container_name_of;
        run_directory = run_directory_of host c;
        command = command;
        remove_command = build_docker_remove_command container_name_of;
        exit_code = completed.returncode;
        stdout = completed.stdout;
        stderr = completed.stderr;
        network_name = network_name;
        gateway_container_name = gateway_container_name;
        gateway_ip_address = gateway_ip_address;
        gateway_commands = gateway_commands;
        gateway_cleanup_commands =
            build_gateway_cleanup_commands c network_name gateway_container_name;
      }

  unfoldable pub run_sandbox_container : DockerConfiguration → Bool → Bool → Action DockerRunResult
  unfolding PosixPath.child
  run_sandbox_container c verbose serialize_evidence = do
    directories ← prepare_run c
    started ←
        start_network_gateway host c (run_directory_of host c) (build_network_name c host.timestamp)
          (build_gateway_container_name c host.timestamp)
    command ← lift (
        build_docker_run_command c
          (run_arguments c directories (started.1) verbose serialize_evidence))
    completed ← run_docker host command
    clean_up c
    pure (run_result c started command completed)
