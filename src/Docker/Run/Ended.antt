-- ===== src/Docker/Run/Ended.antt =====
-- The docker commands of a run that comes to its end: those of the gateway around that of the
-- container.
use sandbox_tester.Common.{
  String, ◌<>◌, ◌≡◌, refl, ◌∙◌, ap, Bool, true, false, Option, none, some, List, [], ◌∷◌, ◌++◌, ok,
  err, ok-injective, runtime_error, if◌then◌else◌,
}
use sandbox_tester.Common.PosixPath.{FilePath}
use sandbox_tester.Docker.Command.{build_docker_run_command}
use sandbox_tester.Docker.Constants.{
  network_name_prefix, gateway_container_name_prefix, readonly_denied_source_directory,
}
use sandbox_tester.Docker.Executables.{get_denied_executable_targets}
use sandbox_tester.Docker.Gateway.{build_gateway_container_name, build_network_name}
use sandbox_tester.Docker.Models.{DockerConfiguration, DockerRunResult, NetworkGatewayProfile}
use sandbox_tester.Docker.Run.Commands.{
  Performs, Performs-then, continue-eq-ok, >>=-Performs, IsQuiet-Performs, run_docker-Performs,
  start_gateway-Performs, commands_before, commands_after,
}
use sandbox_tester.Docker.Run.Container.{
  run_directory_of, prepare_run, run_arguments, clean_up, run_result, run_sandbox_container,
}
use sandbox_tester.Docker.Run.Egress.{
  Started, start_gateway, start_network_gateway, write_container_logs, write_gateway_logs,
}
use sandbox_tester.Docker.Run.Fixtures.{
  delete_fixture, delete_readonly_denied_directory, delete_persistence,
  delete_readonly_persistence_directory, delete_stubs, delete_denied_executable_directory,
}
use sandbox_tester.Docker.Run.Host.{
  Host, Action, Effect, remove_directory, run_docker, lift, pure, ◌>>=◌, ◌>>◌,
}
use sandbox_tester.Docker.Run.Preparing.{
  unit_then, lift_then, optional-IsQuiet, prepare_run-IsQuiet,
}
use sandbox_tester.Docker.Run.Quiet.{
  docker_commands, docker_commands-appended, IsQuiet, pure-IsQuiet, perform-IsQuiet,
}

module _ (host : Host) where
  removed-IsQuiet :
      (test : Bool) (directory : FilePath) (refusal : String)
      → IsQuiet (if test then remove_directory directory else lift (err (runtime_error refusal)))
  removed-IsQuiet true directory refusal = record {
    quiet = λ done. docker_commands-appended done _ refl;
  }
  removed-IsQuiet false directory refusal = record { quiet = λ done. refl }

  fixture-IsQuiet :
      (run_directory : FilePath) (name refusal : String)
      → IsQuiet (delete_fixture host run_directory name refusal)
  unfolding delete_fixture
  fixture-IsQuiet run_directory name refusal = record {
    quiet = λ done. (removed-IsQuiet _ _ refusal).quiet done;
  }

  persistence-IsQuiet :
      (run_directory : FilePath) (targets : List String)
      → IsQuiet (delete_persistence host run_directory targets)
  persistence-IsQuiet run_directory [] = pure-IsQuiet tt
  persistence-IsQuiet run_directory (t ∷ targets) = fixture-IsQuiet run_directory _ _

  stubs-IsQuiet :
      (run_directory : FilePath) (targets : List String)
      → IsQuiet (delete_stubs host run_directory targets)
  stubs-IsQuiet run_directory [] = pure-IsQuiet tt
  stubs-IsQuiet run_directory (t ∷ targets) = fixture-IsQuiet run_directory _ _

  logs-Performs :
      (run_directory : FilePath) (gateway : Option NetworkGatewayProfile)
      → Performs
          (let container_name : Option String = elim gateway [
            | none ↦ none
            | some g ↦ some (gateway_container_name_prefix <> ("-" <> host.timestamp))
          ] in
            elim gateway [
              | none ↦ pure tt
              | some g ↦ write_container_logs host run_directory container_name
            ])
          (commands_after host gateway)
  logs-Performs run_directory none = IsQuiet-Performs (pure tt) (pure-IsQuiet tt)
  logs-Performs run_directory (some gateway) =
      Performs-then (run_docker host _) _ _ (run_docker-Performs host _)
        (λ completed. perform-IsQuiet host _ refl)

  clean_up-Performs :
      (c : DockerConfiguration)
      → Performs (clean_up host c) (commands_after host c.profile.network_gateway)
  unfolding clean_up write_gateway_logs build_gateway_container_name
      delete_readonly_denied_directory delete_readonly_persistence_directory
      delete_denied_executable_directory
  clean_up-Performs c =
      let run_directory = run_directory_of host c in
      Performs-then
        (write_gateway_logs host c run_directory (build_gateway_container_name c host.timestamp)) _
        _ (logs-Performs run_directory c.profile.network_gateway)
        (λ u.
          unit_then host (delete_readonly_denied_directory host c run_directory) _
            (optional-IsQuiet host c.profile.readonly_denied_mount_target _ (λ target.
              fixture-IsQuiet run_directory readonly_denied_source_directory
                "Refusing to remove readonly denied fixture outside the run directory: "))
            (unit_then host (delete_readonly_persistence_directory host c run_directory) _
              (persistence-IsQuiet run_directory c.profile.readonly_persistence_directories)
              (lift_then host (get_denied_executable_targets c) _
                (λ targets. stubs-IsQuiet run_directory targets))))

  started-Performs :
      (run_directory : FilePath) (gateway : Option NetworkGatewayProfile)
      → Performs {A = Started}
          (let network_name : Option String = elim gateway [
            | none ↦ none
            | some g ↦ some (network_name_prefix <> ("-" <> host.timestamp))
          ] in
            let container_name : Option String = elim gateway [
              | none ↦ none
              | some g ↦ some (gateway_container_name_prefix <> ("-" <> host.timestamp))
            ] in
            elim gateway [
              | none ↦ pure (none, none)
              | some g ↦ start_gateway host g run_directory network_name container_name
            ])
          (commands_before host run_directory gateway)
  started-Performs run_directory none = IsQuiet-Performs (pure (none, none)) (pure-IsQuiet _)
  started-Performs run_directory (some gateway) =
      start_gateway-Performs host gateway run_directory _ _

  start-Performs :
      (c : DockerConfiguration)
      → Performs
          (start_network_gateway host c
            (run_directory_of host c)
            (build_network_name c host.timestamp)
            (build_gateway_container_name c host.timestamp))
          (commands_before host (run_directory_of host c) c.profile.network_gateway)
  unfolding start_network_gateway build_network_name build_gateway_container_name
  start-Performs c = started-Performs (run_directory_of host c) c.profile.network_gateway

  -- What follows once the command is known.
  abbrev finish : DockerConfiguration → Started → List String → Action DockerRunResult
  finish c started command = run_docker host command >>= λ completed.
      clean_up host c >> pure (run_result host c started command completed)

  finish-Performs :
      (c : DockerConfiguration) (started : Started) (command : List String)
      → Performs
          (finish c started command)
          (command ∷ commands_after host c.profile.network_gateway)
  finish-Performs c started command =
      >>=-Performs (run_docker host command) _ (command ∷ []) _ (run_docker-Performs host command)
        (λ completed.
          Performs-then (clean_up host c) _ _ (clean_up-Performs c) (λ u. pure-IsQuiet _))

  finish-command :
      (c : DockerConfiguration) (started : Started) (command : List String)
      (done later : List Effect) (r : DockerRunResult)
      → finish c started command done ≡ (later, ok r)
      → command ≡ r.command
  unfolding run_result
  finish-command c started command done later r h =
      let (completed, _, h₁) = continue-eq-ok (run_docker host command done) _ later r h in
      let (u, _, h₂) =
        continue-eq-ok (clean_up host c ((run_docker host command done).0)) _ later r h₁ in
      ap (λ (x : DockerRunResult). x.command)
        (ok-injective (run_result host c started command completed) r (ap (λ p. p.1) h₂))

-- A run that returns has run exactly these docker commands, in this order: the commands that start the
-- gateway and the one that asks for its address, the command of the container that the result holds,
-- and the one that reads the logs of the gateway. Without a gateway it is the command of the container
-- alone.
pub run_sandbox_container-commands :
    (host : Host) (c : DockerConfiguration) (verbose serialize_evidence : Bool) (done : List Effect)
    (r : DockerRunResult)
    → run_sandbox_container host c verbose serialize_evidence [] ≡ (done, ok r)
    → docker_commands done
      ≡ commands_before host (run_directory_of host c) c.profile.network_gateway
        ++ r.command ∷ commands_after host c.profile.network_gateway
unfolding run_sandbox_container
run_sandbox_container-commands host c verbose serialize_evidence done r h =
    let prepared = prepare_run host c [] in
    let (directories, _, h₁) = continue-eq-ok prepared _ done r h in
    let start =
      start_network_gateway host c (run_directory_of host c) (build_network_name c host.timestamp)
        (build_gateway_container_name c host.timestamp) in
    let (started, is_started, h₂) = continue-eq-ok (start (prepared.0)) _ done r h₁ in
    let before = (start (prepared.0)).0 in
    let built =
      build_docker_run_command c
        (run_arguments host c directories (started.1) verbose serialize_evidence) in
    let (command, _, h₃) = continue-eq-ok (lift built before) _ done r h₂ in
    (finish-Performs host c started command).performs before done r h₃
    ∙ ap (λ cs. cs ++ (command ∷ commands_after host c.profile.network_gateway))
        ((start-Performs host c).performs (prepared.0) before started
            (ap (λ x. (before, x)) is_started)
          ∙ ap
              (λ cs. cs ++ commands_before host (run_directory_of host c) c.profile.network_gateway)
              ((prepare_run-IsQuiet host c).quiet []))
    ∙ ap
        (λ x.
          commands_before host (run_directory_of host c) c.profile.network_gateway
          ++ x ∷ commands_after host c.profile.network_gateway)
        (finish-command host c started command before done r h₃)
