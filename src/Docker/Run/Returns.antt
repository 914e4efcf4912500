-- ===== src/Docker/Run/Returns.antt =====
-- A run of a built-in profile comes to its end.
use sandbox_tester.Common.{
  String, ◌<>◌, ◌≡◌, refl, ◌∙◌, Bool, true, none, List, [], ok, is_ok, arith, string_eq,
}
use sandbox_tester.Common.Format.Laws.{is_ok-format}
use sandbox_tester.Docker.Command.{build_docker_run_command}
use sandbox_tester.Docker.Command.Buildable.{
  all_valid, valid_targets, is_template, is_buildable, profiles-is_buildable,
  is_ok-build_docker_run_command,
}
use sandbox_tester.Docker.Constants.{
  readonly_denied_source_directory, readonly_persistence_source_directory,
  denied_executable_source_directory,
}
use sandbox_tester.Docker.Executables.{get_denied_executable_targets}
use sandbox_tester.Docker.Gateway.{build_gateway_container_name, build_network_name}
use sandbox_tester.Docker.Models.{DockerConfiguration, DockerProfile}
use sandbox_tester.Docker.Profiles.Lookup.{all_entries, get_docker_profile-all_entries}
use sandbox_tester.Docker.Profiles.Table.{profiles, get_docker_profile}
use sandbox_tester.Docker.Run.Container.{
  RunDirectories, run_directory_of, run_directories, prepare_files, prepare_run, run_arguments,
  clean_up, run_sandbox_container,
}
use sandbox_tester.Docker.Run.Egress.{
  write_squid_configuration, start_network_gateway, write_gateway_logs,
}
use sandbox_tester.Docker.Run.Fixtures.{
  prepare_readonly_denied_directory, prepare_readonly_persistence_directories,
  prepare_denied_executable_stubs, write_landlock_policy, write_seccomp_profile,
  delete_readonly_denied_directory, delete_readonly_persistence_directory,
  delete_denied_executable_directory,
}
use sandbox_tester.Docker.Run.Host.{Host, Effect, perform, run_docker, lift}
use sandbox_tester.Docker.Script.{
  format_directory_template, build_remote_run_directory, build_allowed_directory,
  build_denied_directory,
}
use sandbox_tester.Docker.Run.Succeeds.{
  Succeeds, >>=-Succeeds, pure-Succeeds, lift-Succeeds, unit_then, optional-Succeeds,
  perform-Succeeds, run_docker-Succeeds, files-Succeeds, persistence-Succeeds, found-Succeeds,
  rules-Succeeds, for_each-Succeeds,
}
use sandbox_tester.Docker.Run.Ending.{
  StaysBelow, has_no_addresses, squid_file-Succeeds, started-Succeeds, logs-Succeeds,
  fixture-Succeeds, delete_persistence-Succeeds, found_stubs-Succeeds,
}

module _ (host : Host)
    (raises_nothing : (done : List Effect) (e : Effect) → host.raises done e ≡ none) where
  run_directories-Succeeds :
      (c : DockerConfiguration)
      → is_template c.profile.allowed_directory_template ≡ true
      → is_template c.profile.denied_directory_template ≡ true
      → Succeeds (run_directories host c)
  unfolding run_directories build_allowed_directory build_denied_directory format_directory_template
  run_directories-Succeeds c ha hd =
      let remote = build_remote_run_directory c ("run-" <> host.timestamp) in
      let allowed = build_allowed_directory c remote in
      let denied = build_denied_directory c remote in
      >>=-Succeeds (lift allowed) _
        (lift-Succeeds allowed
          (is_ok-format "remote_run_directory" remote "" c.profile.allowed_directory_template ∙ ha))
        (λ a.
          >>=-Succeeds (lift denied) _
            (lift-Succeeds denied (
              is_ok-format "remote_run_directory" remote "" c.profile.denied_directory_template
              ∙ hd))
            (λ d. pure-Succeeds _))

  prepare_files-Succeeds :
      (c : DockerConfiguration) (directories : RunDirectories)
      → all_valid c.profile.readonly_persistence_directories ≡ true
      → valid_targets (get_denied_executable_targets c) ≡ true
      → has_no_addresses c.profile.network_gateway ≡ true
      → Succeeds (prepare_files host c directories)
  unfolding prepare_files prepare_readonly_persistence_directories prepare_denied_executable_stubs
      write_landlock_policy write_seccomp_profile write_squid_configuration
  prepare_files-Succeeds c directories hp ht ha =
      let run_directory = run_directory_of host c in
      unit_then (prepare_readonly_denied_directory host c run_directory) _
        (files-Succeeds host raises_nothing c run_directory)
        (unit_then (prepare_readonly_persistence_directories host c run_directory) _
          (for_each-Succeeds _ c.profile.readonly_persistence_directories
            (λ path. persistence-Succeeds host raises_nothing run_directory path) hp)
          (unit_then (prepare_denied_executable_stubs host c run_directory) _
            (found-Succeeds host raises_nothing run_directory (get_denied_executable_targets c) ht)
            (unit_then (write_landlock_policy host c run_directory) _
              (rules-Succeeds host raises_nothing run_directory c.profile.landlock_rules)
              (unit_then (write_seccomp_profile host c run_directory) _
                (optional-Succeeds c.profile.seccomp_profile _
                  (λ p. perform-Succeeds host raises_nothing _))
                (unit_then (write_squid_configuration host c run_directory _) _
                  (squid_file-Succeeds host raises_nothing c.profile.network_gateway run_directory _
                    ha)
                  (perform-Succeeds host raises_nothing _))))))

  clean_up-Succeeds :
      (c : DockerConfiguration)
      → valid_targets (get_denied_executable_targets c) ≡ true
      → StaysBelow host (run_directory_of host c) readonly_denied_source_directory
      → StaysBelow host (run_directory_of host c) readonly_persistence_source_directory
      → StaysBelow host (run_directory_of host c) denied_executable_source_directory
      → Succeeds (clean_up host c)
  unfolding clean_up write_gateway_logs delete_readonly_denied_directory
      delete_readonly_persistence_directory delete_denied_executable_directory
  clean_up-Succeeds c ht denied persistence stubs =
      let run_directory = run_directory_of host c in
      let container_name = build_gateway_container_name c host.timestamp in
      unit_then (write_gateway_logs host c run_directory container_name) _
        (optional-Succeeds c.profile.network_gateway _
          (λ g. logs-Succeeds host raises_nothing run_directory container_name))
        (unit_then (delete_readonly_denied_directory host c run_directory) _
          (optional-Succeeds c.profile.readonly_denied_mount_target _ (λ target.
            fixture-Succeeds host run_directory readonly_denied_source_directory
              "Refusing to remove readonly denied fixture outside the run directory: " denied))
          (unit_then (delete_readonly_persistence_directory host c run_directory) _
            (delete_persistence-Succeeds host run_directory
              c.profile.readonly_persistence_directories persistence)
            (found_stubs-Succeeds host run_directory (get_denied_executable_targets c) ht stubs)))

  start-Succeeds :
      (c : DockerConfiguration)
      → Succeeds (
          start_network_gateway host c
            (run_directory_of host c)
            (build_network_name c host.timestamp)
            (build_gateway_container_name c host.timestamp))
  unfolding start_network_gateway build_network_name build_gateway_container_name
  start-Succeeds c =
      started-Succeeds host raises_nothing (run_directory_of host c) c.profile.network_gateway

  run-Succeeds :
      (c : DockerConfiguration) (verbose serialize_evidence : Bool)
      → all_valid c.profile.readonly_persistence_directories ≡ true
      → valid_targets (get_denied_executable_targets c) ≡ true
      → Succeeds (prepare_run host c)
      → Succeeds (clean_up host c)
      → Succeeds (run_sandbox_container host c verbose serialize_evidence)
  unfolding run_sandbox_container run_arguments
  run-Succeeds c verbose serialize_evidence hp ht prepared cleaned =
      >>=-Succeeds (prepare_run host c) _ prepared (λ directories.
        >>=-Succeeds
          (start_network_gateway host c (run_directory_of host c)
            (build_network_name c host.timestamp) (build_gateway_container_name c host.timestamp))
          _ (start-Succeeds c)
          (λ started.
            let arguments =
              run_arguments host c directories (started.1) verbose serialize_evidence in
            >>=-Succeeds (lift (build_docker_run_command c arguments)) _
              (lift-Succeeds (build_docker_run_command c arguments)
                (ground (arith, hp, ht, is_ok-build_docker_run_command c arguments)))
              (λ command.
                >>=-Succeeds (run_docker host command) _
                  (run_docker-Succeeds host raises_nothing command)
                  (λ completed. unit_then (clean_up host c) _ cleaned (pure-Succeeds _)))))

abbrev lists_no_addresses : String → DockerProfile → Bool
lists_no_addresses name p = has_no_addresses p.network_gateway

profiles-lists_no_addresses : all_entries lists_no_addresses profiles ≡ true
unfolding profiles
profiles-lists_no_addresses = refl

-- A run of a built-in profile returns a result, if no file operation and no start of docker raises an
-- exception and the directories that it removes at its end are found below its own.
pub is_ok-run_sandbox_container :
    (host : Host) (c : DockerConfiguration) (name : String) (verbose serialize_evidence : Bool)
    → ((done : List Effect) (e : Effect) → host.raises done e ≡ none)
    → StaysBelow host (run_directory_of host c) readonly_denied_source_directory
    → StaysBelow host (run_directory_of host c) readonly_persistence_source_directory
    → StaysBelow host (run_directory_of host c) denied_executable_source_directory
    → get_docker_profile name ≡ ok c.profile
    → is_ok ((run_sandbox_container host c verbose serialize_evidence []).1) ≡ true
unfolding prepare_run
is_ok-run_sandbox_container host c name verbose serialize_evidence raises_nothing denied persistence
      stubs found =
    let buildable : is_buildable c name c.profile ≡ true =
      get_docker_profile-all_entries (is_buildable c) name c.profile (profiles-is_buildable c)
        found in
    let no_addresses : has_no_addresses c.profile.network_gateway ≡ true =
      get_docker_profile-all_entries lists_no_addresses name c.profile profiles-lists_no_addresses
        found in
    let hp : all_valid c.profile.readonly_persistence_directories ≡ true = ground arith in
    let ht : valid_targets (get_denied_executable_targets c) ≡ true = ground arith in
    let ha : is_template c.profile.allowed_directory_template ≡ true = ground arith in
    let hd : is_template c.profile.denied_directory_template ≡ true = ground arith in
    (run-Succeeds host raises_nothing c verbose serialize_evidence hp ht
        (unit_then (perform host _) _ (perform-Succeeds host raises_nothing _) (
          >>=-Succeeds (run_directories host c) _
            (run_directories-Succeeds host raises_nothing c ha hd)
            (λ directories.
              unit_then (prepare_files host c directories) _
                (prepare_files-Succeeds host raises_nothing c directories hp ht no_addresses)
                (pure-Succeeds _))))
        (clean_up-Succeeds host raises_nothing c ht denied persistence stubs)).succeeds
      []
