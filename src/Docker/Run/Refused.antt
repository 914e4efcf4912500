-- ===== src/Docker/Run/Refused.antt =====
-- A configuration that is refused is refused before any docker command is run.
use sandbox_tester.Common.{
  String, ◌<>◌, ◌≡◌, refl, Bool, true, false, ◌&&◌, Option, none, some, List, [], ◌∷◌, arith,
  Result, ok, err, is_ok, Bool-cases, inl, inr,
}
use sandbox_tester.Common.Format.Laws.{is_ok-format}
use sandbox_tester.Common.PosixPath.{FilePath}
use sandbox_tester.Docker.Command.{RunArguments, build_docker_run_command}
use sandbox_tester.Docker.Command.Buildable.{
  all_valid, valid_targets, is_template, has_directory, is_ok-build_docker_run_command,
}
use sandbox_tester.Docker.Executables.{
  is_invalid_path, validate_container_directory, validate_executable_path,
  get_denied_executable_targets, build_denied_executable_stub_name,
}
use sandbox_tester.Docker.Models.{DockerConfiguration}
use sandbox_tester.Docker.Run.Container.{
  RunDirectories, run_directory_of, run_directories, prepare_files, prepare_run,
  run_sandbox_container,
}
use sandbox_tester.Docker.Run.Fixtures.{
  prepare_readonly_denied_directory, prepare_persistence_directory,
  prepare_readonly_persistence_directories, write_denied_executable_stub,
  write_denied_executable_stubs, prepare_denied_executable_stubs,
}
use sandbox_tester.Docker.Run.Host.{
  Host, Action, lift, ◌>>=◌, ◌>>◌, for_each, perform, make_directory,
}
use sandbox_tester.Docker.Run.Preparing.{prepare_run-IsQuiet}
use sandbox_tester.Docker.Run.Quiet.{
  docker_commands, Refuses, lift-Refuses, >>=-Refuses-first, >>=-Refuses-next, >>=-IsQuiet-refused,
}
use sandbox_tester.Docker.Script.{
  format_directory_template, build_remote_run_directory, build_allowed_directory,
  build_denied_directory,
}

module _ (host : Host) where
  unit_first :
      {B : Type 0} (first : Action (Unit {0})) (rest : Action B)
      → Refuses first
      → Refuses (first >> rest)
  unit_first first rest h = >>=-Refuses-first first (λ _. rest) h

  unit_next :
      {B : Type 0} (first : Action (Unit {0})) (rest : Action B)
      → Refuses rest
      → Refuses (first >> rest)
  unit_next first rest h = >>=-Refuses-next first (λ _. rest) (λ _. h)

  -- A loop over paths that refuses every invalid path.
  for_each-Refuses :
      (body : String → Action (Unit {0})) (paths : List String)
      → ((path : String) → is_invalid_path path ≡ true → Refuses (body path))
      → all_valid paths ≡ false
      → Refuses (for_each body paths)
  unfolding for_each
  for_each-Refuses body [] refuses h = ground arith
  for_each-Refuses body (t ∷ paths) refuses h = elim (Bool-cases (is_invalid_path t)) [
    | inl invalid ↦ unit_first (body t) _ (refuses t invalid)
    | inr valid ↦ unit_next (body t) _ (for_each-Refuses body paths refuses (ground arith))
  ]

  persistence-Refuses :
      (run_directory : FilePath) (target : String)
      → is_invalid_path target ≡ true
      → Refuses (prepare_persistence_directory host run_directory target)
  unfolding prepare_persistence_directory validate_container_directory
  persistence-Refuses run_directory target h =
      let validated = validate_container_directory target in
      unit_first (lift validated) _ (lift-Refuses validated (rw h refl))

  stub-Refuses :
      (stub_directory : FilePath) (target : String)
      → is_invalid_path target ≡ true
      → Refuses (write_denied_executable_stub host stub_directory target)
  unfolding write_denied_executable_stub build_denied_executable_stub_name validate_executable_path
  stub-Refuses stub_directory target h =
      let stub_name = build_denied_executable_stub_name target in
      >>=-Refuses-first (lift stub_name) _ (lift-Refuses stub_name (rw h refl))

  stubs-Refuses :
      (run_directory : FilePath) (targets : List String)
      → all_valid targets ≡ false
      → Refuses (write_denied_executable_stubs host run_directory targets)
  unfolding write_denied_executable_stubs
  stubs-Refuses run_directory [] h = ground arith
  stubs-Refuses run_directory (t ∷ targets) h =
      unit_next (perform host (make_directory _)) _
        (for_each-Refuses _ (t ∷ targets) (λ path. stub-Refuses _ path) h)

  found-Refuses :
      (run_directory : FilePath) (found : Result (List String))
      → valid_targets found ≡ false
      → Refuses (lift found >>= λ targets. write_denied_executable_stubs host run_directory targets)
  found-Refuses run_directory (ok targets) h = record {
    refuses = λ done. (stubs-Refuses run_directory targets h).refuses done;
  }
  found-Refuses run_directory (err e) h = record { refuses = λ done. refl }

  templates-Refuses :
      (c : DockerConfiguration)
      → (is_template c.profile.allowed_directory_template
          && is_template c.profile.denied_directory_template)
        ≡ false
      → Refuses (run_directories host c)
  unfolding run_directories build_allowed_directory build_denied_directory format_directory_template
  templates-Refuses c h =
      let remote = build_remote_run_directory c ("run-" <> host.timestamp) in
      let allowed = build_allowed_directory c remote in
      let denied = build_denied_directory c remote in
      let ha = is_ok-format "remote_run_directory" remote "" c.profile.allowed_directory_template in
      let hd = is_ok-format "remote_run_directory" remote "" c.profile.denied_directory_template in
      elim (Bool-cases (is_template c.profile.allowed_directory_template)) [
        | inl valid ↦ >>=-Refuses-next (lift allowed) _ (λ directory.
            >>=-Refuses-first (lift denied) _ (lift-Refuses denied (ground (arith, hd))))
        | inr invalid ↦
            >>=-Refuses-first (lift allowed) _ (lift-Refuses allowed (ground (arith, ha)))
      ]

  files-Refuses :
      (c : DockerConfiguration) (directories : RunDirectories)
      → (all_valid c.profile.readonly_persistence_directories
          && valid_targets (get_denied_executable_targets c))
        ≡ false
      → Refuses (prepare_files host c directories)
  unfolding prepare_files prepare_readonly_persistence_directories prepare_denied_executable_stubs
  files-Refuses c directories h =
      let run_directory = run_directory_of host c in
      let targets = c.profile.readonly_persistence_directories in
      unit_next (prepare_readonly_denied_directory host c run_directory) _
        (elim (Bool-cases (all_valid targets)) [
          | inl valid ↦
              unit_next (prepare_readonly_persistence_directories host c run_directory) _ (
                unit_first (prepare_denied_executable_stubs host c run_directory) _
                  (found-Refuses run_directory (get_denied_executable_targets c) (ground arith)))
          | inr invalid ↦
              unit_first (prepare_readonly_persistence_directories host c run_directory) _ (
                for_each-Refuses (prepare_persistence_directory host run_directory) targets
                  (λ path. persistence-Refuses run_directory path) invalid)
        ])

  prepare_run-Refuses :
      (c : DockerConfiguration)
      → (all_valid c.profile.readonly_persistence_directories
          && (valid_targets (get_denied_executable_targets c)
              && (is_template c.profile.allowed_directory_template
                  && is_template c.profile.denied_directory_template)))
        ≡ false
      → Refuses (prepare_run host c)
  unfolding prepare_run
  prepare_run-Refuses c h =
      unit_next (perform host (make_directory (run_directory_of host c))) _
        (elim (Bool-cases (
          is_template c.profile.allowed_directory_template
          && is_template c.profile.denied_directory_template)) [
            | inl valid ↦ >>=-Refuses-next (run_directories host c) _ (λ directories.
                unit_first (prepare_files host c directories) _
                  (files-Refuses c directories (ground arith)))
            | inr invalid ↦
                >>=-Refuses-first (run_directories host c) _ (templates-Refuses c invalid)
          ])

is_template-has_directory :
    (given : Option String) (template : String)
    → has_directory given template ≡ false
    → is_template template ≡ false
is_template-has_directory none template h = h
is_template-has_directory (some directory) template h = ground arith

-- If the `docker run` command of a configuration cannot be built for some arguments, a run of that
-- configuration runs no docker command at all, whatever the host answers.
pub run_sandbox_container-refused :
    (host : Host) (c : DockerConfiguration) (verbose serialize_evidence : Bool) (a : RunArguments)
    → is_ok (build_docker_run_command c a) ≡ false
    → docker_commands ((run_sandbox_container host c verbose serialize_evidence []).0) ≡ []
unfolding run_sandbox_container
run_sandbox_container-refused host c verbose serialize_evidence a h =
    (>>=-IsQuiet-refused (prepare_run host c) _ (prepare_run-IsQuiet host c) (
        prepare_run-Refuses host c (
          ground (
            arith,
            is_ok-build_docker_run_command c a,
            is_template-has_directory a.allowed_directory c.profile.allowed_directory_template,
            is_template-has_directory a.denied_directory c.profile.denied_directory_template,
          )))).quiet
      []
