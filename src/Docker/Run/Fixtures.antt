-- ===== src/Docker/Run/Fixtures.antt =====
-- The files and directories that a run prepares in its directory, and how they are removed:
-- src/docker_sandbox/sandbox_container.py.
use mathlib.Core.List.{map}
use sandbox_tester.Common.{String, none, some, List, [], ◌∷◌, if◌then◌else◌, err, runtime_error}
use sandbox_tester.Common.PosixPath.{FilePath}
use sandbox_tester.Docker.Constants.{
  readonly_denied_source_directory, readonly_persistence_source_directory,
  denied_executable_source_directory, denied_file_content, hidden_denied_file_content,
  seccomp_profile_file_name,
}
use sandbox_tester.Docker.Executables.{
  validate_container_directory, build_readonly_persistence_source_directory,
  get_denied_executable_targets, build_denied_executable_stub_name,
  build_denied_executable_stub_text,
}
use sandbox_tester.Docker.Models.{DockerConfiguration, LandlockPathRule, SeccompProfile}
use sandbox_tester.Docker.Run.Host.{
  Host, Action, make_directory, write_text, change_mode, plain, json, pure, lift, ◌>>=◌, ◌>>◌,
  for_each, perform, resolved, remove_directory, is_parent,
}
use sandbox_tester.Engine.Json.{Json, text, array, items, object, members}
use sandbox_tester.Common.PosixPath

module _ (host : Host) where
  abbrev write_denied_files : FilePath → Action (Unit {0})
  write_denied_files directory = do
    perform host (make_directory directory)
    perform host (write_text (PosixPath.child directory "denied.txt") (plain denied_file_content))
    perform host
        (write_text (PosixPath.child directory ".hidden") (plain hidden_denied_file_content))

  unfoldable pub prepare_readonly_denied_directory :
      DockerConfiguration → FilePath → Action (Unit {0})
  unfolding PosixPath.child
  prepare_readonly_denied_directory c run_directory = elim c.profile.readonly_denied_mount_target [
    | none ↦ pure tt
    | some target ↦
        let source = PosixPath.child run_directory readonly_denied_source_directory in
        write_denied_files (PosixPath.child source "denied")
  ]

  -- The body of the loop over the targets.
  unfoldable pub prepare_persistence_directory : FilePath → String → Action (Unit {0})
  prepare_persistence_directory run_directory target = do
    lift (validate_container_directory target)
    perform host (make_directory (build_readonly_persistence_source_directory run_directory target))

  unfoldable pub prepare_readonly_persistence_directories :
      DockerConfiguration → FilePath → Action (Unit {0})
  unfolding for_each
  prepare_readonly_persistence_directories c run_directory =
      for_each (prepare_persistence_directory run_directory)
        c.profile.readonly_persistence_directories

  -- The body of the loop over the targets.
  unfoldable pub write_denied_executable_stub : FilePath → String → Action (Unit {0})
  unfolding PosixPath.child PosixPath.parse PosixPath.name
  write_denied_executable_stub stub_directory target = do
    stub_name ← lift (build_denied_executable_stub_name target)
    let stub = PosixPath.child stub_directory stub_name
    let content = build_denied_executable_stub_text (PosixPath.name (PosixPath.parse target))
    perform host (write_text stub (plain content))
    perform host (change_mode stub 493)

  unfoldable pub write_denied_executable_stubs : FilePath → List String → Action (Unit {0})
  unfolding PosixPath.child
  write_denied_executable_stubs run_directory [] = pure tt
  write_denied_executable_stubs run_directory (t ∷ targets) = do
    let stub_directory = PosixPath.child run_directory denied_executable_source_directory
    perform host (make_directory stub_directory)
    for_each (write_denied_executable_stub stub_directory) (t ∷ targets)

  unfoldable pub prepare_denied_executable_stubs :
      DockerConfiguration → FilePath → Action (Unit {0})
  prepare_denied_executable_stubs c run_directory = do
    targets ← lift (get_denied_executable_targets c)
    write_denied_executable_stubs run_directory targets

  abbrev pub landlock_rule_data : LandlockPathRule → Json
  landlock_rule_data rule =
      object (members (("path", text rule.path) ∷ ("access", text rule.access) ∷ []))

  abbrev pub write_landlock_rules : FilePath → List LandlockPathRule → Action (Unit {0})
  write_landlock_rules run_directory [] = pure tt
  write_landlock_rules run_directory (r ∷ rules) =
      let policy =
        object (members (("rules", array (items (map landlock_rule_data (r ∷ rules)))) ∷ [])) in
      perform host (write_text (PosixPath.child run_directory "landlock-policy.json") (json policy))

  unfoldable pub write_landlock_policy : DockerConfiguration → FilePath → Action (Unit {0})
  unfolding PosixPath.child
  write_landlock_policy c run_directory =
      write_landlock_rules run_directory c.profile.landlock_rules

  abbrev pub build_seccomp_profile_data : SeccompProfile → Json
  build_seccomp_profile_data p =
      let denied =
        ("names", array (items (map text p.denied_syscalls))) ∷ ("action", text p.action) ∷ [] in
      object (
        members (
          ("defaultAction", text p.default_action)
          ∷ ("syscalls", array (items (object (members denied) ∷ [])))
          ∷ []))

  unfoldable pub write_seccomp_profile : DockerConfiguration → FilePath → Action (Unit {0})
  unfolding PosixPath.child
  write_seccomp_profile c run_directory = elim c.profile.seccomp_profile [
    | none ↦ pure tt
    | some p ↦ perform host (
        write_text (PosixPath.child run_directory seccomp_profile_file_name)
          (json (build_seccomp_profile_data p)))
  ]

  -- A directory is removed only below the directory of the run.
  unfoldable pub delete_fixture : FilePath → String → String → Action (Unit {0})
  unfolding PosixPath.child is_parent
  delete_fixture run_directory name refusal = do
    let directory = PosixPath.child run_directory name
    resolved_run_directory ← resolved host run_directory
    resolved_directory ← resolved host directory
    if is_parent resolved_run_directory resolved_directory
        then remove_directory directory
        else lift (err (runtime_error refusal))

  unfoldable pub delete_readonly_denied_directory :
      DockerConfiguration → FilePath → Action (Unit {0})
  unfolding delete_fixture
  delete_readonly_denied_directory c run_directory = elim c.profile.readonly_denied_mount_target [
    | none ↦ pure tt
    | some target ↦
        delete_fixture run_directory readonly_denied_source_directory
          "Refusing to remove readonly denied fixture outside the run directory: "
  ]

  abbrev pub delete_persistence : FilePath → List String → Action (Unit {0})
  delete_persistence run_directory [] = pure tt
  delete_persistence run_directory (t ∷ targets) =
      delete_fixture run_directory readonly_persistence_source_directory
        "Refusing to remove readonly persistence fixture outside the run directory: "

  unfoldable pub delete_readonly_persistence_directory :
      DockerConfiguration → FilePath → Action (Unit {0})
  unfolding delete_fixture
  delete_readonly_persistence_directory c run_directory =
      delete_persistence run_directory c.profile.readonly_persistence_directories

  abbrev pub delete_stubs : FilePath → List String → Action (Unit {0})
  delete_stubs run_directory [] = pure tt
  delete_stubs run_directory (t ∷ targets) =
      delete_fixture run_directory denied_executable_source_directory
        "Refusing to remove denied executable stubs outside the run directory: "

  unfoldable pub delete_denied_executable_directory :
      DockerConfiguration → FilePath → Action (Unit {0})
  unfolding delete_fixture
  delete_denied_executable_directory c run_directory = do
    targets ← lift (get_denied_executable_targets c)
    delete_stubs run_directory targets
