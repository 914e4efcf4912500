-- ===== src/Docker/Command/Buildable.antt =====
-- When the `docker run` command can be built.
use sandbox_tester.Common.{
  fromkeys, String, ◌≡◌, refl, Bool, true, false, not, ◌&&◌, Option, none, some, List, [], ◌∷◌,
  Result, ok, err, is_ok, traverse, arith, ◌>>=◌, string_eq, is_ok->>=, ◌∙◌,
}
use sandbox_tester.Docker.Executables.{
  path_target, validate_executable_path, is_invalid_path, get_denied_executable_targets,
  denied_executable_mount, build_denied_executable_mount_options, build_denied_executable_stub_name,
  validate_container_directory, mount_options,
}
use sandbox_tester.Common.Format.{format}
use sandbox_tester.Common.Format.Laws.{is_ok-format}
use sandbox_tester.Common.PosixPath.{FilePath}
use sandbox_tester.Docker.Command.{directory_or, RunArguments, build_docker_run_command}
use sandbox_tester.Docker.Models.{DockerConfiguration, DockerProfile}
use sandbox_tester.Docker.Options.{
  build_readonly_persistence_mount_options, readonly_persistence_mount,
}
use sandbox_tester.Docker.Script.{
  format_directory_template, build_allowed_directory, build_denied_directory,
}
use sandbox_tester.Docker.Profiles.Table.{profiles, get_docker_profile}
use sandbox_tester.Docker.Profiles.Lookup.{all_entries, get_docker_profile-all_entries}

abbrev pub all_valid : List String → Bool
all_valid [] = true
all_valid (path ∷ paths) = not (is_invalid_path path) && all_valid paths

abbrev pub valid_targets : Result (List String) → Bool
valid_targets (ok targets) = all_valid targets
valid_targets (err e) = false

-- A template that can be filled, whatever the directory.
abbrev pub is_template : String → Bool
is_template template = is_ok (format "remote_run_directory" "" template)

-- A directory that is given needs no template.
abbrev pub has_directory : Option String → String → Bool
has_directory none template = is_template template
has_directory (some directory) template = true

is_ok-persistence :
    (run_directory : FilePath) (targets : List String)
    → is_ok (traverse (readonly_persistence_mount run_directory) targets) ≡ all_valid targets
unfolding traverse readonly_persistence_mount validate_container_directory
is_ok-persistence run_directory [] = refl
is_ok-persistence run_directory (t ∷ targets) =
    ground (arith, is_ok-persistence run_directory targets)

is_ok-mounts :
    (run_directory : FilePath) (targets : List String)
    → is_ok (traverse (denied_executable_mount run_directory) targets) ≡ all_valid targets
unfolding traverse denied_executable_mount build_denied_executable_stub_name
    validate_executable_path
is_ok-mounts run_directory [] = refl
is_ok-mounts run_directory (t ∷ targets) = ground (arith, is_ok-mounts run_directory targets)

is_ok-build_persistence :
    (c : DockerConfiguration) (run_directory : FilePath)
    → is_ok (build_readonly_persistence_mount_options c run_directory)
      ≡ all_valid c.profile.readonly_persistence_directories
unfolding build_readonly_persistence_mount_options
is_ok-build_persistence c run_directory =
    ground (arith, is_ok-persistence run_directory c.profile.readonly_persistence_directories)

is_ok-mounts_of :
    (run_directory : FilePath) (found : Result (List String))
    → is_ok (
        found >>= λ targets. traverse (denied_executable_mount run_directory) targets >>= λ mounts.
        ok (mount_options mounts))
      ≡ valid_targets found
is_ok-mounts_of run_directory (ok targets) = ground (arith, is_ok-mounts run_directory targets)
is_ok-mounts_of run_directory (err e) = refl

is_ok-build_mounts :
    (c : DockerConfiguration) (run_directory : FilePath)
    → is_ok (build_denied_executable_mount_options c run_directory)
      ≡ valid_targets (get_denied_executable_targets c)
unfolding build_denied_executable_mount_options
is_ok-build_mounts c run_directory = is_ok-mounts_of run_directory (get_denied_executable_targets c)

is_ok-directory_or :
    (given : Option String) (template remote_run_directory : String)
    → is_ok (directory_or given (format_directory_template template remote_run_directory))
      ≡ has_directory given template
unfolding format_directory_template
is_ok-directory_or none template remote_run_directory =
    is_ok-format "remote_run_directory" remote_run_directory "" template
is_ok-directory_or (some directory) template remote_run_directory = refl

-- The command is built exactly if every persistence directory, name and path of the profile is valid
-- and the templates of the directories that are not given can be filled; otherwise an exception is
-- raised.
pub is_ok-build_docker_run_command :
    (c : DockerConfiguration) (a : RunArguments)
    → is_ok (build_docker_run_command c a) ≡ (
        all_valid c.profile.readonly_persistence_directories
        && (valid_targets (get_denied_executable_targets c)
            && (has_directory a.allowed_directory c.profile.allowed_directory_template
                && has_directory a.denied_directory c.profile.denied_directory_template)))
unfolding build_docker_run_command build_allowed_directory build_denied_directory
is_ok-build_docker_run_command c a =
    let persistence = build_readonly_persistence_mount_options c a.run_directory in
    let mounts = build_denied_executable_mount_options c a.run_directory in
    let allowed =
      directory_or a.allowed_directory (build_allowed_directory c a.remote_run_directory) in
    let denied =
      directory_or a.denied_directory (build_denied_directory c a.remote_run_directory) in
    is_ok->>= persistence _ (is_ok mounts && (is_ok allowed && (is_ok denied && true))) (λ ps _.
      is_ok->>= mounts _ (is_ok allowed && (is_ok denied && true)) (λ es _.
        is_ok->>= allowed _ (is_ok denied && true)
          (λ ad _. is_ok->>= denied _ true (λ dd _. refl))))
    ∙ rw
        (
          is_ok-build_persistence c a.run_directory,
          is_ok-build_mounts c a.run_directory,
          is_ok-directory_or a.allowed_directory c.profile.allowed_directory_template
              a.remote_run_directory,
          is_ok-directory_or a.denied_directory c.profile.denied_directory_template
              a.remote_run_directory,
        )
        (ground arith)

-- The targets depend on the profile alone.
abbrev pub is_buildable : DockerConfiguration → String → DockerProfile → Bool
is_buildable c name p =
    all_valid p.readonly_persistence_directories
    && (valid_targets (get_denied_executable_targets (record c { profile = p }))
        && (is_template p.allowed_directory_template && is_template p.denied_directory_template))

pub profiles-is_buildable : (c : DockerConfiguration) → all_entries (is_buildable c) profiles ≡ true
unfolding profiles get_denied_executable_targets string_eq format is_invalid_path traverse fromkeys
    path_target validate_executable_path
profiles-is_buildable c = refl

has_directory-is_template :
    (given : Option String) (template : String)
    → is_template template ≡ true
    → has_directory given template ≡ true
has_directory-is_template none template h = h
has_directory-is_template (some directory) template h = refl

-- For every profile of the table, and whatever the arguments of the run, the command is built.
pub is_ok-build_docker_run_command_named :
    (name : String) (c : DockerConfiguration) (a : RunArguments)
    → get_docker_profile name ≡ ok c.profile
    → is_ok (build_docker_run_command c a) ≡ true
is_ok-build_docker_run_command_named name c a found =
    let buildable =
      get_docker_profile-all_entries (is_buildable c) name c.profile (profiles-is_buildable c)
        found in
    ground (
      arith,
      buildable,
      is_ok-build_docker_run_command c a,
      has_directory-is_template a.allowed_directory c.profile.allowed_directory_template,
      has_directory-is_template a.denied_directory c.profile.denied_directory_template,
    )
