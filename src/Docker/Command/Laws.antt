-- ===== src/Docker/Command/Laws.antt =====
-- The whole `docker run` command: its parts, and what it depends on.
use mathlib.Core.List.{append_assoc}
use sandbox_tester.Common.{
  String, ◌≡◌, refl, ap, ◌∙◌, Bool, true, ◌||◌, List, [], ◌∷◌, ◌++◌, arith, string_eq, contains,
  All, ok, >>=-eq-ok, contains-append_right, contains-append_left, sym, ok-injective, ◌==◌, ◌≢◌,
}
use sandbox_tester.Docker.Command.{
  RunArguments, build_docker_run_command, docker_run_options, docker_run_environment_options,
  directory_or, leading_options, trailing_options,
}
use sandbox_tester.Docker.Environment.{
  Environment, resolve_environment_variables, get_local_environment_variable_names,
}
use sandbox_tester.Docker.Environment.Secrecy.{SamePresence, environment_options-local}
use sandbox_tester.Docker.Executables.{build_denied_executable_mount_options}
use sandbox_tester.Docker.Options.{build_readonly_persistence_mount_options}
use sandbox_tester.Docker.Models.{DockerConfiguration, DockerProfile}
use sandbox_tester.Docker.Script.{build_allowed_directory, build_denied_directory}
use sandbox_tester.Docker.Profiles.Table.{get_docker_profile, profiles}
use sandbox_tester.Docker.Profiles.Lookup.{all_entries, get_docker_profile-all_entries}
use sandbox_tester.Docker.Profiles.Names.{baseline_profile_name}

-- The arguments of a run whose variables are resolved on the given host, as `run_sandbox_container`
-- passes them.
abbrev pub on_host : RunArguments → Environment → Environment → RunArguments
on_host a configured host = record a {
  environment_variables = resolve_environment_variables configured host;
  local_environment_variable_names = get_local_environment_variable_names configured;
}

-- The command does not depend on the values that local variables have on the host: two hosts on
-- which the same configured variables are set give the same command, or the same error.
pub build_docker_run_command-on_host :
    (c : DockerConfiguration) (a : RunArguments) (configured g h : Environment)
    → All (SamePresence g h) configured
    → build_docker_run_command c (on_host a configured g)
      ≡ build_docker_run_command c (on_host a configured h)
unfolding build_docker_run_command docker_run_environment_options docker_run_options leading_options
    trailing_options
build_docker_run_command-on_host c a configured g h s =
    rw (environment_options-local c configured g h a.gateway_ip_address s)

-- The command, once its fallible parts are known.
abbrev pub command_words :
    DockerConfiguration → RunArguments → List String → List String → String → List String
command_words c a ps es script =
    ("docker" ∷ "run" ∷ "--name" ∷ a.container_name ∷ "--init" ∷ [])
    ++ (docker_run_options c a ps es
        ++ (docker_run_environment_options c a
            ++ c.profile.image_name ∷ "/bin/sh" ∷ "-c" ∷ script ∷ []))

-- A command that is built ends in the profile's image and the script of the container, and all that
-- stands before are options.
pub build_docker_run_command-eq-ok :
    (c : DockerConfiguration) (a : RunArguments) (command : List String)
    → build_docker_run_command c a ≡ ok command
    → (ps : List String) × (es : List String) × (script : String)
      × (build_readonly_persistence_mount_options c a.run_directory ≡ ok ps)
      × (build_denied_executable_mount_options c a.run_directory ≡ ok es)
      × (command ≡ command_words c a ps es script)
unfolding build_docker_run_command
build_docker_run_command-eq-ok c a command h =
    let (ps, hp, h₁) = >>=-eq-ok (build_readonly_persistence_mount_options c a.run_directory) _ h in
    let (es, he, h₂) = >>=-eq-ok (build_denied_executable_mount_options c a.run_directory) _ h₁ in
    let (ad, ha, h₃) =
      >>=-eq-ok
        (directory_or a.allowed_directory (build_allowed_directory c a.remote_run_directory)) _
        h₂ in
    let (dd, hd, h₄) =
      >>=-eq-ok (directory_or a.denied_directory (build_denied_directory c a.remote_run_directory))
        _ h₃ in
    (ps, es, _, hp, he, sym (ok-injective _ command h₄))

abbrev is_read_only : String → DockerProfile → Bool
is_read_only name p =
    name == baseline_profile_name || contains p.container_run_options "--read-only"

profiles-is_read_only : all_entries is_read_only profiles ≡ true
unfolding profiles string_eq
profiles-is_read_only = refl

-- The words between `docker run` and the image.
abbrev option_words : DockerConfiguration → RunArguments → List String → List String → List String
option_words c a ps es =
    ("--name" ∷ a.container_name ∷ "--init" ∷ [])
    ++ (docker_run_options c a ps es ++ docker_run_environment_options c a)

contains-option_words :
    (c : DockerConfiguration) (a : RunArguments) (ps es : List String) (x : String)
    → contains c.profile.container_run_options x ≡ true
    → contains (option_words c a ps es) x ≡ true
unfolding docker_run_options
contains-option_words c a ps es x h =
    contains-append_right ("--name" ∷ a.container_name ∷ "--init" ∷ []) _ x (
      contains-append_left (docker_run_options c a ps es) _ x (
        contains-append_right (leading_options c a) _ x
          (contains-append_left c.profile.container_run_options (trailing_options c a ps es) x h)))

-- The words of a command are those of `docker run` with options, the image of the profile, and the
-- shell with the script.
command_words-split :
    (c : DockerConfiguration) (a : RunArguments) (ps es : List String) (script : String)
    → command_words c a ps es script
      ≡ "docker"
        ∷ "run"
        ∷ (option_words c a ps es ++ c.profile.image_name ∷ "/bin/sh" ∷ "-c" ∷ script ∷ [])
command_words-split c a ps es script =
    ap (λ (ws : List String). "docker" ∷ "run" ∷ "--name" ∷ a.container_name ∷ "--init" ∷ ws)
      (sym (append_assoc (docker_run_options c a ps es) (docker_run_environment_options c a) _))

-- Under every profile of the table but the baseline, a command that is built is `docker run`, options
-- among which is `--read-only`, the image of the profile, and the shell with one script: the option
-- stands before the image, where docker reads it, and not among the arguments of the shell.
pub build_docker_run_command_read_only :
    (name : String) (c : DockerConfiguration) (a : RunArguments) (command : List String)
    → get_docker_profile name ≡ ok c.profile
    → name ≢ baseline_profile_name
    → build_docker_run_command c a ≡ ok command
    → (options : List String) × (script : String) × (contains options "--read-only" ≡ true)
      × (command
          ≡ "docker" ∷ "run" ∷ (options ++ c.profile.image_name ∷ "/bin/sh" ∷ "-c" ∷ script ∷ []))
build_docker_run_command_read_only name c a command found other h =
    let (ps, es, script, hp, he, e) = build_docker_run_command-eq-ok c a command h in
    (
      option_words c a ps es,
      script,
      contains-option_words c a ps es "--read-only" (
          ground (
            arith,
            get_docker_profile-all_entries is_read_only name c.profile profiles-is_read_only found,
          )),
      e ∙ command_words-split c a ps es script,
    )
