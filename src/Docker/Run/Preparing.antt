-- ===== src/Docker/Run/Preparing.antt =====
-- What a run prepares, it prepares without any docker command.
use sandbox_tester.Common.{
  String, ◌≡◌, refl, false, fromkeys, traverse, string_eq, Option, none, some, List, [], ◌∷◌,
  Result,
}
use sandbox_tester.Common.Dict.{Dict}
use sandbox_tester.Common.PosixPath.{FilePath}
use sandbox_tester.Docker.Executables.{
  get_denied_executable_targets, build_denied_executable_stub_name, validate_container_directory,
}
use sandbox_tester.Docker.Models.{DockerConfiguration, LandlockPathRule, NetworkGatewayProfile}
use sandbox_tester.Docker.Run.Container.{
  RunDirectories, prepare_files, run_directories, prepare_run,
}
use sandbox_tester.Docker.Run.Egress.{
  normalize_gateway_ip_address, build_allowed_gateway_ip_addresses, write_squid_file,
  write_squid_configuration,
}
use sandbox_tester.Docker.Run.Fixtures.{
  prepare_readonly_denied_directory, prepare_persistence_directory,
  prepare_readonly_persistence_directories, write_denied_executable_stub,
  write_denied_executable_stubs, prepare_denied_executable_stubs, write_landlock_rules,
  write_landlock_policy, write_seccomp_profile,
}
use sandbox_tester.Docker.Run.Host.{Host, Action, Effect, lift, perform, pure, ◌>>=◌, ◌>>◌}
use sandbox_tester.Docker.Run.Quiet.{
  IsQuiet, is_command, perform-IsQuiet, for_each-IsQuiet, >>=-IsQuiet, pure-IsQuiet, lift-IsQuiet,
}
use sandbox_tester.Docker.Script.{build_allowed_directory, build_denied_directory}
use sandbox_tester.Engine.Json.{Json}

module _ (host : Host) where
  pub perform-IsQuiet_then :
      {B : Type 0} (e : Effect) (rest : Action B)
      → is_command e ≡ false
      → IsQuiet rest
      → IsQuiet (perform host e >> rest)
  perform-IsQuiet_then e rest h quiet =
      >>=-IsQuiet (perform host e) (λ _. rest) (perform-IsQuiet host e h) (λ _. quiet)

  pub unit_then :
      {B : Type 0} (first : Action (Unit {0})) (rest : Action B)
      → IsQuiet first
      → IsQuiet rest
      → IsQuiet (first >> rest)
  unit_then first rest quiet_first quiet = >>=-IsQuiet first (λ _. rest) quiet_first (λ _. quiet)

  pub lift_then :
      {A B : Type 0} (r : Result A) (k : A → Action B)
      → ((a : A) → IsQuiet (k a))
      → IsQuiet (lift r >>= k)
  lift_then r k h = >>=-IsQuiet (lift r) k (lift-IsQuiet r) h

  pub optional-IsQuiet :
      {A : Type 0} (o : Option A) (f : A → Action (Unit {0}))
      → ((a : A) → IsQuiet (f a))
      → IsQuiet (elim o [ none ↦ pure tt | some a ↦ f a ])
  optional-IsQuiet none f h = pure-IsQuiet tt
  optional-IsQuiet (some a) f h = h a

  pub prepare_readonly_denied_directory-IsQuiet :
      (c : DockerConfiguration) (run_directory : FilePath)
      → IsQuiet (prepare_readonly_denied_directory host c run_directory)
  unfolding prepare_readonly_denied_directory
  prepare_readonly_denied_directory-IsQuiet c run_directory =
      optional-IsQuiet c.profile.readonly_denied_mount_target _ (λ target.
        perform-IsQuiet_then _ _ refl (perform-IsQuiet_then _ _ refl (perform-IsQuiet host _ refl)))

  persistence-IsQuiet :
      (run_directory : FilePath) (target : String)
      → IsQuiet (prepare_persistence_directory host run_directory target)
  unfolding prepare_persistence_directory
  persistence-IsQuiet run_directory target =
      lift_then (validate_container_directory target) _ (λ _. perform-IsQuiet host _ refl)

  stub-IsQuiet :
      (stub_directory : FilePath) (target : String)
      → IsQuiet (write_denied_executable_stub host stub_directory target)
  unfolding write_denied_executable_stub
  stub-IsQuiet stub_directory target =
      lift_then (build_denied_executable_stub_name target) _
        (λ name. perform-IsQuiet_then _ _ refl (perform-IsQuiet host _ refl))

  stubs-IsQuiet :
      (run_directory : FilePath) (targets : List String)
      → IsQuiet (write_denied_executable_stubs host run_directory targets)
  unfolding write_denied_executable_stubs
  stubs-IsQuiet run_directory [] = pure-IsQuiet tt
  stubs-IsQuiet run_directory (t ∷ targets) =
      perform-IsQuiet_then _ _ refl (for_each-IsQuiet _ (t ∷ targets) (λ t. stub-IsQuiet _ t))

  denied_stubs-IsQuiet :
      (c : DockerConfiguration) (run_directory : FilePath)
      → IsQuiet (prepare_denied_executable_stubs host c run_directory)
  unfolding prepare_denied_executable_stubs
  denied_stubs-IsQuiet c run_directory =
      lift_then (get_denied_executable_targets c) _ (λ ts. stubs-IsQuiet run_directory ts)

  rules-IsQuiet :
      (run_directory : FilePath) (rules : List LandlockPathRule)
      → IsQuiet (write_landlock_rules host run_directory rules)
  rules-IsQuiet run_directory [] = pure-IsQuiet tt
  rules-IsQuiet run_directory (r ∷ rules) = perform-IsQuiet host _ refl

  squid-IsQuiet :
      (gateway : NetworkGatewayProfile) (run_directory : FilePath) (config_data : Dict Json)
      → IsQuiet (write_squid_file host gateway run_directory config_data)
  squid-IsQuiet gateway run_directory config_data =
      >>=-IsQuiet (build_allowed_gateway_ip_addresses host gateway.allowed_ip_addresses) _
        (lift_then (traverse (normalize_gateway_ip_address host) gateway.allowed_ip_addresses) _
          (λ addresses. pure-IsQuiet (fromkeys addresses)))
        (λ addresses. perform-IsQuiet host _ refl)

  pub prepare_files-IsQuiet :
      (c : DockerConfiguration) (directories : RunDirectories)
      → IsQuiet (prepare_files host c directories)
  unfolding prepare_files prepare_readonly_persistence_directories write_landlock_policy
      write_seccomp_profile write_squid_configuration
  prepare_files-IsQuiet c directories =
      unit_then _ _ (prepare_readonly_denied_directory-IsQuiet c _) (
        unit_then _ _
          (for_each-IsQuiet _ c.profile.readonly_persistence_directories
            (λ t. persistence-IsQuiet _ t))
          (unit_then _ _ (denied_stubs-IsQuiet c _) (
            unit_then _ _ (rules-IsQuiet _ c.profile.landlock_rules) (
              unit_then _ _
                (optional-IsQuiet c.profile.seccomp_profile _ (λ p. perform-IsQuiet host _ refl))
                (unit_then _ _
                  (optional-IsQuiet c.profile.network_gateway _ (λ g. squid-IsQuiet g _ _))
                  (perform-IsQuiet host _ refl))))))

  run_directories-IsQuiet : (c : DockerConfiguration) → IsQuiet (run_directories host c)
  unfolding run_directories
  run_directories-IsQuiet c =
      lift_then (build_allowed_directory c _) _
        (λ allowed. lift_then (build_denied_directory c _) _ (λ denied. pure-IsQuiet _))

  pub prepare_run-IsQuiet : (c : DockerConfiguration) → IsQuiet (prepare_run host c)
  unfolding prepare_run
  prepare_run-IsQuiet c = perform-IsQuiet_then _ _ refl (
      >>=-IsQuiet (run_directories host c) _ (run_directories-IsQuiet c)
        (λ directories. unit_then _ _ (prepare_files-IsQuiet c directories) (pure-IsQuiet _)))
