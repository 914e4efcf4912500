-- ===== src/Docker/Run/Succeeds.antt =====
-- Actions that return whatever was done before, and which of the preparations do, on a host where
-- nothing raises an exception.
use sandbox_tester.Common.{
  String, ◌≡◌, refl, true, false, Option, none, some, List, [], ◌∷◌, Result, ok, err, is_ok, arith,
  string_eq,
}
use sandbox_tester.Common.PosixPath.{FilePath}
use sandbox_tester.Docker.Command.Buildable.{all_valid, valid_targets}
use sandbox_tester.Docker.Executables.{
  is_invalid_path, validate_container_directory, validate_executable_path,
  build_denied_executable_stub_name,
}
use sandbox_tester.Docker.Models.{DockerConfiguration, LandlockPathRule}
use sandbox_tester.Docker.Run.Fixtures.{
  prepare_readonly_denied_directory, prepare_persistence_directory, write_denied_executable_stub,
  write_denied_executable_stubs, write_landlock_rules,
}
use sandbox_tester.Docker.Run.Host.{
  Host, Action, Effect, continue, perform, run_docker, for_each, lift, pure, ◌>>=◌, ◌>>◌,
}

-- The action returns, whatever was done before.
pub record Succeeds {A : Type 0} (m : Action A) : Type 0 where
  pub succeeds : (done : List Effect) → is_ok ((m done).1) ≡ true

module _ {A B : Type 0} where
  continue-Succeeds :
      (r : List Effect × Result A) (k : A → Action B)
      → is_ok (r.1) ≡ true
      → ((a : A) → Succeeds (k a))
      → is_ok ((continue r k).1) ≡ true
  continue-Succeeds (done, ok a) k h hk = (hk a).succeeds done
  continue-Succeeds (done, err e) k h hk = ground arith

  pub >>=-Succeeds :
      (m : Action A) (k : A → Action B)
      → Succeeds m
      → ((a : A) → Succeeds (k a))
      → Succeeds (m >>= k)
  >>=-Succeeds m k hm hk = record {
    succeeds = λ done. continue-Succeeds (m done) k (hm.succeeds done) hk;
  }

module _ {A : Type 0} where
  pub pure-Succeeds : (a : A) → Succeeds (pure a)
  pure-Succeeds a = record { succeeds = λ done. refl }

  pub lift-Succeeds : (r : Result A) → is_ok r ≡ true → Succeeds (lift r)
  lift-Succeeds r h = record { succeeds = λ done. h }

  pub unit_then :
      (first : Action (Unit {0})) (rest : Action A)
      → Succeeds first
      → Succeeds rest
      → Succeeds (first >> rest)
  unit_then first rest h k = >>=-Succeeds first (λ _. rest) h (λ _. k)

pub optional-Succeeds :
    {A : Type 0} (o : Option A) (f : A → Action (Unit {0}))
    → ((a : A) → Succeeds (f a))
    → Succeeds (elim o [ none ↦ pure tt | some a ↦ f a ])
optional-Succeeds none f h = pure-Succeeds tt
optional-Succeeds (some a) f h = h a

-- A loop over valid paths.
pub for_each-Succeeds :
    (body : String → Action (Unit {0})) (paths : List String)
    → ((path : String) → is_invalid_path path ≡ false → Succeeds (body path))
    → all_valid paths ≡ true
    → Succeeds (for_each body paths)
unfolding for_each
for_each-Succeeds body [] h valid = pure-Succeeds tt
for_each-Succeeds body (t ∷ paths) h valid =
    unit_then (body t) _ (h t (ground arith)) (for_each-Succeeds body paths h (ground arith))

module _ (host : Host)
    (raises_nothing : (done : List Effect) (e : Effect) → host.raises done e ≡ none) where
  pub perform-Succeeds : (e : Effect) → Succeeds (perform host e)
  unfolding perform
  perform-Succeeds e = record { succeeds = λ done. rw (raises_nothing done e) refl }

  pub run_docker-Succeeds : (command : List String) → Succeeds (run_docker host command)
  unfolding run_docker
  run_docker-Succeeds command =
      >>=-Succeeds (perform host _) _ (perform-Succeeds _) (λ u. record { succeeds = λ done. refl })

  pub files-Succeeds :
      (c : DockerConfiguration) (run_directory : FilePath)
      → Succeeds (prepare_readonly_denied_directory host c run_directory)
  unfolding prepare_readonly_denied_directory
  files-Succeeds c run_directory =
      optional-Succeeds c.profile.readonly_denied_mount_target _ (λ target.
        unit_then (perform host _) _ (perform-Succeeds _)
          (unit_then (perform host _) _ (perform-Succeeds _) (perform-Succeeds _)))

  pub persistence-Succeeds :
      (run_directory : FilePath) (target : String)
      → is_invalid_path target ≡ false
      → Succeeds (prepare_persistence_directory host run_directory target)
  unfolding prepare_persistence_directory validate_container_directory
  persistence-Succeeds run_directory target h =
      let validated = validate_container_directory target in
      unit_then (lift validated) _ (lift-Succeeds validated (rw h refl)) (perform-Succeeds _)

  stub-Succeeds :
      (stub_directory : FilePath) (target : String)
      → is_invalid_path target ≡ false
      → Succeeds (write_denied_executable_stub host stub_directory target)
  unfolding write_denied_executable_stub build_denied_executable_stub_name validate_executable_path
  stub-Succeeds stub_directory target h =
      let stub_name = build_denied_executable_stub_name target in
      >>=-Succeeds (lift stub_name) _ (lift-Succeeds stub_name (rw h refl))
        (λ name. unit_then (perform host _) _ (perform-Succeeds _) (perform-Succeeds _))

  stubs-Succeeds :
      (run_directory : FilePath) (targets : List String)
      → all_valid targets ≡ true
      → Succeeds (write_denied_executable_stubs host run_directory targets)
  unfolding write_denied_executable_stubs
  stubs-Succeeds run_directory [] h = pure-Succeeds tt
  stubs-Succeeds run_directory (t ∷ targets) h =
      unit_then (perform host _) _ (perform-Succeeds _)
        (for_each-Succeeds _ (t ∷ targets) (λ path. stub-Succeeds _ path) h)

  pub found-Succeeds :
      (run_directory : FilePath) (found : Result (List String))
      → valid_targets found ≡ true
      → Succeeds
          (lift found >>= λ targets. write_denied_executable_stubs host run_directory targets)
  found-Succeeds run_directory (ok targets) h = record {
    succeeds = λ done. (stubs-Succeeds run_directory targets h).succeeds done;
  }
  found-Succeeds run_directory (err e) h = ground arith

  pub rules-Succeeds :
      (run_directory : FilePath) (rules : List LandlockPathRule)
      → Succeeds (write_landlock_rules host run_directory rules)
  rules-Succeeds run_directory [] = pure-Succeeds tt
  rules-Succeeds run_directory (r ∷ rules) = perform-Succeeds _
