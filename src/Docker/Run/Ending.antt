-- ===== src/Docker/Run/Ending.antt =====
-- The gateway and the removal of the fixtures return, on a host where nothing raises an exception.
use sandbox_tester.Common.{
  String, ◌<>◌, ◌≡◌, refl, Bool, true, false, Option, none, some, List, [], ◌∷◌, Result, ok, err,
  is_ok, arith, traverse, fromkeys, string_eq,
}
use sandbox_tester.Common.Dict.{Dict}
use sandbox_tester.Common.PosixPath.{FilePath, child}
use sandbox_tester.Docker.Command.Buildable.{valid_targets}
use sandbox_tester.Docker.Constants.{
  network_name_prefix, gateway_container_name_prefix, readonly_persistence_source_directory,
  denied_executable_source_directory,
}
use sandbox_tester.Docker.Models.{NetworkGatewayProfile}
use sandbox_tester.Docker.Run.Egress.{
  Started, normalize_gateway_ip_address, write_squid_file, run_gateway_commands,
  inspect_gateway_ip_address, start_gateway, write_container_logs,
}
use sandbox_tester.Docker.Run.Fixtures.{delete_fixture, delete_persistence, delete_stubs}
use sandbox_tester.Docker.Run.Host.{Host, Effect, is_parent, perform, run_docker, lift, pure, ◌>>=◌}
use sandbox_tester.Engine.Json.{Json}
use sandbox_tester.Docker.Run.Succeeds.{
  Succeeds, >>=-Succeeds, pure-Succeeds, lift-Succeeds, unit_then, perform-Succeeds,
  run_docker-Succeeds,
}

abbrev is_empty : List String → Bool
is_empty [] = true
is_empty (x ∷ xs) = false

is_ok-traverse_empty :
    (f : String → Result String) (xs : List String)
    → is_empty xs ≡ true
    → is_ok (traverse f xs) ≡ true
unfolding traverse
is_ok-traverse_empty f [] h = refl
is_ok-traverse_empty f (x ∷ xs) h = ground arith

-- No address is listed.
abbrev pub has_no_addresses : Option NetworkGatewayProfile → Bool
has_no_addresses none = true
has_no_addresses (some gateway) = is_empty gateway.allowed_ip_addresses

module _ (host : Host)
    (raises_nothing : (done : List Effect) (e : Effect) → host.raises done e ≡ none) where
  pub squid-Succeeds :
      (gateway : NetworkGatewayProfile) (run_directory : FilePath) (config_data : Dict Json)
      → is_ok (traverse (normalize_gateway_ip_address host) gateway.allowed_ip_addresses) ≡ true
      → Succeeds (write_squid_file host gateway run_directory config_data)
  squid-Succeeds gateway run_directory config_data h =
      let addresses = traverse (normalize_gateway_ip_address host) gateway.allowed_ip_addresses in
      >>=-Succeeds (lift addresses >>= λ found. pure (fromkeys found)) _
        (>>=-Succeeds (lift addresses) _ (lift-Succeeds addresses h) (λ found. pure-Succeeds _))
        (λ found. perform-Succeeds host raises_nothing _)

  pub squid_file-Succeeds :
      (gateway : Option NetworkGatewayProfile) (run_directory : FilePath) (config_data : Dict Json)
      → has_no_addresses gateway ≡ true
      → Succeeds (elim gateway [
        | none ↦ pure tt
        | some g ↦ write_squid_file host g run_directory config_data
      ])
  squid_file-Succeeds none run_directory config_data h = pure-Succeeds tt
  squid_file-Succeeds (some gateway) run_directory config_data h =
      squid-Succeeds gateway run_directory config_data
        (is_ok-traverse_empty (normalize_gateway_ip_address host) gateway.allowed_ip_addresses h)

  pub run_gateway_commands-Succeeds :
      (commands : List (List String)) → Succeeds (run_gateway_commands host commands)
  unfolding run_gateway_commands
  run_gateway_commands-Succeeds [] = pure-Succeeds []
  run_gateway_commands-Succeeds (command ∷ commands) =
      >>=-Succeeds (run_docker host command) _ (run_docker-Succeeds host raises_nothing command)
        (λ completed.
          >>=-Succeeds (run_gateway_commands host commands) _
            (run_gateway_commands-Succeeds commands) (λ results. pure-Succeeds _))

  pub start_gateway-Succeeds :
      (gateway : NetworkGatewayProfile) (run_directory : FilePath)
      (network_name container_name : String)
      → Succeeds
          (start_gateway host gateway run_directory (some network_name) (some container_name))
  unfolding start_gateway inspect_gateway_ip_address
  start_gateway-Succeeds gateway run_directory network_name container_name =
      >>=-Succeeds (run_gateway_commands host _) _ (run_gateway_commands-Succeeds _) (λ results.
        >>=-Succeeds (inspect_gateway_ip_address host container_name network_name) _
          (>>=-Succeeds (run_docker host _) _ (run_docker-Succeeds host raises_nothing _)
            (λ completed. pure-Succeeds _))
          (λ address.
            unit_then (perform host _) _ (perform-Succeeds host raises_nothing _)
              (pure-Succeeds _)))

  pub started-Succeeds :
      (run_directory : FilePath) (gateway : Option NetworkGatewayProfile)
      → Succeeds {A = Started} (
          let network_name : Option String = elim gateway [
            | none ↦ none
            | some g ↦ some (network_name_prefix <> ("-" <> host.timestamp))
          ] in
          let container_name : Option String = elim gateway [
            | none ↦ none
            | some g ↦ some (gateway_container_name_prefix <> ("-" <> host.timestamp))
          ] in
          elim gateway [
            | none ↦ pure (none, none)
            | some g ↦ start_gateway host g run_directory network_name container_name
          ])
  started-Succeeds run_directory none = pure-Succeeds _
  started-Succeeds run_directory (some gateway) = start_gateway-Succeeds gateway run_directory _ _

  pub logs-Succeeds :
      (run_directory : FilePath) (container_name : Option String)
      → Succeeds (write_container_logs host run_directory container_name)
  logs-Succeeds run_directory none = pure-Succeeds tt
  logs-Succeeds run_directory (some container_name) =
      >>=-Succeeds (run_docker host _) _ (run_docker-Succeeds host raises_nothing _)
        (λ completed. perform-Succeeds host raises_nothing _)

-- A directory of the run is found below the directory of the run, whatever was done before.
abbrev pub StaysBelow : Host → FilePath → String → Type 0
StaysBelow host run_directory name =
    (done : List Effect)
    → is_parent (host.resolve done run_directory) (host.resolve done (child run_directory name))
      ≡ true

pub fixture-Succeeds :
    (host : Host) (run_directory : FilePath) (name refusal : String)
    → StaysBelow host run_directory name
    → Succeeds (delete_fixture host run_directory name refusal)
unfolding delete_fixture
fixture-Succeeds host run_directory name refusal h = record { succeeds = λ done. rw (h done) refl }

pub delete_persistence-Succeeds :
    (host : Host) (run_directory : FilePath) (targets : List String)
    → StaysBelow host run_directory readonly_persistence_source_directory
    → Succeeds (delete_persistence host run_directory targets)
delete_persistence-Succeeds host run_directory [] h = pure-Succeeds tt
delete_persistence-Succeeds host run_directory (t ∷ targets) h =
    fixture-Succeeds host run_directory readonly_persistence_source_directory _ h

pub found_stubs-Succeeds :
    (host : Host) (run_directory : FilePath) (found : Result (List String))
    → valid_targets found ≡ true
    → StaysBelow host run_directory denied_executable_source_directory
    → Succeeds (lift found >>= λ targets. delete_stubs host run_directory targets)
found_stubs-Succeeds host run_directory (ok []) v h = record { succeeds = λ done. refl }
found_stubs-Succeeds host run_directory (ok (t ∷ targets)) v h = record {
  succeeds = λ done.
      (fixture-Succeeds host run_directory denied_executable_source_directory _ h).succeeds done;
}
found_stubs-Succeeds host run_directory (err e) v h = ground arith
