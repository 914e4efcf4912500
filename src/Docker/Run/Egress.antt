-- ===== src/Docker/Run/Egress.antt =====
-- Starting the egress gateway of a run, its address and its logs:
-- src/docker_sandbox/sandbox_container.py.
use sandbox_tester.Common.{
  Char, code, String, ◌<>◌, Bool, ◌||◌, Option, none, some, List, [], ◌∷◌, ◌==◌, string_eq,
  number_eq, if◌then◌else◌, fromkeys, traverse, Result, err, runtime_error,
}
use sandbox_tester.Common.Dict.{Dict, get}
use sandbox_tester.Common.PosixPath.{FilePath}
use sandbox_tester.Common.Text.{strip, is_space}
use sandbox_tester.Docker.Constants.{docker_executable, squid_configuration_file_name}
use sandbox_tester.Docker.Gateway.{
  build_allowed_gateway_domains, build_squid_configuration_text, build_gateway_start_commands,
}
use sandbox_tester.Docker.Models.{DockerConfiguration, NetworkGatewayProfile}
use sandbox_tester.Docker.Run.Host.{
  Host, Action, GatewayCommandResult, write_text, plain, gateway_start_results, gateway_log, pure,
  lift, ◌>>=◌, ◌>>◌, perform, run_docker,
}
use sandbox_tester.Engine.Json.{Json, null, boolean, text, array, object}
use sandbox_tester.Groups.Machine.{Completed, is_code}
use sandbox_tester.Common.PosixPath

-- `isinstance(value, str)`
abbrev text_value : Json → Option String
text_value (text s) = some s
text_value null = none
text_value (boolean b) = none
text_value (array xs) = none
text_value (object ms) = none

abbrev pub text_member : Option Json → Option String
text_member none = none
text_member (some j) = text_value j

abbrev is_bracket : Char → Bool
is_bracket c = code c == b'[' || code c == b']'

-- A start of the gateway: its commands, if there is a gateway, and the address that was found.
abbrev pub Started : Type 0
Started = Option (List (List String)) × Option String

-- An empty address, and what the template prints where there is none, count as none.
abbrev pub address_of : String → Option String
address_of address = if address == "" || address == "<no value>" then none else some address

module _ (host : Host) where
  unfoldable pub normalize_gateway_ip_address : String → Result String
  unfolding strip number_eq
  normalize_gateway_ip_address address = host.ip_network (strip is_bracket (strip is_space address))

  abbrev pub build_allowed_gateway_ip_addresses : List String → Action (List String)
  build_allowed_gateway_ip_addresses configured = do
    addresses ← lift (traverse normalize_gateway_ip_address configured)
    pure (fromkeys addresses)

  abbrev pub write_squid_file : NetworkGatewayProfile → FilePath → Dict Json → Action (Unit {0})
  write_squid_file gateway run_directory config_data = do
    let allowed_domains =
        build_allowed_gateway_domains host.hostname gateway.allowed_domains
          (text_member (get config_data "allowed_domain"))
          (text_member (get config_data "git_remote_url"))
    allowed_ip_addresses ← build_allowed_gateway_ip_addresses gateway.allowed_ip_addresses
    let squid_config =
        build_squid_configuration_text allowed_domains gateway.proxy_port allowed_ip_addresses
    perform host (
        write_text (PosixPath.child run_directory squid_configuration_file_name)
          (plain squid_config))

  unfoldable pub write_squid_configuration :
      DockerConfiguration → FilePath → Dict Json → Action (Unit {0})
  unfolding PosixPath.child fromkeys traverse normalize_gateway_ip_address
  write_squid_configuration c run_directory config_data = elim c.profile.network_gateway [
    | none ↦ pure tt
    | some gateway ↦ write_squid_file gateway run_directory config_data
  ]

  -- The loop over the start commands.
  unfoldable pub run_gateway_commands : List (List String) → Action (List GatewayCommandResult)
  run_gateway_commands [] = pure []
  run_gateway_commands (command ∷ commands) = do
    completed ← run_docker host command
    results ← run_gateway_commands commands
    pure (record { command = command; completed = completed } ∷ results)

  unfoldable pub build_gateway_inspect_command : String → String → List String
  build_gateway_inspect_command container_name network_name =
      let template =
        "{{(index (index .NetworkSettings.Networks "
        <> (host.dumps_text network_name <> ") \"IPAddress\")}}") in
      docker_executable ∷ "inspect" ∷ "--format" ∷ template ∷ container_name ∷ []

  abbrev pub inspected_address : Completed → Option String
  inspected_address completed =
      if is_code 0 completed.returncode then address_of (strip is_space completed.stdout) else none

  unfoldable pub inspect_gateway_ip_address : String → String → Action (Option String)
  unfolding strip string_eq number_eq
  inspect_gateway_ip_address container_name network_name = do
    completed ← run_docker host (build_gateway_inspect_command container_name network_name)
    pure (inspected_address completed)

  unfoldable pub start_gateway :
      NetworkGatewayProfile → FilePath → Option String → Option String → Action Started
  unfolding PosixPath.child
  start_gateway gateway run_directory (some network_name) (some container_name) = do
    let commands =
        build_gateway_start_commands gateway.image_name container_name network_name
          (PosixPath.child run_directory squid_configuration_file_name)
    results ← run_gateway_commands commands
    address ← inspect_gateway_ip_address container_name network_name
    let inspect_command = build_gateway_inspect_command container_name network_name
    perform host (
        write_text (PosixPath.child run_directory "gateway-start-results.json")
          (gateway_start_results results inspect_command address))
    pure (some commands, address)
  start_gateway gateway run_directory none container_name =
      lift (err (runtime_error "Network gateway profile requires network and container names."))
  start_gateway gateway run_directory (some network_name) none =
      lift (err (runtime_error "Network gateway profile requires network and container names."))

  unfoldable pub start_network_gateway :
      DockerConfiguration → FilePath → Option String → Option String → Action Started
  start_network_gateway c run_directory network_name container_name =
      elim c.profile.network_gateway [
        | none ↦ pure (none, none)
        | some gateway ↦ start_gateway gateway run_directory network_name container_name
      ]

  abbrev pub write_container_logs : FilePath → Option String → Action (Unit {0})
  write_container_logs run_directory none = pure tt
  write_container_logs run_directory (some container_name) = do
    completed ← run_docker host (docker_executable ∷ "logs" ∷ container_name ∷ [])
    perform host
        (write_text (PosixPath.child run_directory "gateway-logs.json") (gateway_log completed))

  unfoldable pub write_gateway_logs :
      DockerConfiguration → FilePath → Option String → Action (Unit {0})
  unfolding PosixPath.child
  write_gateway_logs c run_directory container_name = elim c.profile.network_gateway [
    | none ↦ pure tt
    | some gateway ↦ write_container_logs run_directory container_name
  ]
