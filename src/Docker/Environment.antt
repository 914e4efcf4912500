-- ===== src/Docker/Environment.antt =====
-- The environment of the container: `_build_container_environment`, `_build_environment_options` and
-- their helpers in src/docker_sandbox/sandbox_container.py.
pub mod Sorted
pub mod Lookup
pub mod Agree
pub mod Secrecy
use sandbox_tester.Common.{
  ℕ, String, ◌<>◌, Bool, true, false, Option, none, some, List, [], ◌∷◌, ◌++◌, ◌==◌, string_eq,
  contains, if◌then◌else◌, or_default, fromkeys,
}
use sandbox_tester.Common.Dict.{Dict, get, put, pop, keys}
use sandbox_tester.Common.PosixPath
use sandbox_tester.Common.Text.{decimal, join}
use sandbox_tester.Docker.Constants.{
  remote_source_directory, desktop_automation_environment_names, local_environment_value,
}
use sandbox_tester.Docker.Models.{
  AgentSocketForward, EnvironmentVariablePolicy, NetworkGatewayProfile, DockerProfile,
  DockerConfiguration,
}

abbrev pub Environment : Type 0
Environment = Dict String

unfoldable pub get_container_ssh_agent_socket : DockerConfiguration → Option String
get_container_ssh_agent_socket c = elim c.profile.ssh_agent_socket [
  | none ↦ none
  | some forward ↦ some forward.target_path
]

unfoldable pub get_container_gpg_home : DockerConfiguration → Option String
unfolding PosixPath.parse PosixPath.parent PosixPath.to_text
get_container_gpg_home c = elim c.profile.gpg_agent_socket [
  | none ↦ none
  | some forward ↦ some (PosixPath.to_text (PosixPath.parent (PosixPath.parse forward.target_path)))
]

-- `if value is not None: environment[name] = value`
unfoldable pub put_optional : Environment → String → Option String → Environment
put_optional env name none = env
put_optional env name (some value) = put env name value

-- One turn of the loop in `_apply_environment_policies`.
abbrev pub apply_policy : Environment → String → Option String → Environment
apply_policy env name none = pop env name
apply_policy env name (some value) = put env name value

unfoldable pub apply_environment_policies :
    Environment → List EnvironmentVariablePolicy → Environment
apply_environment_policies env [] = env
apply_environment_policies env (p ∷ policies) =
    apply_environment_policies (apply_policy env p.name p.value) policies

unfoldable pub pop_all : Environment → List String → Environment
pop_all env [] = env
pop_all env (name ∷ names) = pop_all (pop env name) names

unfoldable pub apply_desktop_automation_policy : Environment → Bool → Environment
unfolding pop_all
apply_desktop_automation_policy env true = env
apply_desktop_automation_policy env false = pop_all env desktop_automation_environment_names

-- `gateway_ip_address or gateway.proxy_host`: an empty address counts as none.
unfoldable pub get_proxy_host : NetworkGatewayProfile → Option String → String
get_proxy_host gateway none = gateway.proxy_host
get_proxy_host gateway (some address) = if address == "" then gateway.proxy_host else address

unfoldable pub build_proxy_url : NetworkGatewayProfile → Option String → String
unfolding get_proxy_host decimal
build_proxy_url gateway address =
    "http://" <> (get_proxy_host gateway address <> (":" <> decimal gateway.proxy_port))

unfoldable pub build_no_proxy : NetworkGatewayProfile → String
unfolding join fromkeys
build_no_proxy gateway = join "," (fromkeys ("localhost" ∷ "127.0.0.1" ∷ gateway.no_proxy_hosts))

-- The last block of `_build_container_environment`.
unfoldable pub put_proxy : Environment → Option NetworkGatewayProfile → Option String → Environment
put_proxy env none address = env
put_proxy env (some gateway) address =
    let url = build_proxy_url gateway address in
    let no_proxy = build_no_proxy gateway in
    let env₁ = put env "HTTP_PROXY" url in
    let env₂ = put env₁ "HTTPS_PROXY" url in
    let env₃ = put env₂ "NO_PROXY" no_proxy in
    let env₄ = put env₃ "http_proxy" url in
    let env₅ = put env₄ "https_proxy" url in put env₅ "no_proxy" no_proxy

unfoldable pub build_container_environment :
    DockerConfiguration → Environment → Option String → Environment
unfolding put_optional apply_environment_policies apply_desktop_automation_policy put_proxy
build_container_environment c variables address =
    let env₁ = put variables "PYTHONPATH" remote_source_directory in
    let env₂ = put_optional env₁ "SSH_AUTH_SOCK" (get_container_ssh_agent_socket c) in
    let env₃ = put_optional env₂ "GNUPGHOME" (get_container_gpg_home c) in
    let env₄ = apply_environment_policies env₃ c.profile.environment in
    let env₅ = apply_desktop_automation_policy env₄ c.profile.allow_desktop_automation_channel in
    put_proxy env₅ c.profile.network_gateway address

-- One variable of `_resolve_environment_variables`: what is marked local is read on the host.
abbrev pub resolve_variable : Environment → String → String → Environment → Environment
resolve_variable host name value env =
    if value == local_environment_value
    then put_optional env name (get host name)
    else put env name value

unfoldable pub resolve_onto : Environment → Environment → Environment → Environment
resolve_onto host [] env = env
resolve_onto host ((name, value) ∷ rest) env =
    resolve_onto host rest (resolve_variable host name value env)

unfoldable pub resolve_environment_variables : Environment → Environment → Environment
unfolding resolve_onto put_optional
resolve_environment_variables configured host = resolve_onto host configured []

-- The set of names, as the list of its members.
unfoldable pub get_local_environment_variable_names : Environment → List String
get_local_environment_variable_names [] = []
get_local_environment_variable_names ((name, value) ∷ rest) =
    let names = get_local_environment_variable_names rest in
    if value == local_environment_value then name ∷ names else names
