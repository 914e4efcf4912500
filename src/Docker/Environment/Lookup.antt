-- ===== src/Docker/Environment/Lookup.antt =====
-- What each variable of the container holds: the order in which the sources override one another.
use sandbox_tester.Common.{
  String, ◌≡◌, refl, ◌∙◌, ap, Bool, true, false, not, ◌&&◌, Option, none, some, List, [], ◌∷◌,
  arith, ◌==◌, string_eq, contains, if◌then◌else◌,
}
use sandbox_tester.Common.Dict.{get, pop, get-put, get-pop}
use sandbox_tester.Docker.Constants.{remote_source_directory, desktop_automation_environment_names}
use sandbox_tester.Docker.Models.{
  EnvironmentVariablePolicy, NetworkGatewayProfile, DockerConfiguration,
}
use sandbox_tester.Docker.Environment.{
  Environment, get_container_ssh_agent_socket, get_container_gpg_home, put_optional, apply_policy,
  apply_environment_policies, pop_all, apply_desktop_automation_policy, build_proxy_url,
  build_no_proxy, put_proxy, build_container_environment,
}

abbrev overridden : String → String → Option String → Option String → Option String
overridden name key none old = old
overridden name key (some value) old = if name == key then some value else old

-- The value of a variable after the policies: the last one that names it decides.
abbrev pub policy_value : List EnvironmentVariablePolicy → String → Option String → Option String
policy_value [] name old = old
policy_value (p ∷ policies) name old =
    policy_value policies name (if name == p.name then p.value else old)

abbrev pub proxy_value :
    Option NetworkGatewayProfile → Option String → String → Option String → Option String
proxy_value none address name old = old
proxy_value (some gateway) address name old =
    if name == "no_proxy"
    then some (build_no_proxy gateway)
    else if name == "https_proxy"
    then some (build_proxy_url gateway address)
    else if name == "http_proxy"
    then some (build_proxy_url gateway address)
    else if name == "NO_PROXY"
    then some (build_no_proxy gateway)
    else if name == "HTTPS_PROXY"
    then some (build_proxy_url gateway address)
    else if name == "HTTP_PROXY"
    then some (build_proxy_url gateway address)
    else old

-- The variables before any policy: the caller's, the source directory, the forwarded agents.
abbrev pub base_value : DockerConfiguration → Environment → String → Option String
base_value c variables name = overridden name "GNUPGHOME" (get_container_gpg_home c) (
    overridden name "SSH_AUTH_SOCK" (get_container_ssh_agent_socket c)
      (if name == "PYTHONPATH" then some remote_source_directory else get variables name))

get-put_optional :
    (env : Environment) (key name : String) (value : Option String)
    → get (put_optional env key value) name ≡ overridden name key value (get env name)
unfolding put_optional
get-put_optional env key name none = refl
get-put_optional env key name (some v) = get-put env key name v

get-apply_policy :
    (env : Environment) (key name : String) (value : Option String)
    → get (apply_policy env key value) name ≡ (if name == key then value else get env name)
get-apply_policy env key name none = get-pop env key name
get-apply_policy env key name (some v) = get-put env key name v

get-apply_environment_policies :
    (env : Environment) (policies : List EnvironmentVariablePolicy) (name : String)
    → get (apply_environment_policies env policies) name ≡ policy_value policies name (get env name)
unfolding apply_environment_policies
get-apply_environment_policies env [] name = refl
get-apply_environment_policies env (p ∷ policies) name =
    get-apply_environment_policies (apply_policy env p.name p.value) policies name
    ∙ ap (policy_value policies name) (get-apply_policy env p.name name p.value)

get-pop_all :
    (env : Environment) (names : List String) (name : String)
    → get (pop_all env names) name ≡ (if contains names name then none else get env name)
unfolding pop_all
get-pop_all env [] name = refl
get-pop_all env (n ∷ names) name = get-pop_all (pop env n) names name ∙ rw get-pop (ground arith)

get-apply_desktop_automation_policy :
    (env : Environment) (allow : Bool) (name : String)
    → get (apply_desktop_automation_policy env allow) name ≡ (
        if not allow && contains desktop_automation_environment_names name
        then none
        else get env name)
unfolding apply_desktop_automation_policy
get-apply_desktop_automation_policy env true name = refl
get-apply_desktop_automation_policy env false name =
    get-pop_all env desktop_automation_environment_names name

get-put_proxy :
    (env : Environment) (gateway : Option NetworkGatewayProfile) (address : Option String)
    (name : String)
    → get (put_proxy env gateway address) name ≡ proxy_value gateway address name (get env name)
unfolding put_proxy
get-put_proxy env none address name = refl
get-put_proxy env (some gateway) address name = simp get-put

-- The value of every variable in the container. The proxy of a gateway decides first, then the removal
-- of the desktop variables, then the profile's policies, the last that names the variable first,
-- then the forwarded agents, the source directory, and the variables given.
pub get-build_container_environment :
    (c : DockerConfiguration) (variables : Environment) (address : Option String) (name : String)
    → get (build_container_environment c variables address) name
      ≡ proxy_value c.profile.network_gateway address name (
          if not c.profile.allow_desktop_automation_channel
            && contains desktop_automation_environment_names name
          then none
          else policy_value c.profile.environment name (base_value c variables name))
unfolding build_container_environment
get-build_container_environment c variables address name =
    get-put_proxy _ c.profile.network_gateway address name
    ∙ ap (proxy_value c.profile.network_gateway address name) (
        get-apply_desktop_automation_policy _ c.profile.allow_desktop_automation_channel name
        ∙ simp (get-apply_environment_policies, get-put_optional, get-put))
