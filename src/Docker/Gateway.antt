-- ===== src/Docker/Gateway.antt =====
-- The egress gateway: its domains, its Squid configuration and its commands, from
-- src/docker_sandbox/sandbox_container.py. `urlparse` gives the host of a URL and is a parameter.
pub mod Domains
pub mod Access
use mathlib.Core.List.{map}
use sandbox_tester.Common.{
  ℕ, Char, code, String, ◌<>◌, Bool, false, not, ◌&&◌, Option, none, some, List, [], ◌∷◌, ◌++◌,
  ◌==◌, string_eq, number_eq, contains, if◌then◌else◌, keep_if, fromkeys,
}
use sandbox_tester.Common.PosixPath.{FilePath}
use sandbox_tester.Common.Text.{is_space, strip, lower, join, decimal}
use sandbox_tester.Docker.Constants.{
  docker_executable, gateway_container_name_prefix, network_name_prefix,
}
use sandbox_tester.Docker.Models.{DockerConfiguration}
use sandbox_tester.Common.PosixPath

abbrev pub is_dot : Char → Bool
is_dot c = code c == b'.'

abbrev pub is_star : Char → Bool
is_star c = code c == b'*'

-- `domain.startswith(".")`
unfoldable pub starts_with_dot : String → Bool
starts_with_dot String.[] = false
starts_with_dot (String.◌∷◌ c s) = is_dot c

-- `domain[1:]`
unfoldable pub tail : String → String
tail String.[] = ""
tail (String.◌∷◌ c s) = s

-- `f".{domain[2:]}"` for a domain that starts with `*.`
unfoldable pub drop_star : String → String
drop_star (String.◌∷◌ a (String.◌∷◌ b s)) =
    if is_star a && is_dot b then String.◌∷◌ b s else String.◌∷◌ a (String.◌∷◌ b s)
drop_star s = s

unfoldable pub normalize_gateway_domain : String → String
unfolding drop_star strip lower number_eq
normalize_gateway_domain domain = drop_star (lower (strip is_space domain))

-- A text that is not empty is appended.
unfoldable pub append_optional_domain : List String → Option String → List String
append_optional_domain domains none = domains
append_optional_domain domains (some value) = if value == "" then domains else domains ++ value ∷ []

module _ (hostname : String → Option String) where
  unfoldable pub append_git_remote_domain : List String → Option String → List String
  unfolding append_optional_domain
  append_git_remote_domain domains none = domains
  append_git_remote_domain domains (some value) =
      if value == "" then domains else append_optional_domain domains (hostname value)

-- A suffix `.d` is redundant where the domain `d` itself is listed.
unfoldable pub is_redundant : List String → String → Bool
unfolding keep_if
is_redundant domains domain =
    starts_with_dot domain
    && contains (keep_if (λ d. not (starts_with_dot d)) domains) (tail domain)

unfoldable pub remove_redundant_gateway_domain_suffixes : List String → List String
unfolding keep_if
remove_redundant_gateway_domain_suffixes domains =
    keep_if (λ domain. not (is_redundant domains domain)) domains

module _ (hostname : String → Option String) where
  unfoldable pub build_allowed_gateway_domains :
      List String → Option String → Option String → List String
  build_allowed_gateway_domains configured allowed_domain git_remote_url =
      let domains = append_optional_domain configured allowed_domain in
      let all = append_git_remote_domain hostname domains git_remote_url in
      remove_redundant_gateway_domain_suffixes (fromkeys (map normalize_gateway_domain all))

-- The rules of the configuration that follow from the addresses.
unfoldable pub address_lines : List String → List String
unfolding join
address_lines [] = []
address_lines (a ∷ addresses) =
    ("acl allowed_ip_addresses dst " <> join " " (a ∷ addresses))
    ∷ "http_access allow allowed_ip_addresses"
    ∷ []

unfoldable pub squid_configuration_lines : List String → ℕ → List String → List String
unfolding join decimal address_lines
squid_configuration_lines domains port addresses =
    ("http_port " <> decimal port)
    ∷ "acl SSL_ports port 443"
    ∷ "acl Safe_ports port 80"
    ∷ "acl Safe_ports port 443"
    ∷ "acl CONNECT method CONNECT"
    ∷ ("acl allowed_sites dstdomain " <> join " " domains)
    ∷ "acl ipv4_literal_url url_regex -i ^[a-z][a-z0-9+.-]*://[0-9]+(\\.[0-9]+){3}([:/]|$)"
    ∷ "acl ipv4_literal_connect url_regex -i ^[0-9]+(\\.[0-9]+){3}:"
    ∷ "acl ipv6_literal_url url_regex -i ^[a-z][a-z0-9+.-]*://\\[[0-9a-f:.]+\\]([:/]|$)"
    ∷ "acl ipv6_literal_connect url_regex -i ^\\[[0-9a-f:.]+\\]:"
    ∷ "http_access deny !Safe_ports"
    ∷ "http_access deny CONNECT !SSL_ports"
    ∷ (address_lines addresses
        ++ "http_access deny ipv4_literal_url" ∷ "http_access deny ipv4_literal_connect"
          ∷ "http_access deny ipv6_literal_url" ∷ "http_access deny ipv6_literal_connect"
          ∷ "http_access allow allowed_sites" ∷ "http_access deny all" ∷ "access_log none"
          ∷ "cache_log /tmp/squid-cache.log" ∷ "" ∷ [])

unfoldable pub build_squid_configuration_text : List String → ℕ → List String → String
unfolding squid_configuration_lines
build_squid_configuration_text domains port addresses =
    join "\n" (squid_configuration_lines domains port addresses)

unfoldable pub build_gateway_container_name : DockerConfiguration → String → Option String
build_gateway_container_name c timestamp = elim c.profile.network_gateway [
  | none ↦ none
  | some gateway ↦ some (gateway_container_name_prefix <> ("-" <> timestamp))
]

unfoldable pub build_network_name : DockerConfiguration → String → Option String
build_network_name c timestamp = elim c.profile.network_gateway [
  | none ↦ none
  | some gateway ↦ some (network_name_prefix <> ("-" <> timestamp))
]

abbrev pub wait_script : String
wait_script =
    "for attempt in 1 2 3 4 5; do squid -k check -f /etc/squid/squid.conf >/dev/null 2>&1 && exit 0; sleep 1; done; squid -k check -f /etc/squid/squid.conf"

unfoldable pub build_gateway_start_commands :
    String → String → String → FilePath → List (List String)
unfolding PosixPath.to_text
build_gateway_start_commands image_name container_name network_name squid_config_path =
    (docker_executable ∷ "network" ∷ "create" ∷ "--internal" ∷ network_name ∷ [])
    ∷ (docker_executable
        ∷ "run"
        ∷ "--detach"
        ∷ "--name"
        ∷ container_name
        ∷ "--network"
        ∷ "bridge"
        ∷ "--mount"
        ∷ ("type=bind,source="
            <> (PosixPath.to_text squid_config_path <> ",target=/etc/squid/squid.conf,readonly"))
        ∷ image_name
        ∷ [])
    ∷ (docker_executable ∷ "network" ∷ "connect" ∷ "--alias" ∷ "egress-gateway" ∷ network_name
        ∷ container_name ∷ [])
    ∷ (docker_executable ∷ "exec" ∷ container_name ∷ "/bin/sh" ∷ "-c" ∷ wait_script ∷ [])
    ∷ []

-- Both names are there whenever there is a gateway.
abbrev pub cleanup_commands : Option String → Option String → Option (List (List String))
cleanup_commands (some network_name) (some container_name) = some (
    (docker_executable ∷ "rm" ∷ "--force" ∷ container_name ∷ [])
    ∷ (docker_executable ∷ "network" ∷ "rm" ∷ network_name ∷ [])
    ∷ [])
cleanup_commands none container_name = none
cleanup_commands (some network_name) none = none

unfoldable pub build_gateway_cleanup_commands :
    DockerConfiguration → Option String → Option String → Option (List (List String))
build_gateway_cleanup_commands c network_name container_name = elim c.profile.network_gateway [
  | none ↦ none
  | some gateway ↦ cleanup_commands network_name container_name
]
