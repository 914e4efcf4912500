-- ===== src/Docker/Tests/Policy.antt =====
-- Tests of the gateway's domains and of the Landlock rights.
use Prim.Native.Nat.{bit_and}
use sandbox_tester.Common.{
  none, if◌then◌else◌, number_eq, fromkeys, String, ◌≡◌, refl, true, false, ◌||◌, Option, some,
  List, [], ◌∷◌, ok, string_eq, ◌==◌, contains, is_ok,
}
use sandbox_tester.Docker.Landlock.{
  collect_rights, access_by_name, supported_access_mask, parse_access, write_rights,
}
use sandbox_tester.Docker.Gateway.{
  is_redundant, normalize_gateway_domain, append_git_remote_domain,
  remove_redundant_gateway_domain_suffixes, build_allowed_gateway_domains, starts_with_dot, tail,
}
use sandbox_tester.Common.Text.{any_char}
use sandbox_tester.Docker.Gateway.Domains.{
  gateway_domains, gateway_domains_conflict, gateway_domains_complete,
}
use sandbox_tester.Docker.Landlock.Access.{
  parse_access_lem, is_ok-parse_access, parse_access_no_write,
}

abbrev hostname : String → Option String
hostname url = if url == "https://git.example.org/r.git" then some "git.example.org" else none

abbrev configured_domains : List String
configured_domains = "*.example.com" ∷ " Example.com" ∷ ".pypi.org" ∷ []

abbrev resulting_domains : List String
resulting_domains = "example.com" ∷ ".pypi.org" ∷ "git.example.org" ∷ []

gateway_domains_example :
    gateway_domains hostname configured_domains none (some "https://git.example.org/r.git")
    ≡ resulting_domains
unfolding string_eq build_allowed_gateway_domains remove_redundant_gateway_domain_suffixes fromkeys
    append_git_remote_domain normalize_gateway_domain is_redundant starts_with_dot tail
gateway_domains_example = refl

gateway_domains_conflict_example :
    contains
      (gateway_domains hostname configured_domains none (some "https://git.example.org/r.git"))
      "pypi.org"
    ≡ false
unfolding string_eq starts_with_dot number_eq tail build_allowed_gateway_domains
    remove_redundant_gateway_domain_suffixes fromkeys append_git_remote_domain
    normalize_gateway_domain is_redundant
gateway_domains_conflict_example =
    gateway_domains_conflict hostname configured_domains none (some "https://git.example.org/r.git")
      ".pypi.org" refl refl refl

gateway_domains_complete_example :
    (contains
        (gateway_domains hostname configured_domains none (some "https://git.example.org/r.git"))
        ".example.com"
      || contains
          (gateway_domains hostname configured_domains none (some "https://git.example.org/r.git"))
          "example.com")
    ≡ true
unfolding string_eq append_git_remote_domain normalize_gateway_domain build_allowed_gateway_domains
    starts_with_dot tail
gateway_domains_complete_example =
    gateway_domains_complete hostname configured_domains none (some "https://git.example.org/r.git")
      ".example.com" refl

parse_access_lem_example : parse_access "rxr" ≡ ok 24589
unfolding number_eq any_char
parse_access_lem_example = parse_access_lem "rxr" refl

is_ok-parse_access_example : is_ok (parse_access "rq") ≡ false
unfolding number_eq any_char
is_ok-parse_access_example = is_ok-parse_access "rq"

parse_access_no_write_example : bit_and (bit_and 24589 (supported_access_mask 3)) write_rights ≡ 0
unfolding parse_access number_eq collect_rights access_by_name any_char
parse_access_no_write_example = parse_access_no_write "rx" 24589 3 refl refl
