-- ===== src/Docker/Gateway/Domains.antt =====
-- The domains that the gateway allows, compared with those that are asked for.
use mathlib.Core.List.{map}
use sandbox_tester.Common.{
  String, ◌≡◌, true, false, not, ◌&&◌, ◌||◌, Option, List, arith, string_eq, contains, fromkeys,
  IsDistinct, contains-keep_if, contains-fromkeys, keep_if-IsDistinct, fromkeys-IsDistinct,
}
use sandbox_tester.Docker.Gateway.{
  starts_with_dot, tail, is_redundant, normalize_gateway_domain, append_optional_domain,
  append_git_remote_domain, remove_redundant_gateway_domain_suffixes, build_allowed_gateway_domains,
}

contains-remove_redundant :
    (domains : List String) (d : String)
    → contains (remove_redundant_gateway_domain_suffixes domains) d
      ≡ (contains domains d && not (is_redundant domains d))
unfolding remove_redundant_gateway_domain_suffixes
contains-remove_redundant domains d = contains-keep_if _ domains d

is_redundant_lem :
    (domains : List String) (d : String)
    → is_redundant domains d
      ≡ (starts_with_dot d && (contains domains (tail d) && not (starts_with_dot (tail d))))
unfolding is_redundant
is_redundant_lem domains d =
    ground (arith, contains-keep_if (λ (x : String). not (starts_with_dot x)) domains (tail d))

module _ (hostname : String → Option String) (configured : List String)
    (allowed_domain git_remote_url : Option String) where
  -- The domains as they are configured, before they are made unique.
  abbrev pub requested_domains : List String
  requested_domains = map normalize_gateway_domain (
      append_git_remote_domain hostname (append_optional_domain configured allowed_domain)
        git_remote_url)

  abbrev pub gateway_domains : List String
  gateway_domains = build_allowed_gateway_domains hostname configured allowed_domain git_remote_url

  contains-gateway_domains :
      (d : String)
      → contains gateway_domains d ≡ (
          contains requested_domains d
          && not (
              starts_with_dot d
              && (contains requested_domains (tail d) && not (starts_with_dot (tail d)))))
  unfolding build_allowed_gateway_domains
  contains-gateway_domains d = ground (
    arith,
    contains-remove_redundant (fromkeys requested_domains) d,
    is_redundant_lem (fromkeys requested_domains) d,
    contains-fromkeys requested_domains d,
    contains-fromkeys requested_domains (tail d),
  )

  -- No domain is listed twice.
  gateway_domains-IsDistinct : IsDistinct gateway_domains
  unfolding build_allowed_gateway_domains remove_redundant_gateway_domain_suffixes
  gateway_domains-IsDistinct = keep_if-IsDistinct _ _ (fromkeys-IsDistinct requested_domains)

  -- Where a suffix `.d` is listed and `d` begins with no dot, `d` itself, which it covers, is not listed.
  pub gateway_domains_conflict :
      (d : String)
      → starts_with_dot d ≡ true
      → starts_with_dot (tail d) ≡ false
      → contains gateway_domains d ≡ true
      → contains gateway_domains (tail d) ≡ false
  gateway_domains_conflict d dot plain h =
      ground (arith, contains-gateway_domains d, contains-gateway_domains (tail d))

  -- Every domain that is asked for is listed, or it is a suffix `.d` and `d` is listed for it.
  pub gateway_domains_complete :
      (d : String)
      → contains requested_domains d ≡ true
      → (contains gateway_domains d || (starts_with_dot d && contains gateway_domains (tail d)))
        ≡ true
  gateway_domains_complete d h =
      ground (arith, contains-gateway_domains d, contains-gateway_domains (tail d))
