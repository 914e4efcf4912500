-- ===== src/Docker/Gateway/Access.antt =====
-- What the Squid configuration decides. Squid reads the `http_access` rules in order, and the first
-- rule whose terms all hold decides; a term is the name of an acl, or `!` and a name.
use text.Mathlib.TextLemmas.{cons-append}
use sandbox_tester.Common.{
  ℕ, Char, code, String, ◌<>◌, ◌≡◌, refl, Bool, true, false, not, ◌&&◌, ◌||◌, Option, none, some,
  List, [], ◌∷◌, arith, ◌==◌, number_eq, string_eq, if◌then◌else◌, has_any,
}
use sandbox_tester.Common.Text.{split, decimal, join}
use sandbox_tester.Docker.Gateway.{squid_configuration_lines}

-- What follows a prefix.
after_prefix : String → String → Option String
after_prefix String.[] s = some s
after_prefix (String.◌∷◌ a p) String.[] = none
after_prefix (String.◌∷◌ a p) (String.◌∷◌ b s) =
    let rest = after_prefix p s in if code a == code b then rest else none

abbrev is_blank : Char → Bool
is_blank c = code c == 32

-- The terms of a rule: an acl, and whether it is negated.
term : String → Bool × String
term String.[] = (true, "")
term (String.◌∷◌ c s) = if code c == b'!' then (false, s) else (true, String.◌∷◌ c s)

abbrev or_else : Option Bool → Option Bool → Option Bool
or_else none rest = rest
or_else (some verdict) rest = some verdict

module _ (holds : String → Bool) where
  term_holds : Bool × String → Bool
  term_holds (true, acl) = holds acl
  term_holds (false, acl) = not (holds acl)

  all_hold : List String → Bool
  all_hold [] = true
  all_hold (w ∷ ws) = term_holds (term w) && all_hold ws

  -- The verdict of one rule, where it applies.
  rule_verdict : List String → Option Bool
  rule_verdict [] = none
  rule_verdict (verdict ∷ terms) = if all_hold terms then some (verdict == "allow") else none

  line_verdict : Option String → Option Bool
  line_verdict none = none
  line_verdict (some rule) = rule_verdict (split is_blank rule)

  -- The verdict of a configuration on a request for which `holds` says which acls match.
  pub access : List String → Option Bool
  access [] = none
  access (line ∷ lines) = or_else (line_verdict (after_prefix "http_access " line)) (access lines)

-- Two texts differ before either ends.
abbrev differ : String → String → Bool
differ String.[] s = false
differ (String.◌∷◌ a p) String.[] = false
differ (String.◌∷◌ a p) (String.◌∷◌ b s) = not (code a == code b) || differ p s

after_prefix-append : (p a s : String) → differ p a ≡ true → after_prefix p (a <> s) ≡ none
unfolding after_prefix
after_prefix-append String.[] a s h = cc
after_prefix-append (String.◌∷◌ x p) String.[] s h = cc
after_prefix-append (String.◌∷◌ x p) (String.◌∷◌ y a) s h =
    rw cons-append (ground (arith, after_prefix-append p a s))

-- Whichever acls match a request, as long as `all` does, the rules decide on it, and allow it exactly
-- if its port is safe, a tunnel goes to an SSL port, and either there are configured addresses and
-- its address is one of them, or its host is no literal address and is one of the allowed sites.
pub access-squid_configuration_lines :
    (holds : String → Bool) (domains : List String) (port : ℕ) (addresses : List String)
    → holds "all" ≡ true
    → access holds (squid_configuration_lines domains port addresses)
      ≡ some (
          holds "Safe_ports"
          && (not (holds "CONNECT") || holds "SSL_ports")
          && (has_any addresses && holds "allowed_ip_addresses"
              || (not (holds "ipv4_literal_url")
                  && not (holds "ipv4_literal_connect")
                  && not (holds "ipv6_literal_url")
                  && not (holds "ipv6_literal_connect")
                  && holds "allowed_sites")))
unfolding access line_verdict rule_verdict all_hold term_holds term after_prefix split
    squid_configuration_lines string_eq number_eq
access-squid_configuration_lines holds domains port [] h =
    rw
      (
        after_prefix-append "http_access " "http_port " (decimal port) refl,
        after_prefix-append "http_access " "acl allowed_sites dstdomain " (join " " domains) refl,
      )
      (ground arith)
access-squid_configuration_lines holds domains port (a ∷ addresses) h =
    rw
      (
        after_prefix-append "http_access " "http_port " (decimal port) refl,
        after_prefix-append "http_access " "acl allowed_sites dstdomain " (join " " domains) refl,
        after_prefix-append "http_access " "acl allowed_ip_addresses dst "
            (join " " (a ∷ addresses)) refl,
      )
      (ground arith)
