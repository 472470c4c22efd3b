-- ===== src/Parser.antt =====
-- src/compiler/parser: a line of a block list. The regular expressions, the `addr` and the `idna`
-- crates are parameters: a match gives its named groups, which may be absent.
use bancuh_dns.Prelude.{
  Option, some, map_option, and_then, both, ok_option, Result, ◌++◌, if◌then◌else◌,
}
use bancuh_dns.Text.{Text, codes, starts_with}
use bancuh_dns.Text.Trim.{trim, remove_stars}

pub record Crates : Type 1 where
  pub AddrError : Type 0
  pub IdnaError : Type 0
  -- `RE.captures(value)` of domain.rs, with its group `domain`.
  pub domain_captures : Text → Option (Option Text)
  -- That of host.rs, with its groups `ip` and `domain`.
  pub host_captures : Text → Option (Option Text × Option Text)
  -- That of cname.rs, with its groups `domain` and `alias`.
  pub cname_captures : Text → Option (Option Text × Option Text)
  -- `addr::parse_domain_name`, and `as_str` of the name.
  pub parse_domain_name : Text → Result AddrError Text
  -- `idna::domain_to_ascii`
  pub domain_to_ascii : Text → Result IdnaError Text

-- `Domain`
pub record Domain : Type 0 where
  pub text : Text

-- `Host`
pub record Host : Type 0 where
  pub ip : Text
  pub domain : Domain

-- `CName`
pub record CName : Type 0 where
  pub domain : Domain
  pub alias : Domain

module _ (crates : Crates) where
  -- The name of a match: `addr` checks it without its "*.", which is put back.
  unfoldable pub checked_name : Text → Option Text
  checked_name d =
      if starts_with d (codes "*.")
      then map_option (λ v. codes "*." ++ v) (ok_option (crates.parse_domain_name (remove_stars d)))
      else map_option trim (ok_option (crates.parse_domain_name d))

  -- `parse_domain`
  unfoldable pub parse_domain : Text → Option Domain
  unfolding checked_name
  parse_domain value =
      let name = and_then (and_then (crates.domain_captures value) (λ cap. cap)) checked_name in
      let ascii = and_then (map_option trim name) (λ d. ok_option (crates.domain_to_ascii d)) in
      map_option (λ d. record { text = d }) ascii

  -- `parse_host`
  unfoldable pub parse_host : Text → Option Host
  unfolding parse_domain
  parse_host value = and_then (crates.host_captures value) λ captures.
      both captures.0 captures.1 λ ip domain.
        and_then (parse_domain (trim domain)) λ d. some (record { ip = trim ip; domain = d })

  -- `parse_cname`
  unfoldable pub parse_cname : Text → Option CName
  unfolding parse_domain
  parse_cname value = and_then (crates.cname_captures value) λ captures.
      both captures.0 captures.1 λ domain alias.
        both (parse_domain (trim domain)) (parse_domain (trim alias))
          λ d a. some (record { domain = d; alias = a })
