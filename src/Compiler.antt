-- ===== src/Compiler.antt =====
-- src/compiler: the block lists of a configuration, fetched, parsed and written to the stores. A line
-- that does not parse is skipped, so is a list that cannot be fetched, and an error of a write is
-- ignored. `finishes` tells whether the blocking task that parses a text comes to its end.
pub mod Held
pub mod Precedence
pub mod Strings
pub mod Typed
pub mod Effect
pub mod Sample
mod Tests
use bancuh_dns.Prelude.{
  Bool, Option, List, [], ◌∷◌, map, ok, err, map_option, filter_map, if◌then◌else◌,
}
use bancuh_dns.Text.{Text}
use bancuh_dns.Text.Trim.{lines}
use bancuh_dns.Db.{DomainStore, AdblockDb, put, put_alias}
use bancuh_dns.Db.Interface.{Rocks}
use bancuh_dns.Fetch.{Io, fetch}
use bancuh_dns.Config.{
  BlacklistFormat, WhitelistFormat, OverrideFormat, FileOrUrl, Source, Config, to_fetch,
}
use bancuh_dns.Parser.{Crates, Domain, CName, parse_domain, parse_host, parse_cname}

-- `ParseBlacklist`
pub data ParseBlacklist : Type 0 where
  hosts domains : ParseBlacklist

-- `ParseWhitelist`
pub data ParseWhitelist : Type 0 where
  hosts domains zone : ParseWhitelist

-- `ParseRewrite`
pub data ParseRewrite : Type 0 where
  cname : ParseRewrite

-- The `From` conversions of the formats.
unfoldable pub parse_blacklist_of : BlacklistFormat → ParseBlacklist
parse_blacklist_of BlacklistFormat.hosts = ParseBlacklist.hosts
parse_blacklist_of BlacklistFormat.domains = ParseBlacklist.domains

unfoldable pub parse_whitelist_of : WhitelistFormat → ParseWhitelist
parse_whitelist_of WhitelistFormat.hosts = ParseWhitelist.hosts
parse_whitelist_of WhitelistFormat.domains = ParseWhitelist.domains
parse_whitelist_of WhitelistFormat.zone = ParseWhitelist.zone

unfoldable pub parse_rewrite_of : OverrideFormat → ParseRewrite
parse_rewrite_of OverrideFormat.cname = ParseRewrite.cname

-- `BlacklistCompiler`, `WhitelistCompiler` and `RewritesCompiler`, which differ in the parser.
pub record ListCompiler (io : Io) (Parser : Type 0) : Type 0 where
  pub source : FileOrUrl io
  pub parser : Parser

-- `AdblockCompiler`
pub record AdblockCompiler (io : Io) : Type 0 where
  pub blacklists : List (ListCompiler io ParseBlacklist)
  pub whitelists : List (ListCompiler io ParseWhitelist)
  pub rewrites : List (ListCompiler io ParseRewrite)

module _ {io : Io} where
  unfoldable pub list_compiler_of : {T P : Type 0} → (T → P) → Source io T → ListCompiler io P
  list_compiler_of convert s = record { source = s.file_or_url; parser = convert s.format }

  -- `AdblockCompiler::from_config`
  unfoldable pub from_config : Config io → AdblockCompiler io
  unfolding list_compiler_of parse_blacklist_of parse_whitelist_of parse_rewrite_of
  from_config config = record {
    blacklists = map (list_compiler_of parse_blacklist_of) config.blacklist;
    whitelists = map (list_compiler_of parse_whitelist_of) config.whitelist;
    rewrites = map (list_compiler_of parse_rewrite_of) config.overrides;
  }

module _ (crates : Crates) where
  -- `ParseBlacklist::parse`
  unfoldable pub parse_blacklist : ParseBlacklist → Text → Option Domain
  parse_blacklist ParseBlacklist.hosts value = map_option (λ h. h.domain) (parse_host crates value)
  parse_blacklist ParseBlacklist.domains value = parse_domain crates value

  -- `ParseWhitelist::parse`
  unfoldable pub parse_whitelist : ParseWhitelist → Text → Option Domain
  parse_whitelist ParseWhitelist.hosts value = map_option (λ h. h.domain) (parse_host crates value)
  parse_whitelist ParseWhitelist.domains value = parse_domain crates value
  parse_whitelist ParseWhitelist.zone value = map_option (λ c. c.domain) (parse_cname crates value)

  -- `ParseRewrite::parse`
  unfoldable pub parse_rewrite : ParseRewrite → Text → Option CName
  parse_rewrite ParseRewrite.cname value = parse_cname crates value

  module _ (io : Io) (finishes : Text → Bool) where
    -- `load_blacklist`, `load_whitelist` and `load_rewrites`, by the parser of a line.
    unfoldable pub load_list : {A : Type 0} → (Text → Option A) → FileOrUrl io → List A
    load_list parse source = elim (fetch io (to_fetch io source)) [
      | err e ↦ []
      | ok s ↦ if finishes s then filter_map parse (lines s) else []
    ]

    unfoldable pub load_blacklist : ListCompiler io ParseBlacklist → List Domain
    unfolding load_list
    load_blacklist c = load_list (parse_blacklist c.parser) c.source

    unfoldable pub load_whitelist : ListCompiler io ParseWhitelist → List Domain
    unfolding load_list
    load_whitelist c = load_list (parse_whitelist c.parser) c.source

    unfoldable pub load_rewrites : ListCompiler io ParseRewrite → List CName
    unfolding load_list
    load_rewrites c = load_list (parse_rewrite c.parser) c.source

    module _ (r : Rocks) where
      open r use {Db}

      -- `for d in domains { let _ = store.put(&d.0); }`
      unfoldable pub put_all : DomainStore Db → List Domain → DomainStore Db
      put_all s [] = s
      put_all s (d ∷ ds) = put_all (put r s d.text).0 ds

      -- `for c in cnames { let _ = db.rewrites.put_alias(&c.domain.0, &c.alias.0); }`
      unfoldable pub put_aliases : DomainStore Db → List CName → DomainStore Db
      put_aliases s [] = s
      put_aliases s (c ∷ cs) = put_aliases (put_alias r s c.domain.text c.alias.text).0 cs

      -- The loops of `compile` over the lists.
      unfoldable pub put_lists : DomainStore Db → List (List Domain) → DomainStore Db
      unfolding put_all
      put_lists s [] = s
      put_lists s (ds ∷ dss) = put_lists (put_all s ds) dss

      unfoldable pub put_alias_lists : DomainStore Db → List (List CName) → DomainStore Db
      unfolding put_aliases
      put_alias_lists s [] = s
      put_alias_lists s (cs ∷ css) = put_alias_lists (put_aliases s cs) css

      -- `AdblockCompiler::compile`
      unfoldable pub compile : AdblockCompiler io → AdblockDb Db → AdblockDb Db
      unfolding put_lists put_alias_lists load_blacklist load_whitelist load_rewrites
      compile c db = record {
        whitelist = put_lists db.whitelist (map load_whitelist c.whitelists);
        blacklist = put_lists db.blacklist (map load_blacklist c.blacklists);
        rewrites = put_alias_lists db.rewrites (map load_rewrites c.rewrites);
      }
