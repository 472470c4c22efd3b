-- ===== src/Service/Sample/Lists.antt =====
-- What the toy lists of Service/Sample.antt block (src/compiler), and what they let pass.
use bancuh_dns.Prelude.{◌≡◌, sym, ◌∙◌, refl, subst, ok_injective, inl, false, ok, [], ◌∷◌}
use bancuh_dns.Text.{codes}
use bancuh_dns.Text.{split, join}
use bancuh_dns.Text.Utf8.{from_utf8}
use bancuh_dns.Db.{contains, normalize_name, put}
use bancuh_dns.Db.Lifetime.{create}
use bancuh_dns.Db.Lookup.{below}
use bancuh_dns.Db.Keys.{fqdn}
use bancuh_dns.Fetch.{fetch}
use bancuh_dns.Config.{Config, BlacklistFormat, url, load, to_fetch, try_from_raw_source}
use bancuh_dns.Compiler.Sample.{crates, web, plain, finishes}
use bancuh_dns.Text.Trim.{lines, trim, remove_stars}
use bancuh_dns.Parser.{parse_domain}
use bancuh_dns.Compiler.{from_config, compile, load_blacklist, parse_blacklist}
use bancuh_dns.Engine.{is_blocked}
use bancuh_dns.Engine.Sample.{ads}
use bancuh_dns.Engine.Update.{run_update}
use bancuh_dns.Engine.Update.Sample.{place, Errors, draws, reliable}
use bancuh_dns.Service.Blocked.{ListsBlock}
use bancuh_dns.Service.Sample.{sources, setting}
use bancuh_dns.Service.Passed.{ListsPass}
use bancuh_dns.Service.Judged.{IsListed, IsUnaliased}
use bancuh_dns.Engine.Sample.{example, bing-IsName}
use bancuh_dns.Engine.Update.Answers.{run_update-serves}
use bancuh_dns.Engine.Update.Sample.{engine, place, disk, draws}

abbrev toy_config : Config web
toy_config = record {
  blacklist =
      record { format = BlacklistFormat.domains; file_or_url = url (codes "*.ads.example") } ∷ [];
  whitelist = [];
  overrides = [];
}

abbrev InLists : Config web → Type 0
InLists config =
    IsListed setting sources config (codes "x" ∷ ads)
    × IsUnaliased setting sources config (codes "x" ∷ ads)

toy_config-InLists : InLists toy_config
unfolding from_config load_blacklist fetch to_fetch lines parse_domain trim parse_blacklist
    remove_stars normalize_name
toy_config-InLists = (((below ads, inl refl, inl (inl refl)), λ found. elim found.2 [ ]), refl)

pub sources_block : ListsBlock setting (codes "x" ∷ ads) sources
unfolding load fetch to_fetch try_from_raw_source
sources_block = toy_config-InLists

-- bing.example. is on no list.
bing_free :
    is_blocked plain Errors
      (run_update place crates finishes plain disk draws (engine (codes "*.ads.example")) []).0.db
      (fqdn (codes "bing" ∷ example))
    ≡ ok false
unfolding run_update load fetch to_fetch create try_from_raw_source is_blocked contains split join
    from_utf8 compile from_config lines parse_blacklist parse_domain trim remove_stars put
    normalize_name
bing_free = refl

bing_unlisted : ¬ IsListed setting sources toy_config (codes "bing" ∷ example)
unfolding run_update load fetch to_fetch create try_from_raw_source
bing_unlisted listed =
    let (config', b, loaded, verdict, rule, redirect) =
      run_update-serves place crates finishes plain disk draws (engine (codes "*.ads.example")) []
        (codes "bing") example reliable bing-IsName refl in
    let yes = rule.1 (
      subst (λ c. IsListed setting sources c (codes "bing" ∷ example)) (ok_injective loaded)
        listed) in
    cc (ok_injective (sym verdict ∙ bing_free), yes)

toy_config-IsUnaliased : IsUnaliased setting sources toy_config (codes "bing" ∷ example)
unfolding from_config
toy_config-IsUnaliased = refl

pub sources_pass : ListsPass setting (codes "bing" ∷ example) sources
unfolding load fetch to_fetch try_from_raw_source
sources_pass = (bing_unlisted, toy_config-IsUnaliased)
