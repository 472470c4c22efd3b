-- ===== src/Compiler/Tests.antt =====
-- The compiler on toy lists: the text of a URL is the URL, and every line is a domain.
use bancuh_dns.Prelude.{◌≡◌, ◌↔◌, refl, All, Bool, true, ok, some, [], ◌∷◌}
use bancuh_dns.Text.{codes}
use bancuh_dns.Text.Trim.{lines, trim, remove_stars}
use bancuh_dns.Text.Utf8.{IsUtf8, is_utf8}
use bancuh_dns.Db.{normalize_name, put, contains}
use bancuh_dns.Text.{split, join}
use bancuh_dns.Text.Utf8.{from_utf8}
use bancuh_dns.Compiler.{put_all, put_lists}
use bancuh_dns.Db.Keys.{fqdn}
use bancuh_dns.Db.Lookup.{IsSound}
use bancuh_dns.Engine.{is_blocked, get_redirect}
use bancuh_dns.Engine.Sample.{ads, x_ads-IsName, example, bing-IsName}
use bancuh_dns.Db.Memory.{Memory, memory-IsSound}
use bancuh_dns.Fetch.{fetch}
use bancuh_dns.Config.{url, to_fetch}
use bancuh_dns.Parser.{parse_domain, parse_cname}
use bancuh_dns.Compiler.{
  AdblockCompiler, ParseBlacklist, ParseWhitelist, ParseRewrite, parse_blacklist, parse_whitelist,
  parse_rewrite, load_blacklist, load_whitelist, load_rewrites, compile,
}
use bancuh_dns.Compiler.Sample.{crates, web, plain, finishes, crates_ascii}
use bancuh_dns.Compiler.Held.{after_lists, after_all}
use bancuh_dns.Compiler.Precedence.{after_alias_lists, after_aliases}
use bancuh_dns.Compiler.Typed.{IsAnswer, IsString, IsAny, compiled, compile-IsAnswer}
use bancuh_dns.Compiler.Effect.{
  Fresh, Works, black_lists, white_lists, ListedIn, fresh_db, is_blocked-compile,
  is_blocked-compile_only, get_redirect-compile,
}

abbrev compiler : AdblockCompiler web
compiler = record {
  blacklists =
      record { source = url (codes "*.ads.example\nbad.example"); parser = ParseBlacklist.domains }
      ∷ [];
  whitelists =
      record { source = url (codes "ok.ads.example\n"); parser = ParseWhitelist.domains } ∷ [];
  rewrites =
      record { source = url (codes "old.example\r\nnew.example"); parser = ParseRewrite.cname }
      ∷ [];
}

loaded_black :
    load_blacklist crates web finishes (record {
      source = url (codes "*.ads.example\nbad.example");
      parser = ParseBlacklist.domains;
    })
    ≡ record { text = codes "*.ads.example" } ∷ record { text = codes "bad.example" } ∷ []
unfolding load_blacklist fetch to_fetch lines parse_domain trim parse_blacklist remove_stars
loaded_black = refl

abbrev fresh : Fresh crates web finishes plain Unit
fresh = record {
  black = [];
  white = [];
  rewrites = [];
  black_empty = λ j. refl;
  white_empty = λ j. refl;
  rewrites_empty = λ j. refl;
}

plain-IsSound : (m : Memory) → All (λ e. IsUtf8 e.1) m → IsSound plain m
plain-IsSound m h = record { readable = λ k. refl; utf8 = (memory-IsSound m h).utf8 }

works : Works crates web finishes plain Unit compiler fresh
unfolding after_lists after_all after_alias_lists after_aliases load_blacklist load_whitelist
    load_rewrites fetch to_fetch lines parse_domain parse_cname trim parse_blacklist parse_whitelist
    parse_rewrite remove_stars normalize_name is_utf8
works = record {
  black_sound =
      plain-IsSound
        ((codes "bad.example.", codes "true") ∷ (codes "*.ads.example.", codes "true") ∷ [])
        (refl, (refl, tt));
  white_sound = plain-IsSound ((codes "ok.ads.example.", codes "true") ∷ []) (refl, tt);
  rewrites_sound =
      plain-IsSound
        ((codes "bing.example.", codes "new.example.")
          ∷ (codes "bing.example.", codes "old.example.")
          ∷ [])
        (refl, (refl, tt));
}

compiled_verdict :
    (b : Bool) × (is_blocked plain Unit
        (compile crates web finishes plain compiler (fresh_db crates web finishes plain Unit fresh))
        (fqdn (codes "x" ∷ ads))
      ≡ ok b)
    × ((b ≡ true) ↔ (
        ListedIn crates web finishes plain Unit
          (black_lists crates web finishes plain Unit compiler)
          (codes "x" ∷ ads)
        × ¬ ListedIn crates web finishes plain Unit
            (white_lists crates web finishes plain Unit compiler)
            (codes "x" ∷ ads)))
compiled_verdict =
    is_blocked-compile crates web finishes plain Unit compiler fresh (codes "x") ads
      (λ db k v. refl) works x_ads-IsName

compiled_alias :
    get_redirect plain Unit
      (compile crates web finishes plain compiler (fresh_db crates web finishes plain Unit fresh))
      (fqdn (codes "bing" ∷ example))
    ≡ ok (some (codes "new.example."))
unfolding load_rewrites fetch to_fetch lines parse_domain parse_cname trim parse_rewrite
    remove_stars normalize_name
compiled_alias =
    get_redirect-compile crates web finishes plain Unit compiler fresh (codes "bing") example
      (λ db k v. refl) works bing-IsName

x_blocked :
    is_blocked plain Unit
      (compile crates web finishes plain compiler (fresh_db crates web finishes plain Unit fresh))
      (fqdn (codes "x" ∷ ads))
    ≡ ok true
unfolding is_blocked compile contains split join from_utf8 is_utf8 load_blacklist load_whitelist
    fetch to_fetch lines parse_domain trim parse_blacklist parse_whitelist remove_stars
    normalize_name put_lists put_all put
x_blocked = refl

is_blocked-compile_only_example :
    ListedIn crates web finishes plain Unit
      (black_lists crates web finishes plain Unit compiler)
      (codes "x" ∷ ads)
is_blocked-compile_only_example =
    is_blocked-compile_only crates web finishes plain Unit compiler fresh (codes "x") ads works
      x_ads-IsName x_blocked

compile-IsAnswer_example :
    IsAnswer IsString (
      get_redirect plain Unit
        (compiled crates crates_ascii web finishes plain Unit compiler fresh)
        (codes "bing.example."))
    × IsAnswer IsAny (
        is_blocked plain Unit
          (compiled crates crates_ascii web finishes plain Unit compiler fresh)
          (codes "bing.example."))
compile-IsAnswer_example =
    compile-IsAnswer crates crates_ascii web finishes plain Unit compiler fresh
      (codes "bing.example.")
