-- ===== src/Engine/Sample.antt =====
-- Three stores in memory, with a rewrite, a blocked wildcard and a name that is spared from it.
use bancuh_dns.Prelude.{refl, [], ◌∷◌, arith}
use bancuh_dns.Text.{codes}
use bancuh_dns.Text.Utf8.{is_utf8}
use bancuh_dns.Db.{AdblockDb}
use bancuh_dns.Db.Keys.{Name, IsName}
use bancuh_dns.Db.Lookup.{opened}
use bancuh_dns.Db.Memory.{Memory, memory, memory-IsSound}
use bancuh_dns.Engine.Verdict.{IsServing}

abbrev pub black : Memory
black = (codes "*.ads.example.", codes "true") ∷ []

abbrev pub white : Memory
white = (codes "ok.ads.example.", codes "true") ∷ []

abbrev pub rewrites : Memory
rewrites = (codes "bing.example.", codes "strict.example.") ∷ []

abbrev pub database : AdblockDb Memory
database = record {
  blacklist = opened memory black;
  whitelist = opened memory white;
  rewrites = opened memory rewrites;
}

pub database-IsServing : IsServing memory Unit database black white rewrites
unfolding is_utf8
database-IsServing = record {
  blacklist = refl;
  whitelist = refl;
  rewriting = refl;
  black_sound = memory-IsSound black (refl, tt);
  white_sound = memory-IsSound white (refl, tt);
  rewrites_sound = memory-IsSound rewrites (refl, tt);
}

-- The labels below the first of x.ads.example. and of bing.example.
abbrev pub ads : Name
ads = codes "ads" ∷ codes "example" ∷ []

abbrev pub example : Name
example = codes "example" ∷ []

pub x_ads-IsName : IsName (codes "x" ∷ ads)
x_ads-IsName = (
  record { some_bytes = refl; no_dot = omega arith },
  (
    record { some_bytes = refl; no_dot = omega arith },
    (record { some_bytes = refl; no_dot = omega arith }, tt),
  ),
)

pub ok_ads-IsName : IsName (codes "ok" ∷ ads)
ok_ads-IsName = (record { some_bytes = refl; no_dot = omega arith }, x_ads-IsName.1)

pub bing-IsName : IsName (codes "bing" ∷ example)
bing-IsName = (record { some_bytes = refl; no_dot = omega arith }, x_ads-IsName.1.1)
