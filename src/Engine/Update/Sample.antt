-- ===== src/Engine/Update/Sample.antt =====
-- A toy engine: an empty configuration cannot be read, and any other names the one list that is its
-- text. Its stores are in memory and reliable.
use bancuh_dns.Prelude.{
  ◌≡◌, refl, ap, List, true, ok, err, none, [], ◌∷◌, if◌then◌else◌, ok_injective,
}
use bancuh_dns.Text.{Text, codes, is_empty}
use bancuh_dns.Db.Lifetime.{Disk}
use bancuh_dns.Db.Memory.{Memory}
use bancuh_dns.Db.Lookup.{opened}
use bancuh_dns.Compiler.Sample.{crates, web, plain, finishes, crates_ascii}
use bancuh_dns.Config.{domains, RawConfig, Locations, url}
use bancuh_dns.Engine.Update.{AdblockEngine, LoadError}
use bancuh_dns.Engine.Update.Answers.{IsReliable}

-- An empty configuration cannot be read; any other names one list.
abbrev pub one_list : Text → RawConfig
one_list s = record {
  blacklist = record { format = domains; path = s } ∷ [];
  whitelist = [];
  overrides = [];
}

abbrev pub place : Locations web
place = record {
  ParseError = Text;
  YamlError = Text;
  parse_url = λ s. ok s;
  join_url = λ u s. ok s;
  path_of_text = λ s. s;
  parent = λ p. none;
  join_path = λ d s. s;
  exists = λ p. true;
  raw_config_of_yaml = λ s. if is_empty s then err s else ok (one_list s);
}

-- A directory for each store; a database does not know its own.
abbrev pub disk : Disk plain
disk = record {
  World = List Text;
  open_default = λ path w. (path ∷ w, ok []);
  destroy = λ db w. w;
  path = λ db. [];
  present = λ w path. true;
}

abbrev pub draws : Text × Text × Text
draws = (codes "a", codes "b", codes "c")

abbrev pub engine : Text → AdblockEngine web Memory
engine u = record {
  db = record {
    blacklist = opened plain [];
    whitelist = opened plain [];
    rewrites = opened plain [];
  };
  config_url = url u;
}

abbrev pub Errors : Type 0
Errors = LoadError place crates finishes plain disk

pub opens_empty :
    (path : Text) (w w' : List Text) (db : Memory)
    → disk.open_default path w ≡ (w', ok db)
    → (j : Text) → plain.contents db j ≡ none
opens_empty path w w' db h j = rw (← ok_injective (ap (λ o. o.1) h)) refl

pub reliable : IsReliable place crates finishes plain disk
reliable = record {
  writes = λ db k v. refl;
  reads = λ db k. refl;
  opens_empty = opens_empty;
  ascii = crates_ascii;
}
