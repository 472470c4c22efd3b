-- ===== src/Config/Tests.antt =====
-- A configuration at a toy location: paths and URLs are texts.
use bancuh_dns.Prelude.{
  ◌≡◌, ◌↔◌, true, refl, ok, err, none, some, if◌then◌else◌, inr, [], ◌∷◌, ◌++◌,
}
use bancuh_dns.Text.{Text, codes, starts_with, is_empty, same_text}
use bancuh_dns.Fetch.{Io}
use bancuh_dns.Config.{
  domains, BlacklistFormat, RawSource, RawConfig, Locations, file_not_exists, FileOrUrl, url, file,
  Config, try_from_raw_source, try_from_raw_config,
}
use bancuh_dns.Config.Errors.{Fails, try_from_raw_source-err, try_from_raw_source-exists}
use bancuh_dns.Config.Sources.{Resolved, try_from_raw_config_iff}

abbrev disk : Io
disk = record {
  Url = Text;
  FilePath = Text;
  Response = Text;
  HttpError = Text;
  IoError = Text;
  send = λ url i. ok url;
  text = λ response. ok response;
  read_to_string = λ path. ok path;
}

-- The one file beside a configuration is the one named by "./a".
abbrev place : Locations disk
place = record {
  ParseError = Text;
  YamlError = Text;
  parse_url = λ s. if starts_with s (codes "https:") then ok s else err s;
  join_url = λ u s. ok (u ++ s);
  path_of_text = λ s. s;
  parent = λ p. if is_empty p then none else some (codes "d/");
  join_path = λ d s. d ++ s;
  exists = λ p. same_text p (codes "d/./a");
  raw_config_of_yaml = λ s. err s;
}

abbrev entry : Text → RawSource BlacklistFormat
entry path = record { format = domains; path = path }

abbrev here : FileOrUrl disk
here = file (codes "d/config.yaml")

abbrev raw_lists : RawConfig
raw_lists = record {
  blacklist = entry (codes "./a") ∷ entry (codes "https://b") ∷ [];
  whitelist = [];
  overrides = [];
}

abbrev lists : Config disk
lists = record {
  blacklist =
      record { format = domains; file_or_url = file (codes "d/./a") }
      ∷ record { format = domains; file_or_url = url (codes "https://b") }
      ∷ [];
  whitelist = [];
  overrides = [];
}

lists_resolve : try_from_raw_config place here raw_lists ≡ ok lists
unfolding try_from_raw_config try_from_raw_source
lists_resolve = refl

a_resolves :
    try_from_raw_source place here (entry (codes "./a"))
    ≡ ok (record { format = domains; file_or_url = file (codes "d/./a") })
unfolding try_from_raw_source
a_resolves = refl

c_fails : try_from_raw_source place here (entry (codes "./c")) ≡ err file_not_exists
unfolding try_from_raw_source
c_fails = refl

try_from_raw_config_iff_example : (try_from_raw_config place here raw_lists ≡ ok lists) ↔ (
    Resolved place here raw_lists.blacklist lists.blacklist
    × Resolved place here raw_lists.whitelist lists.whitelist
    × Resolved place here raw_lists.overrides lists.overrides)
try_from_raw_config_iff_example = try_from_raw_config_iff place here raw_lists lists

try_from_raw_source-err_example :
    (try_from_raw_source place here (entry (codes "./c")) ≡ err file_not_exists) ↔ (
      (starts_with (codes "./c") (codes "./") ≡ true)
      × Fails place here (codes "./c") file_not_exists)
try_from_raw_source-err_example =
    try_from_raw_source-err place here (entry (codes "./c")) file_not_exists

c_missing : Fails place here (codes "./c") file_not_exists
c_missing = inr (codes "d/", refl, refl, refl)

beside_exists :
    (q : Text) × ◌≡◌ {A = FileOrUrl disk} (file (codes "d/./a")) (file q)
    × (same_text q (codes "d/./a") ≡ true)
beside_exists =
    try_from_raw_source-exists place (codes "d/config.yaml") (entry (codes "./a"))
      (record { format = domains; file_or_url = file (codes "d/./a") }) refl a_resolves
