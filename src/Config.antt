-- ===== src/Config.antt =====
-- src/config: the sources that a configuration names, resolved against where it was loaded from.
-- URLs, paths, the YAML reader and the file system are parameters.
pub mod Errors
pub mod Sources
mod Tests
use bancuh_dns.Prelude.{
  Bool, Option, none, some, List, [], ◌∷◌, ◌++◌, Result, ok, err, ◌>>=◌, map_err, if◌then◌else◌,
}
use bancuh_dns.Text.{Text, codes, starts_with}
use bancuh_dns.Fetch.{Io, Fetch, FetchError, fetch}

-- `BlacklistFormat`, `WhitelistFormat`, `OverrideFormat`
pub data BlacklistFormat : Type 0 where
  hosts domains : BlacklistFormat

pub data WhitelistFormat : Type 0 where
  hosts domains zone : WhitelistFormat

pub data OverrideFormat : Type 0 where
  cname : OverrideFormat

pub record RawSource (T : Type 0) : Type 0 where
  pub format : T
  pub path : Text

pub record RawConfig : Type 0 where
  pub blacklist : List (RawSource BlacklistFormat)
  pub whitelist : List (RawSource WhitelistFormat)
  pub overrides : List (RawSource OverrideFormat)

-- `url::Url`, `std::path::Path` with the file system, and `serde_yaml`, over the fetches' `Io`.
pub record Locations (io : Io) : Type 1 where
  pub ParseError : Type 0
  pub YamlError : Type 0
  pub parse_url : Text → Result ParseError io.Url
  pub join_url : io.Url → Text → Result ParseError io.Url
  pub path_of_text : Text → io.FilePath
  pub parent : io.FilePath → Option io.FilePath
  pub join_path : io.FilePath → Text → io.FilePath
  pub exists : io.FilePath → Bool
  pub raw_config_of_yaml : Text → Result YamlError RawConfig

-- `FromRawSourceError`
pub data FromRawSourceError (E : Type 0) : Type 0 where
  invalid_url : E → FromRawSourceError E
  invalid_path file_not_exists infallible invalid_file_or_url : FromRawSourceError E

-- `FileOrUrl`
pub data FileOrUrl (io : Io) : Type 0 where
  url : io.Url → FileOrUrl io
  file : io.FilePath → FileOrUrl io

-- `Source`
pub record Source (io : Io) (T : Type 0) : Type 0 where
  pub format : T
  pub file_or_url : FileOrUrl io

pub record Config (io : Io) : Type 0 where
  pub blacklist : List (Source io BlacklistFormat)
  pub whitelist : List (Source io WhitelistFormat)
  pub overrides : List (Source io OverrideFormat)

-- `LoadConfigError`
pub data LoadConfigError (F Y P : Type 0) : Type 0 where
  fetch_error : F → LoadConfigError F Y P
  yaml_error : Y → LoadConfigError F Y P
  from_source : FromRawSourceError P → LoadConfigError F Y P

-- `FileOrUrl::to_fetch`
unfoldable pub to_fetch : (io : Io) → FileOrUrl io → Fetch io
to_fetch io (url u) = Fetch.from_url u
to_fetch io (file p) = Fetch.from_path p

module _ {io : Io} (at : Locations io) where
  open at use {ParseError, YamlError}

  abbrev pub Resolving : Type 0 → Type 0
  Resolving A = Result (FromRawSourceError ParseError) A

  -- `FileOrUrl::from_str`; the parse of a text that is no URL is a path, so there is no error.
  unfoldable pub file_or_url_of_text : Text → Result (FromRawSourceError ParseError) (FileOrUrl io)
  file_or_url_of_text s = elim (at.parse_url s) [
    | ok u ↦ ok (url u)
    | err e ↦ ok (file (at.path_of_text s))
  ]

  -- A path beside the configuration file, if there is a file.
  unfoldable pub beside : io.FilePath → Text → Resolving (FileOrUrl io)
  beside p path = elim (at.parent p) [
    | none ↦ err invalid_path
    | some directory ↦
        let joined = at.join_path directory path in
        if at.exists joined then ok (file joined) else err file_not_exists
  ]

  -- The location of `Source::try_from_raw_source`.
  unfoldable pub locate : FileOrUrl io → Text → Resolving (FileOrUrl io)
  unfolding beside file_or_url_of_text
  locate (url u) path =
      if starts_with path (codes "./")
      then (do joined ← map_err invalid_url (at.join_url u path); ok (url joined))
      else file_or_url_of_text path
  locate (file p) path =
      if starts_with path (codes "./") then beside p path else file_or_url_of_text path

  module _ {T : Type 0} where
    -- `Source::try_from_raw_source`
    unfoldable pub try_from_raw_source : FileOrUrl io → RawSource T → Resolving (Source io T)
    unfolding locate
    try_from_raw_source config_url source = do
      found ← locate config_url source.path
      ok (record { format = source.format; file_or_url = found })

    -- A loop of `Config::try_from_raw_config`, pushing each source.
    unfoldable pub push_sources :
        FileOrUrl io → List (Source io T) → List (RawSource T) → Resolving (List (Source io T))
    push_sources config_url done [] = ok done
    push_sources config_url done (raw ∷ raws) = do
      source ← try_from_raw_source config_url raw
      push_sources config_url (done ++ source ∷ []) raws

  -- `Config::try_from_raw_config`
  unfoldable pub try_from_raw_config : FileOrUrl io → RawConfig → Resolving (Config io)
  unfolding push_sources
  try_from_raw_config config_url raw = do
    blacklist ← push_sources config_url [] raw.blacklist
    whitelist ← push_sources config_url [] raw.whitelist
    overrides ← push_sources config_url [] raw.overrides
    ok (record { blacklist = blacklist; whitelist = whitelist; overrides = overrides })

  -- `Config::load`
  unfoldable pub load :
      FileOrUrl io
      → Result
          (LoadConfigError (FetchError io.HttpError io.IoError) YamlError ParseError)
          (Config io)
  unfolding try_from_raw_config to_fetch
  load config_url = do
    content ← map_err fetch_error (fetch io (to_fetch io config_url))
    raw ← map_err yaml_error (at.raw_config_of_yaml content)
    map_err from_source (try_from_raw_config config_url raw)
