-- ===== src/Engine/Update.antt =====
-- src/engine.rs: the database that is current, and its replacement by a new one. What the stores
-- draw for their names is an argument. The old database is dropped in the step that replaces it, where
-- the program waits for requests that still read it.
pub mod Swap
pub mod Answers
pub mod Directories
pub mod Sample
mod Tests
use bancuh_dns.Prelude.{Bool, Result, ok, err, map_ok, map_err}
use bancuh_dns.Text.{Text}
use bancuh_dns.Serve.{Serve, ◌>>=◌, pure, lift, serve_map_err, on_error}
use bancuh_dns.Db.{AdblockDb}
use bancuh_dns.Db.Interface.{Rocks}
use bancuh_dns.Db.Lifetime.{Disk, create, drop_db}
use bancuh_dns.Fetch.{Io, FetchError}
use bancuh_dns.Config.{Locations, FileOrUrl, LoadConfigError, load}
use bancuh_dns.Parser.{Crates}
use bancuh_dns.Compiler.{from_config, compile}
use bancuh_dns.Engine.{EngineError, db_error, load_config_error}

-- `AdblockEngine`
pub record AdblockEngine (io : Io) (Db : Type 0) : Type 0 where
  pub db : AdblockDb Db
  pub config_url : FileOrUrl io

module _ {io : Io} (at : Locations io) (crates : Crates) (finishes : Text → Bool) (r : Rocks)
    (disk : Disk r) where
  open disk use {World}

  abbrev pub LoadError : Type 0
  LoadError = LoadConfigError (FetchError io.HttpError io.IoError) at.YamlError at.ParseError

  -- `load_definition`, with the database after it.
  unfoldable pub load_definition : AdblockDb r.Db → FileOrUrl io → Result LoadError (AdblockDb r.Db)
  load_definition db config_url =
      map_ok (λ config. compile crates io finishes r (from_config config) db) (load at config_url)

  -- `AdblockEngine::new`
  unfoldable pub new :
      Text × Text × Text
      → FileOrUrl io
      → Serve World (EngineError r.Error LoadError) (AdblockEngine io r.Db)
  new random config_url = do
    db ← serve_map_err db_error (create disk random)
    pure (record { db = db; config_url = config_url })

  -- The database that `run_update` prepares; it is dropped where the lists do not load.
  unfoldable pub new_db :
      Text × Text × Text
      → AdblockEngine io r.Db
      → Serve World (EngineError r.Error LoadError) (AdblockDb r.Db)
  unfolding load_definition
  new_db random engine = do
    db ← serve_map_err db_error (create disk random)
    on_error (drop_db disk db)
        (lift (map_err load_config_error (load_definition db engine.config_url)))

  -- `self.db.store(Arc::new(new_db))`, after which the old database is dropped.
  abbrev pub swap :
      AdblockEngine io r.Db
      → World × Result (EngineError r.Error LoadError) (AdblockDb r.Db)
      → AdblockEngine io r.Db × World × Result (EngineError r.Error LoadError) (Unit {0})
  swap engine (w, err e) = (engine, w, err e)
  swap engine (w, ok db) =
      (record { db = db; config_url = engine.config_url }, drop_db disk engine.db w, ok tt)

  -- `AdblockEngine::run_update`
  unfoldable pub run_update :
      Text × Text × Text
      → AdblockEngine io r.Db
      → World
      → AdblockEngine io r.Db × World × Result (EngineError r.Error LoadError) (Unit {0})
  unfolding new_db
  run_update random engine w = swap engine (new_db random engine w)
