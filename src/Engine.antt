-- ===== src/Engine.antt =====
-- src/engine.rs: the engine's answers about a name. `self.db.load()` returns the database that is
-- current at that moment; it is the argument `db` here, so a caller that asks twice may pass two.
pub mod Verdict
pub mod Sample
pub mod Update
mod Tests
use bancuh_dns.Prelude.{Bool, true, false, Option, Result, ok, ◌>>=◌, map_err, if◌then◌else◌}
use bancuh_dns.Text.{Text}
use bancuh_dns.Db.{DbError, AdblockDb, get, contains}
use bancuh_dns.Db.Interface.{Rocks}

-- `L` is the type of the errors of loading a configuration.
pub data EngineError (E L : Type 0) : Type 0 where
  db_error : DbError E → EngineError E L
  load_config_error : L → EngineError E L

module _ (r : Rocks) (L : Type 0) where
  open r use {Db, Error}

  -- `AdblockEngine::get_redirect`
  unfoldable pub get_redirect : AdblockDb Db → Text → Result (EngineError Error L) (Option Text)
  get_redirect db name = map_err db_error (get r db.rewrites name)

  -- `AdblockEngine::is_blocked`
  unfoldable pub is_blocked : AdblockDb Db → Text → Result (EngineError Error L) Bool
  is_blocked db name = do
    white ← map_err db_error (contains r db.whitelist name)
    if white then ok false else do
      black ← map_err db_error (contains r db.blacklist name)
      if black then ok true else ok false
