-- ===== src/Db/Lifetime.antt =====
-- src/db.rs: the creation of stores and their end. Each lives in a directory of its own, which `drop`
-- removes; `Disk` is RocksDB's and the system's part, with the directories that are present and the
-- one of a database for statements.
use bancuh_dns.Prelude.{none, some, Bool, ◌++◌}
use bancuh_dns.Text.{Text, codes}
use bancuh_dns.Serve.{Serve, ◌>>=◌, pure, serve_map_err, on_error}
use bancuh_dns.Db.{DbError, rocks_db, DomainStore, AdblockDb}
use bancuh_dns.Db.Interface.{Rocks}

pub record Disk (r : Rocks) : Type 1 where
  pub World : Type 0
  -- `DB::open_default`
  pub open_default : Text → Serve World r.Error r.Db
  -- `cancel_all_background_work`, the end of the handle and `DB::destroy`, whose result is only logged.
  pub destroy : r.Db → World → World
  pub path : r.Db → Text
  pub present : World → Text → Bool

-- `rand_name`, of the text that `rand_string` draws.
unfoldable pub rand_name : Text → Text
rand_name random = codes "db-" ++ random

-- `dir.join(rand_name())`
unfoldable pub store_path : Text → Text
unfolding rand_name
store_path random = codes "./bancuh_db/" ++ rand_name random

module _ {r : Rocks} (disk : Disk r) where
  open r use {Db, Error}
  open disk use {World}

  -- `DomainStore::create`
  unfoldable pub create_store : Text → Serve World (DbError Error) (DomainStore Db)
  unfolding store_path
  create_store random = do
    db ← serve_map_err rocks_db (disk.open_default (store_path random))
    pure (record { db = some db })

  -- `DomainStore::drop`
  unfoldable pub drop_store : DomainStore Db → World → World
  drop_store s w = elim s.db [ none ↦ w | some db ↦ disk.destroy db w ]

  -- A dropped `AdblockDB` drops its fields in their order.
  unfoldable pub drop_db : AdblockDb Db → World → World
  unfolding drop_store
  drop_db db w = drop_store db.rewrites (drop_store db.whitelist (drop_store db.blacklist w))

  -- `AdblockDB::create`, with what the three stores draw; where one fails, those before it are dropped,
  -- the last one first.
  unfoldable pub create : Text × Text × Text → Serve World (DbError Error) (AdblockDb Db)
  unfolding create_store drop_store
  create random = do
    blacklist ← create_store random.0
    whitelist ← on_error (drop_store blacklist) (create_store random.1)
    rewrites ← on_error (λ w. drop_store blacklist (drop_store whitelist w)) (create_store random.2)
    pure (record { blacklist = blacklist; whitelist = whitelist; rewrites = rewrites })
