-- ===== src/Db/Interface.antt =====
-- RocksDB as src/db.rs uses it: a parameter of the model, with what its documentation promises.
use bancuh_dns.Prelude.{◌≡◌, Option, some, Result, ok, err, if◌then◌else◌}
use bancuh_dns.Text.{Text, same_text}

pub record Rocks : Type 1 where
  -- An open database, and the errors of its calls.
  pub Db : Type 0
  pub Error : Type 0
  pub get : Db → Text → Result Error (Option Text)
  pub put : Db → Text → Text → Db × Result Error (Unit {0})
  -- What the database holds, which only statements mention.
  pub contents : Db → Text → Option Text
  -- A read that succeeds returns what is held.
  pub get_ok : (db : Db) (k : Text) (v : Option Text) → get db k ≡ ok v → v ≡ contents db k
  -- A write that succeeds sets its key and no other; one that fails writes nothing.
  pub put_ok :
      (db : Db) (k v : Text)
      → (put db k v).1 ≡ ok tt
      → (j : Text) → contents (put db k v).0 j ≡ (if same_text k j then some v else contents db j)
  pub put_err :
      (db : Db) (k v : Text) (e : Error)
      → (put db k v).1 ≡ err e
      → (j : Text) → contents (put db k v).0 j ≡ contents db j

module _ (r : Rocks) where
  -- Every read of the database succeeds.
  abbrev pub IsReadable : r.Db → Type 0
  IsReadable db = (k : Text) → r.get db k ≡ ok (r.contents db k)
