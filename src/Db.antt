-- ===== src/Db.antt =====
-- src/db.rs: the domain stores over RocksDB.
--
-- `DomainStore.db` is `None` only while a store is dropped. Reads and writes go through `Rocks`, the
-- key-value store that the program links; a write returns the store after it.
pub mod Interface
pub mod Keys
pub mod Lookup
pub mod Update
pub mod Memory
pub mod Lifetime
pub mod Directories
pub mod Rooted
mod Tests
use bancuh_dns.Prelude.{
  ℕ, zero, suc, ◌+◌, ◌-◌, Bool, true, false, not, Option, none, some, List, [], ◌∷◌, ◌++◌, Result,
  ok, err, ◌>>=◌, map_ok, map_err, if◌then◌else◌, length, drop, keep,
}
use bancuh_dns.Text.{Text, codes, is_empty, ends_with, split, join}
use bancuh_dns.Text.Utf8.{from_utf8}
use Interface.{Rocks}

-- `normalize_name`: the trailing dot of a fully qualified name is supplied where it is missing.
unfoldable pub normalize_name : Text → Text
normalize_name name = if ends_with name b'.' then name else name ++ codes "."

pub data DbError (E : Type 0) : Type 0 where
  rocks_db : E → DbError E
  from_utf8_error : Text → DbError E

pub record DomainStore (Db : Type 0) : Type 0 where
  pub db : Option Db

-- `domain.split('.').filter(|s| !s.is_empty())`
unfoldable pub parts_of : Text → List Text
parts_of domain = keep (λ s. not (is_empty s)) (split b'.' domain)

-- `format!("*.{}.", parts[i..parts.len()].join("."))`
unfoldable pub star_key : List Text → Text
star_key parts = codes "*." ++ (join (codes ".") parts ++ codes ".")

-- `for i in i..i + n`, pushing the key of `parts[i..]`.
unfoldable pub star_keys : List Text → ℕ → ℕ → List Text
unfolding star_key
star_keys parts zero i = []
star_keys parts (suc n) i = star_key (drop i parts) ∷ star_keys parts n (i + 1)

-- The keys that `DomainStore::get` tries, in its order.
unfoldable pub lookup_keys : Text → List Text
unfolding parts_of star_keys
lookup_keys domain = let parts = parts_of domain in domain ∷ star_keys parts (length parts - 1) 1

abbrev pub is_some : Option Text → Bool
is_some none = false
is_some (some s) = true

module _ (r : Rocks) where
  open r use {Db, Error}

  -- `DomainStore::put`
  unfoldable pub put : DomainStore Db → Text → DomainStore Db × Result (DbError Error) (Unit {0})
  put s domain = elim s.db [
    | none ↦ (s, ok tt)
    | some db ↦
        let (db', res) = r.put db (normalize_name domain) (codes "true") in
        (record { db = some db' }, map_err rocks_db res)
  ]

  -- `DomainStore::put_alias`
  unfoldable pub put_alias :
      DomainStore Db → Text → Text → DomainStore Db × Result (DbError Error) (Unit {0})
  put_alias s domain alias = elim s.db [
    | none ↦ (s, ok tt)
    | some db ↦
        let (db', res) = r.put db (normalize_name domain) (normalize_name alias) in
        (record { db = some db' }, map_err rocks_db res)
  ]

  -- The loop of `DomainStore::get` over the keys.
  unfoldable pub get_first : Db → List Text → Result (DbError Error) (Option Text)
  get_first db [] = ok none
  get_first db (key ∷ keys) =
      let rest = get_first db keys in
      map_err rocks_db (r.get db key) >>= λ found. elim found [
        | none ↦ rest
        | some s ↦ map_ok some (map_err from_utf8_error (from_utf8 s))
      ]

  -- `DomainStore::get`
  unfoldable pub get : DomainStore Db → Text → Result (DbError Error) (Option Text)
  unfolding get_first lookup_keys
  get s domain = elim s.db [ none ↦ ok none | some db ↦ get_first db (lookup_keys domain) ]

  -- `DomainStore::contains`
  unfoldable pub contains : DomainStore Db → Text → Result (DbError Error) Bool
  unfolding get
  contains s domain = map_ok is_some (get s domain)

-- `AdblockDB`
pub record AdblockDb (Db : Type 0) : Type 0 where
  pub blacklist : DomainStore Db
  pub whitelist : DomainStore Db
  pub rewrites : DomainStore Db
