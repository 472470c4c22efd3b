-- ===== src/Compiler/Typed.antt =====
-- What kinds of answers src/engine.rs gives after src/compiler/mod.rs has compiled lists: text, or an
-- error of RocksDB.
use bancuh_dns.Prelude.{
  ◌≡◌, sym, subst, Option, none, some, List, [], ◌∷◌, All, Bool, Bool-cases, Result, ok, err, inl,
  inr, ◌<◌, Result-cases, map_ok, map_err, true, false, ◌>>=◌, if◌then◌else◌,
}
use bancuh_dns.Text.{Text}
use bancuh_dns.Text.Utf8.{IsUtf8, from_utf8_of_IsUtf8}
use bancuh_dns.Db.{
  DbError, rocks_db, from_utf8_error, AdblockDb, get_first, get, contains, lookup_keys, is_some,
}
use bancuh_dns.Db.Interface.{Rocks}
use bancuh_dns.Db.Lookup.{opened}
use bancuh_dns.Fetch.{Io}
use bancuh_dns.Parser.{Crates, Domain}
use bancuh_dns.Engine.{EngineError, db_error, load_config_error, is_blocked, get_redirect}
use bancuh_dns.Compiler.{AdblockCompiler, compile, put_lists}
use bancuh_dns.Compiler.Held.{put_lists-opened}
use bancuh_dns.Compiler.Precedence.{put_alias_lists-opened}
use bancuh_dns.Compiler.Strings.{HoldsStrings, after_lists-HoldsStrings, rewrites-HoldsStrings}
use bancuh_dns.Compiler.Effect.{IsEmpty, Fresh, fresh_db, black_lists, white_lists}

-- Text, if there is any.
abbrev pub IsString : Option Text → Type 0
IsString none = Unit
IsString (some s) = IsUtf8 s

abbrev pub IsAny : {A : Type 0} → A → Type 0
IsAny a = Unit

-- A result of a store, or of the engine, that is right or an error of RocksDB.
abbrev pub IsRead : {E A : Type 0} (Q : A → Type 0) → Result (DbError E) A → Type 0
IsRead Q (ok a) = Q a
IsRead Q (err (rocks_db e)) = Unit
IsRead Q (err (from_utf8_error s)) = ⊥

abbrev pub IsAnswer : {E L A : Type 0} (Q : A → Type 0) → Result (EngineError E L) A → Type 0
IsAnswer Q (ok a) = Q a
IsAnswer Q (err (db_error (rocks_db e))) = Unit
IsAnswer Q (err (db_error (from_utf8_error s))) = ⊥
IsAnswer Q (err (load_config_error x)) = ⊥

IsAnswer-map_err :
    {E A : Type 0} (L : Type 0) (Q : A → Type 0) (m : Result (DbError E) A)
    → IsRead Q m
    → IsAnswer {E = E} {L = L} Q (map_err db_error m)
IsAnswer-map_err L Q (ok a) h = h
IsAnswer-map_err L Q (err (rocks_db e)) h = tt
IsAnswer-map_err L Q (err (from_utf8_error s)) h = h

IsAnswer-bind :
    {E L A B : Type 0} (m : Result (EngineError E L) A) (f : A → Result (EngineError E L) B)
    → IsAnswer IsAny m
    → ((a : A) → IsAnswer IsAny (f a))
    → IsAnswer IsAny (m >>= f)
IsAnswer-bind (ok a) f h g = g a
IsAnswer-bind (err (db_error (rocks_db e))) f h g = tt
IsAnswer-bind (err (db_error (from_utf8_error s))) f h g = h
IsAnswer-bind (err (load_config_error x)) f h g = h

IsAnswer-settled :
    (E L : Type 0) (b : Bool) → IsAnswer {E = E} {L = L} IsAny (if b then ok true else ok false)
IsAnswer-settled E L true = tt
IsAnswer-settled E L false = tt

IsRead-map_ok :
    {E : Type 0} (m : Result (DbError E) (Option Text))
    → IsRead IsString m
    → IsRead IsAny (map_ok is_some m)
IsRead-map_ok (ok a) h = tt
IsRead-map_ok (err (rocks_db e)) h = tt
IsRead-map_ok (err (from_utf8_error s)) h = h

module _ (crates : Crates)
    (ascii : (s t : Text) → crates.domain_to_ascii s ≡ ok t → All (λ b. b < 0x80) t) (io : Io)
    (finishes : Text → Bool) (r : Rocks) where
  get_first-IsRead :
      (db : r.Db) (keys : List Text)
      → HoldsStrings crates ascii io finishes r db
      → IsRead IsString (get_first r db keys)
  unfolding get_first
  get_first-IsRead db [] h = tt
  get_first-IsRead db (k ∷ keys) h = elim (Result-cases (r.get db k)) [
    | inr (x, failed) ↦ rw failed tt
    | inl (none, found) ↦ rw found (get_first-IsRead db keys h)
    | inl (some s, found) ↦
        let text = h k s (sym (r.get_ok db k (some s) found)) in
        rw (found, from_utf8_of_IsUtf8 s text) text
  ]

  contains-IsRead :
      (db : r.Db) (name : Text)
      → HoldsStrings crates ascii io finishes r db
      → IsRead IsAny (contains r (opened r db) name)
  unfolding contains get
  contains-IsRead db name h =
      IsRead-map_ok (get_first r db (lookup_keys name)) (get_first-IsRead db (lookup_keys name) h)

  module _ (L : Type 0) (c : AdblockCompiler io) (f : Fresh crates io finishes r L) where
    empty-HoldsStrings :
        (db : r.Db) → IsEmpty crates io finishes r L db → HoldsStrings crates ascii io finishes r db
    empty-HoldsStrings db empty k v found = cc (empty k, found)

    abbrev pub compiled : AdblockDb r.Db
    compiled = compile crates io finishes r c (fresh_db crates io finishes r L f)

    get_redirect-IsAnswer : (name : Text) → IsAnswer IsString (get_redirect r L compiled name)
    unfolding get_redirect get compile
    get_redirect-IsAnswer name = IsAnswer-map_err L IsString (get r compiled.rewrites name) (
        subst (λ s. IsRead IsString (get r s name))
          (sym (put_alias_lists-opened crates io finishes r f.rewrites _))
          (get_first-IsRead _ (lookup_keys name) (
            rewrites-HoldsStrings crates ascii io finishes r f.rewrites c.rewrites
              (empty-HoldsStrings f.rewrites f.rewrites_empty))))

    listed-IsAnswer :
        (db : r.Db) (dss : List (List Domain)) (name : Text)
        → IsEmpty crates io finishes r L db
        → IsAnswer {E = r.Error} {L = L} IsAny
            (map_err db_error (contains r (put_lists crates io finishes r (opened r db) dss) name))
    listed-IsAnswer db dss name empty = IsAnswer-map_err L IsAny _ (
        subst (λ s. IsRead IsAny (contains r s name))
          (sym (put_lists-opened crates io finishes r db dss))
          (contains-IsRead _ name (
            after_lists-HoldsStrings crates ascii io finishes r db dss
              (empty-HoldsStrings db empty))))

    is_blocked-IsAnswer : (name : Text) → IsAnswer IsAny (is_blocked r L compiled name)
    unfolding is_blocked compile
    is_blocked-IsAnswer name =
        IsAnswer-bind _ _
          (listed-IsAnswer f.white (white_lists crates io finishes r L c) name f.white_empty)
          (λ white. elim (Bool-cases white) [
            | inl e ↦ rw e tt
            | inr e ↦ rw e (
                IsAnswer-bind _ _
                  (listed-IsAnswer f.black (black_lists crates io finishes r L c) name
                    f.black_empty)
                  (IsAnswer-settled r.Error L))
          ])

    -- Where `idna` returns ASCII: after any lists are compiled into empty stores, also where writes
    -- and reads fail, `get_redirect` of any text returns a string, nothing, or an error of RocksDB,
    -- and `is_blocked` a verdict or an error of RocksDB; no value is found that is not UTF-8.
    pub compile-IsAnswer :
        (name : Text)
        → IsAnswer IsString (get_redirect r L compiled name)
          × IsAnswer IsAny (is_blocked r L compiled name)
    compile-IsAnswer name = (get_redirect-IsAnswer name, is_blocked-IsAnswer name)
