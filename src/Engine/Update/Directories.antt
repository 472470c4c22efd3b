-- ===== src/Engine/Update/Directories.antt =====
-- The directories that are on the disk after an update of src/engine.rs.
use bancuh_dns.Prelude.{
  ◌≡◌, refl, ◌∙◌, Bool, true, false, List, [], ◌∷◌, inl, inr, arith, Result-cases, subst,
}
use bancuh_dns.Text.{Text}
use bancuh_dns.Serve.{serve_cases}
use bancuh_dns.Db.{AdblockDb, DomainStore, put, put_alias}
use bancuh_dns.Db.Interface.{Rocks}
use bancuh_dns.Db.Lifetime.{Disk, create}
use bancuh_dns.Fetch.{Io}
use bancuh_dns.Config.{Locations, load}
use bancuh_dns.Parser.{Crates, Domain, CName}
use bancuh_dns.Compiler.{
  AdblockCompiler, from_config, compile, put_all, put_lists, put_aliases, put_alias_lists,
}
use bancuh_dns.Engine.Update.{AdblockEngine, load_definition, new_db, run_update}
use bancuh_dns.Db.Directories.{
  IsDisk, at_store, at_db, drawn, Makes, drop_db-other, create-Makes, put-at_store,
  put_alias-at_store,
}

module _ {r : Rocks} (disk : Disk r) where
  open disk use {World, present}

  module _ (d : IsDisk disk) (crates : Crates) (io : Io) (finishes : Text → Bool) (q : Text) where
    put_all-at_store :
        (s : DomainStore r.Db) (ds : List Domain)
        → at_store disk (put_all crates io finishes r s ds) q ≡ at_store disk s q
    unfolding put_all
    put_all-at_store s [] = refl
    put_all-at_store s (x ∷ ds) =
        put_all-at_store (put r s x.text).0 ds ∙ put-at_store disk d s x.text q

    put_lists-at_store :
        (s : DomainStore r.Db) (dss : List (List Domain))
        → at_store disk (put_lists crates io finishes r s dss) q ≡ at_store disk s q
    unfolding put_lists
    put_lists-at_store s [] = refl
    put_lists-at_store s (ds ∷ dss) =
        put_lists-at_store (put_all crates io finishes r s ds) dss ∙ put_all-at_store s ds

    put_aliases-at_store :
        (s : DomainStore r.Db) (cs : List CName)
        → at_store disk (put_aliases crates io finishes r s cs) q ≡ at_store disk s q
    unfolding put_aliases
    put_aliases-at_store s [] = refl
    put_aliases-at_store s (c ∷ cs) =
        put_aliases-at_store (put_alias r s c.domain.text c.alias.text).0 cs
        ∙ put_alias-at_store disk d s c.domain.text c.alias.text q

    put_alias_lists-at_store :
        (s : DomainStore r.Db) (css : List (List CName))
        → at_store disk (put_alias_lists crates io finishes r s css) q ≡ at_store disk s q
    unfolding put_alias_lists
    put_alias_lists-at_store s [] = refl
    put_alias_lists-at_store s (cs ∷ css) =
        put_alias_lists-at_store (put_aliases crates io finishes r s cs) css
        ∙ put_aliases-at_store s cs

    compile-at_db :
        (c : AdblockCompiler io) (db : AdblockDb r.Db)
        → at_db disk (compile crates io finishes r c db) q ≡ at_db disk db q
    unfolding compile
    compile-at_db c db = rw (put_lists-at_store, put_lists-at_store, put_alias_lists-at_store) refl

  module _ {io : Io} (at : Locations io) (crates : Crates) (finishes : Text → Bool)
      (d : IsDisk disk) where
    new_db-Makes :
        (random : Text × Text × Text) (engine : AdblockEngine io r.Db) (w : World)
        → Makes disk d random w (new_db at crates finishes r disk random engine w)
    unfolding new_db load_definition
    new_db-Makes random engine w = elim (serve_cases (create disk random) w) [
      | inr (w1, e, failed) ↦
          let makes = subst (Makes disk d random w) failed (create-Makes disk d random w) in
          rw (new_db, failed) makes
      | inl (w1, db, made) ↦
          let makes = subst (Makes disk d random w) made (create-Makes disk d random w) in
          elim (Result-cases (load at engine.config_url)) [
            | inr (e, failed) ↦
                rw (new_db, made, load_definition, failed)
                  (λ q other.
                    let (at_new, there, same) = makes q in
                    let dropped = drop_db-other disk d db w1 q in ground arith)
            | inl (config, loaded) ↦
                rw (new_db, made, load_definition, loaded)
                  (λ q.
                    let (at_new, there, same) = makes q in
                    (
                      compile-at_db d crates io finishes q (from_config config) db ∙ at_new,
                      there,
                      same,
                    ))
          ]
    ]

    -- The names that an update draws are not those of the engine's stores.
    abbrev pub IsNew : Text × Text × Text → AdblockEngine io r.Db → Type 0
    IsNew random engine = (q : Text) → drawn disk d random q ≡ true → at_db disk engine.db q ≡ false

    -- The directories of the engine's stores are on the disk.
    abbrev pub HasStores : AdblockEngine io r.Db × World → Type 0
    HasStores (engine, w) = (q : Text) → at_db disk engine.db q ≡ true → present w q ≡ true

    -- Every update, also one that fails at any point, has the directories of the stores that the engine
    -- then has on the disk, where those of its stores were there before; and it changes no directory
    -- but those whose names it draws and those of the stores that the engine had. The names drawn are not
    -- those of the engine's stores. Of a failed opening, and of a destruction, nothing is asked but that
    -- they change no other directory.
    pub run_update-HasStores :
        (random : Text × Text × Text) (engine : AdblockEngine io r.Db) (w : World)
        → IsNew random engine
        → HasStores (engine, w)
        → let after = run_update at crates finishes r disk random engine w in
          HasStores (after.0, after.1)
          × ((q : Text)
              → drawn disk d random q ≡ false
              → at_db disk engine.db q ≡ false
              → present after.1 q ≡ present w q)
    unfolding run_update
    run_update-HasStores random engine w new has =
        elim (serve_cases (new_db at crates finishes r disk random engine) w) [
          | inr (w1, e, failed) ↦
              let makes = subst (Makes disk d random w) failed (new_db-Makes random engine w) in
              rw (run_update, failed)
                (λ q mine. ground (arith, makes q, new q, has q), λ q other apart. makes q other)
          | inl (w1, db, made) ↦
              let makes = subst (Makes disk d random w) made (new_db-Makes random engine w) in
              rw (run_update, made)
                (
                  (λ q mine.
                      let (at_new, there, same) = makes q in
                      let dropped = drop_db-other disk d engine.db w1 q in ground (arith, new q)),
                  (λ q other apart.
                      let (at_new, there, same) = makes q in
                      drop_db-other disk d engine.db w1 q apart ∙ same other),
                )
        ]
