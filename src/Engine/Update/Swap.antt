-- ===== src/Engine/Update/Swap.antt =====
-- What `AdblockEngine::run_update` of src/engine.rs leaves as the current database.
use bancuh_dns.Prelude.{
  ◌≡◌, refl, sym, ap, ◌∙◌, Bool, Result-cases, ok_injective, ok, err, inl, inr, map_err,
}
use bancuh_dns.Text.{Text}
use bancuh_dns.Serve.{
  serve_cases, serve_split, serve_map_err, serve_map_err_ok, on_error, on_error_ok, lift,
}
use bancuh_dns.Db.{AdblockDb, DomainStore, rocks_db}
use bancuh_dns.Db.Interface.{Rocks}
use bancuh_dns.Db.Lifetime.{Disk, store_path, create_store, drop_store, drop_db, create}
use bancuh_dns.Db.Lookup.{opened}
use bancuh_dns.Fetch.{Io}
use bancuh_dns.Config.{Locations, Config, load}
use bancuh_dns.Parser.{Crates}
use bancuh_dns.Compiler.{from_config, compile}
use bancuh_dns.Compiler.Effect.{Fresh, IsEmpty, fresh_db}
use bancuh_dns.Engine.{EngineError, db_error, load_config_error}
use bancuh_dns.Engine.Update.{AdblockEngine, LoadError, load_definition, new_db, run_update}

module _ {io : Io} (at : Locations io) (crates : Crates) (finishes : Text → Bool) (r : Rocks)
    (disk : Disk r) where
  open disk use {World}

  abbrev L : Type 0
  L = LoadError at crates finishes r disk

  -- An update that fails leaves the engine with the database it has.
  pub run_update-err :
      (random : Text × Text × Text) (engine : AdblockEngine io r.Db) (w : World)
      (e : EngineError r.Error (LoadError at crates finishes r disk))
      → (run_update at crates finishes r disk random engine w).2 ≡ err e
      → (run_update at crates finishes r disk random engine w).0 ≡ engine
  unfolding run_update
  run_update-err random engine w e h =
      elim (serve_cases (new_db at crates finishes r disk random engine) w) [
        | inl (w', db, found) ↦ cc (rw (run_update, found) at h)
        | inr (w', x, failed) ↦ rw (run_update, failed) refl
      ]

  -- What an update that succeeds has prepared.
  pub new_db-ok :
      (random : Text × Text × Text) (engine : AdblockEngine io r.Db) (w : World) {w' : World}
      {db : AdblockDb r.Db}
      → new_db at crates finishes r disk random engine w ≡ (w', ok db)
      → (config : Config io) × (before : AdblockDb r.Db) × (create disk random w ≡ (w', ok before))
        × (load at engine.config_url ≡ ok config)
        × (db ≡ compile crates io finishes r (from_config config) before)
  unfolding new_db load_definition
  new_db-ok random engine w {w'} {db} h =
      serve_split (serve_map_err db_error (create disk random)) _ w h λ w1 before made rest.
        let loads =
          on_error_ok (drop_db disk before)
            (lift (
              map_err load_config_error
                (load_definition at crates finishes r disk before engine.config_url)))
            w1 rest in
        elim (Result-cases (load at engine.config_url)) [
          | inr (e, failed) ↦ cc (ap (λ o. o.1) (rw failed at loads))
          | inl (config, loaded) ↦ (
            config,
            before,
            serve_map_err_ok db_error (create disk random) w made
                ∙ ap (λ w. (w, ok before)) (ap (λ o. o.0) loads),
            loaded,
            sym (ok_injective (ap (λ o. o.1) (rw loaded at loads))),
          )
        ]

  module _
      (opens_empty : (path : Text) (w w' : World) (db : r.Db)
        → disk.open_default path w ≡ (w', ok db)
        → IsEmpty crates io finishes r L db) where
    create_store-opened :
        (random : Text) (w : World) {w' : World} {s : DomainStore r.Db}
        → create_store disk random w ≡ (w', ok s)
        → (db : r.Db) × (s ≡ opened r db) × IsEmpty crates io finishes r L db
    unfolding create_store
    create_store-opened random w h =
        serve_split (serve_map_err rocks_db (disk.open_default (store_path random))) _ w h
          λ w1 db made rest. (
            db,
            sym (ok_injective (ap (λ o. o.1) rest)),
            opens_empty (store_path random) w w1 db
                (serve_map_err_ok rocks_db (disk.open_default (store_path random)) w made),
          )

    create-Fresh :
        (random : Text × Text × Text) (w : World) {w' : World} {db : AdblockDb r.Db}
        → create disk random w ≡ (w', ok db)
        → (f : Fresh crates io finishes r L) × (db ≡ fresh_db crates io finishes r L f)
    unfolding create
    create-Fresh random w h = serve_split (create_store disk random.0) _ w h λ w1 b eb h1.
        serve_split (on_error (drop_store disk b) (create_store disk random.1)) _ w1 h1
          λ w2 wh ew h2.
            serve_split
              (on_error (λ w. drop_store disk b (drop_store disk wh w))
                (create_store disk random.2))
              _ w2 h2
              λ w3 o eo h3.
                let (black, is_b, empty_b) = create_store-opened random.0 w eb in
                let (white, is_w, empty_w) =
                  create_store-opened random.1 w1
                    (on_error_ok (drop_store disk b) (create_store disk random.1) w1 ew) in
                let (rewrites, is_o, empty_o) = create_store-opened random.2 w2 (
                  on_error_ok (λ w. drop_store disk b (drop_store disk wh w))
                    (create_store disk random.2) w2 eo) in
                (
                  record {
                    black = black;
                    white = white;
                    rewrites = rewrites;
                    black_empty = empty_b;
                    white_empty = empty_w;
                    rewrites_empty = empty_o;
                  },
                  sym (ok_injective (ap (λ o. o.1) h3)) ∙ cc (is_b, is_w, is_o),
                )

    -- Where every store that is opened is empty: an update that succeeds has loaded the configuration
    -- of the engine's URL, and leaves the engine, under the same URL, with its lists compiled into
    -- three empty stores.
    pub run_update-ok :
        (random : Text × Text × Text) (engine : AdblockEngine io r.Db) (w : World)
        → (run_update at crates finishes r disk random engine w).2 ≡ ok tt
        → (config : Config io) × (f : Fresh crates io finishes r L) × (load at engine.config_url
            ≡ ok config)
          × ((run_update at crates finishes r disk random engine w).0 ≡ record {
            db =
                compile crates io finishes r
                  (from_config config)
                  (fresh_db crates io finishes r L f);
            config_url = engine.config_url;
          })
    unfolding run_update
    run_update-ok random engine w h =
        elim (serve_cases (new_db at crates finishes r disk random engine) w) [
          | inr (w', e, failed) ↦ cc (rw (run_update, failed) at h)
          | inl (w', db, found) ↦
              let (config, before, created, loaded, compiled) = new_db-ok random engine w found in
              let (f, is_fresh) = create-Fresh random w created in
              (
                config,
                f,
                loaded,
                rw (run_update, found)
                    (ap (λ d. record { db = d; config_url = engine.config_url })
                      (compiled ∙ ap (compile crates io finishes r (from_config config)) is_fresh)),
              )
        ]
