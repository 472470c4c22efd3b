-- ===== src/Engine/Update/Answers.antt =====
-- What the engine of src/engine.rs answers after an update, from the configuration on: the loading, the
-- parsers, the compiler, the stores and the lookups together.
use bancuh_dns.Prelude.{◌≡◌, ◌↔◌, ◌<◌, ap, ◌∙◌, Bool, true, All, ◌∷◌, ok}
use bancuh_dns.Text.{Text}
use bancuh_dns.Db.Interface.{Rocks, IsReadable}
use bancuh_dns.Db.Lifetime.{Disk}
use bancuh_dns.Db.Keys.{Name, IsName, fqdn}
use bancuh_dns.Db.Lookup.{answer}
use bancuh_dns.Fetch.{Io}
use bancuh_dns.Config.{Locations, Config, load}
use bancuh_dns.Parser.{Crates}
use bancuh_dns.Compiler.{AdblockCompiler, from_config}
use bancuh_dns.Compiler.Precedence.{last_alias_of_lists}
use bancuh_dns.Compiler.Strings.{HoldsStrings, after_lists-HoldsStrings, rewrites-HoldsStrings}
use bancuh_dns.Compiler.Effect.{
  Fresh, IsEmpty, ListedIn, Works, black_lists, white_lists, rewrite_lists, is_blocked-compile,
  get_redirect-compile,
}
use bancuh_dns.Engine.{is_blocked, get_redirect}
use bancuh_dns.Engine.Update.{AdblockEngine, LoadError, run_update}
use bancuh_dns.Engine.Update.Swap.{run_update-ok}

module _ {io : Io} (at : Locations io) (crates : Crates) (finishes : Text → Bool) (r : Rocks)
    (disk : Disk r) where
  open disk use {World}

  abbrev L : Type 0
  L = LoadError at crates finishes r disk

  -- The stores read and write without errors, a store under a new name is empty, and `idna` returns
  -- ASCII.
  pub record IsReliable : Type 0 where
    pub writes : (db : r.Db) (k v : Text) → (r.put db k v).1 ≡ ok tt
    pub reads : (db : r.Db) → IsReadable r db
    pub opens_empty :
        (path : Text) (w w' : World) (db : r.Db)
        → disk.open_default path w ≡ (w', ok db)
        → IsEmpty crates io finishes r L db
    pub ascii : (s t : Text) → crates.domain_to_ascii s ≡ ok t → All (λ b. b < 0x80) t

  empty-HoldsStrings :
      (env : IsReliable) (db : r.Db)
      → IsEmpty crates io finishes r L db
      → HoldsStrings crates env.ascii io finishes r db
  empty-HoldsStrings env db empty k v found = cc (empty k, found)

  compile-Works :
      IsReliable
      → (c : AdblockCompiler io) (f : Fresh crates io finishes r L)
      → Works crates io finishes r L c f
  compile-Works env c f = record {
    black_sound = record {
      readable = env.reads _;
      utf8 =
          after_lists-HoldsStrings crates env.ascii io finishes r f.black
            (black_lists crates io finishes r L c) (empty-HoldsStrings env f.black f.black_empty);
    };
    white_sound = record {
      readable = env.reads _;
      utf8 =
          after_lists-HoldsStrings crates env.ascii io finishes r f.white
            (white_lists crates io finishes r L c) (empty-HoldsStrings env f.white f.white_empty);
    };
    rewrites_sound = record {
      readable = env.reads _;
      utf8 =
          rewrites-HoldsStrings crates env.ascii io finishes r f.rewrites c.rewrites
            (empty-HoldsStrings env f.rewrites f.rewrites_empty);
    };
  }

  -- Where the stores are reliable: after an update that succeeds, the configuration of the engine's URL
  -- has loaded, and the engine answers every name by its lists as they were fetched. It blocks exactly
  -- the names that an entry of a blacklist matches and no entry of a whitelist, and rewrites a name to
  -- its last alias, or else to that of the longest wildcard above it.
  pub run_update-serves :
      (random : Text × Text × Text) (engine : AdblockEngine io r.Db) (w : World) (l : Text)
      (ls : Name)
      → IsReliable
      → IsName (l ∷ ls)
      → (run_update at crates finishes r disk random engine w).2 ≡ ok tt
      → let after = (run_update at crates finishes r disk random engine w).0 in
        (config : Config io) × (b : Bool) × (load at engine.config_url ≡ ok config)
        × (is_blocked r L after.db (fqdn (l ∷ ls)) ≡ ok b)
        × ((b ≡ true) ↔ (
            ListedIn crates io finishes r L
              (black_lists crates io finishes r L (from_config config))
              (l ∷ ls)
            × ¬ ListedIn crates io finishes r L
                (white_lists crates io finishes r L (from_config config))
                (l ∷ ls)))
        × (get_redirect r L after.db (fqdn (l ∷ ls))
            ≡ ok (
                answer
                  (last_alias_of_lists (rewrite_lists crates io finishes r L (from_config config)))
                  (l ∷ ls)))
  run_update-serves random engine w l ls env h done =
      let (config, f, loaded, swapped) =
        run_update-ok at crates finishes r disk env.opens_empty random engine w done in
      let works = compile-Works env (from_config config) f in
      let (b, verdict, rule) =
        is_blocked-compile crates io finishes r L (from_config config) f l ls env.writes works h in
      let rewriting =
        get_redirect-compile crates io finishes r L (from_config config) f l ls env.writes works
          h in
      let same = ap (λ e. e.db) swapped in
      (
        config,
        b,
        loaded,
        ap (λ db. is_blocked r L db (fqdn (l ∷ ls))) same ∙ verdict,
        rule,
        ap (λ db. get_redirect r L db (fqdn (l ∷ ls))) same ∙ rewriting,
      )
