-- ===== src/Service/Judged.antt =====
-- Which verdict the requests in Service.antt find on a name while the lists are updated: the engine of
-- src/engine.rs with its updates, and the lists of src/compiler together.
use bancuh_dns.Prelude.{
  OnOk, ◌↔◌, false, sym, Bool, ℕ, ◌≡◌, refl, ap, ◌∙◌, subst, true, none, some, List, [], ◌∷◌, ok,
  All, get_elem?, All-get_elem?, All-map,
}
use bancuh_dns.Text.{Text}
use bancuh_dns.Db.{AdblockDb}
use bancuh_dns.Db.Keys.{Name, IsName, fqdn}
use bancuh_dns.Engine.{is_blocked, get_redirect}
use bancuh_dns.Db.Lookup.{answer}
use bancuh_dns.Config.{Config, load}
use bancuh_dns.Compiler.{from_config}
use bancuh_dns.Compiler.Effect.{ListedIn, black_lists, white_lists, rewrite_lists}
use bancuh_dns.Compiler.Precedence.{last_alias_of_lists}
use bancuh_dns.Engine.Verdict.{is_blocked_any, get_redirect_any}
use bancuh_dns.Engine.Update.{LoadError}
use bancuh_dns.Engine.Update.Answers.{IsReliable, run_update-serves}
use bancuh_dns.Service.Databases.{Installs, Loaded, run-Holds, Sees}
use bancuh_dns.Service.{
  Setting, twice, Sources, Call, Service, Event, updates, arrives, loads_first, loads_again,
  answers, attempt, run,
}

same_truth : {X : Type 0} (a b : Bool) → (a ≡ true) ↔ X → (b ≡ true) ↔ X → a ≡ b
same_truth true true p q = refl
same_truth false false p q = refl
same_truth true false p q = sym (q.1 (p.0 refl))
same_truth false true p q = p.1 (q.0 refl)

module _ (setting : Setting) where
  open setting use {crates, r, disk, L, h, display_engine_error, Limiter, check_key, checks}

  module _ (s : Sources) where
    abbrev Errors : Type 0
    Errors = LoadError s.at crates s.finishes r disk

    -- An entry of a blacklist matches the name, and none of a whitelist does.
    abbrev pub IsListed : Config s.io → Name → Type 0
    IsListed config ls =
        ListedIn crates s.io s.finishes r Errors
          (black_lists crates s.io s.finishes r Errors (from_config config)) ls
        × (¬ ListedIn crates s.io s.finishes r Errors
            (white_lists crates s.io s.finishes r Errors (from_config config)) ls)

    -- No rewrite is for the name.
    abbrev pub IsUnaliased : Config s.io → Name → Type 0
    IsUnaliased config ls =
        answer
          (last_alias_of_lists (rewrite_lists crates s.io s.finishes r Errors (from_config config)))
          ls
        ≡ none

    -- The configuration, if it loads, satisfies a predicate.
    abbrev pub IfLoads : (Config s.io → Type 0) → Type 0
    IfLoads P = OnOk P (load s.at s.config_url)

  -- An update has reliable stores, and lists of which `P` holds.
  abbrev pub Updates : (Sources → Type 0) → Event setting → Type 0
  Updates P (updates s random) = IsReliable s.at crates s.finishes r disk × P s
  Updates P (arrives request src responder) = Unit
  Updates P (loads_first k) = Unit
  Updates P (loads_again k) = Unit
  Updates P (answers k upstream clock) = Unit

  Updates-map :
      (P Q : Sources → Type 0)
      → ((s : Sources) → P s → Q s)
      → (e : Event setting) → Updates P e
      → Updates Q e
  Updates-map P Q f (updates s random) (env, p) = (env, f s p)
  Updates-map P Q f (arrives request src responder) p = tt
  Updates-map P Q f (loads_first k) p = tt
  Updates-map P Q f (loads_again k) p = tt
  Updates-map P Q f (answers k upstream clock) p = tt

  module _ (b : Bool) where
    -- A database by which no rewrite answers a name, and that gives the verdict on it.
    abbrev pub Judges : Name → AdblockDb r.Db → Type 0
    Judges ls db = (get_redirect r L db (fqdn ls) ≡ ok none) × (is_blocked r L db (fqdn ls) ≡ ok b)

    -- The lists give the verdict.
    abbrev pub ListsJudge : Name → Sources → Type 0
    ListsJudge ls s =
        IfLoads s λ config. ((b ≡ true) ↔ IsListed s config ls) × IsUnaliased s config ls

    pub attempt-Judges :
        (s : Sources) (random : Text × Text × Text) (db : AdblockDb r.Db) (w : disk.World)
        (l : Text) (ls : Name)
        → IsName (l ∷ ls)
        → Updates (ListsJudge (l ∷ ls)) (updates s random)
        → (attempt setting s random db w).2 ≡ ok tt
        → Judges (l ∷ ls) (attempt setting s random db w).0.db
    attempt-Judges s random db w l ls is_name (env, judge) done =
        let (config, found, loaded, verdict, rule, redirect) =
          run_update-serves s.at crates s.finishes r disk random
            (record { db = db; config_url = s.config_url }) w l ls env is_name done in
        let (truth, no_alias) = subst (OnOk _) loaded judge in
        (
          get_redirect_any r (Errors s) L _ _ (redirect ∙ ap ok no_alias),
          is_blocked_any r (Errors s) L _ _ (verdict ∙ ap ok (same_truth found b rule truth)),
        )

    Updates-Installs :
        (l : Text) (ls : Name)
        → IsName (l ∷ ls)
        → (e : Event setting) → Updates (ListsJudge (l ∷ ls)) e
        → Installs setting (Judges (l ∷ ls)) e
    Updates-Installs l ls is_name (updates s random) judge =
        λ db w. attempt-Judges s random db w l ls is_name judge
    Updates-Installs l ls is_name (arrives request src responder) judge = tt
    Updates-Installs l ls is_name (loads_first k) judge = tt
    Updates-Installs l ls is_name (loads_again k) judge = tt
    Updates-Installs l ls is_name (answers k upstream clock) judge = tt

    -- Both databases that a request loads in a run give the verdict, if the current one did when the
    -- service had no calls, and the lists of every update do.
    pub run-Judges :
        (P : Sources → Type 0) (v : Service setting) (es : List (Event setting)) (k : ℕ) (l : Text)
        (ls : Name) {c : Call setting} {db db' : AdblockDb r.Db}
        → v.calls ≡ []
        → Judges (l ∷ ls) v.db
        → ((s : Sources) → P s → ListsJudge (l ∷ ls) s)
        → All (Updates P) es
        → get_elem? (run setting v es).calls k ≡ some c
        → c.progress ≡ twice db db'
        → IsName (l ∷ ls)
        → Judges (l ∷ ls) db × Judges (l ∷ ls) db'
    run-Judges P v es k l ls quiet now judge each found loaded is_name =
        let holds =
          run-Holds setting (Judges (l ∷ ls)) v es (now, rw quiet tt)
            (All-map (Updates P) (Installs setting (Judges (l ∷ ls)))
              (λ e u.
                Updates-Installs l ls is_name e (Updates-map P (ListsJudge (l ∷ ls)) judge e u))
              es each) in
        subst (Loaded setting (Judges (l ∷ ls))) loaded
          (All-get_elem? (Sees setting (Judges (l ∷ ls))) (run setting v es).calls k holds.1 found)
