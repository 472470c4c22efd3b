-- ===== src/Compiler/Effect.antt =====
-- What the engine answers after src/compiler/mod.rs has compiled lists into fresh stores.
use bancuh_dns.Prelude.{
  ok_injective, sym, inl, inr, true, ◌≡◌, ◌↔◌, refl, ap, ◌∙◌, Option, none, some, Bool, true, List,
  ◌∷◌, map, Any, ok, inl, inr,
}
use bancuh_dns.Text.{Text}
use bancuh_dns.Db.{AdblockDb}
use bancuh_dns.Db.Interface.{Rocks}
use bancuh_dns.Db.Keys.{Name, IsName, fqdn}
use bancuh_dns.Db.Lookup.{Pattern, key_of, Matches, IsSound, opened, answer, or_else}
use bancuh_dns.Db.Update.{answer_congr}
use bancuh_dns.Fetch.{Io}
use bancuh_dns.Parser.{Crates, Domain, CName}
use bancuh_dns.Engine.{is_blocked, get_redirect}
use bancuh_dns.Engine.Verdict.{IsServing, Listed, is_blocked_iff, get_redirect_refines}
use bancuh_dns.Compiler.{AdblockCompiler, load_blacklist, load_whitelist, load_rewrites, compile}
use bancuh_dns.Compiler.Held.{
  Among, IsWritable, after_lists, put_lists-opened, after_lists-IsHeld_only, after_lists-IsHeld,
}
use bancuh_dns.Compiler.Precedence.{
  last_alias_of_lists, after_alias_lists, put_alias_lists-opened, contents-after_alias_lists,
}

or_else-none : (o : Option Text) → or_else o none ≡ o
or_else-none none = refl
or_else-none (some v) = refl

module _ (crates : Crates) (io : Io) (finishes : Text → Bool) (r : Rocks) (L : Type 0) where
  -- A store that holds nothing.
  abbrev pub IsEmpty : r.Db → Type 0
  IsEmpty db = (j : Text) → r.contents db j ≡ none

  -- An entry of some list matches the name.
  abbrev pub ListedIn : List (List Domain) → Name → Type 0
  ListedIn dss ls = (p : Pattern) × Matches p ls × Any (Among crates io finishes r (key_of p)) dss

  abbrev pub black_lists : AdblockCompiler io → List (List Domain)
  black_lists c = map (load_blacklist crates io finishes) c.blacklists

  abbrev pub white_lists : AdblockCompiler io → List (List Domain)
  white_lists c = map (load_whitelist crates io finishes) c.whitelists

  abbrev pub rewrite_lists : AdblockCompiler io → List (List CName)
  rewrite_lists c = map (load_rewrites crates io finishes) c.rewrites

  -- Three stores before a compilation, and after it.
  pub record Fresh : Type 0 where
    pub black : r.Db
    pub white : r.Db
    pub rewrites : r.Db
    pub black_empty : IsEmpty black
    pub white_empty : IsEmpty white
    pub rewrites_empty : IsEmpty rewrites

  abbrev pub fresh_db : Fresh → AdblockDb r.Db
  fresh_db f = record {
    blacklist = opened r f.black;
    whitelist = opened r f.white;
    rewrites = opened r f.rewrites;
  }

  abbrev pub black_after : AdblockCompiler io → Fresh → r.Db
  black_after c f = after_lists crates io finishes r f.black (black_lists c)

  abbrev pub white_after : AdblockCompiler io → Fresh → r.Db
  white_after c f = after_lists crates io finishes r f.white (white_lists c)

  abbrev pub rewrites_after : AdblockCompiler io → Fresh → r.Db
  rewrites_after c f = after_alias_lists crates io finishes r f.rewrites (rewrite_lists c)

  -- The stores after the compilation are in working order.
  pub record Works (c : AdblockCompiler io) (f : Fresh) : Type 0 where
    pub black_sound : IsSound r (black_after c f)
    pub white_sound : IsSound r (white_after c f)
    pub rewrites_sound : IsSound r (rewrites_after c f)

  module _ (c : AdblockCompiler io) (f : Fresh) where
    pub compile-IsServing :
        Works c f
        → IsServing r L
            (compile crates io finishes r c (fresh_db f))
            (black_after c f)
            (white_after c f)
            (rewrites_after c f)
    unfolding compile
    compile-IsServing w = record {
      blacklist = put_lists-opened crates io finishes r f.black (black_lists c);
      whitelist = put_lists-opened crates io finishes r f.white (white_lists c);
      rewriting = put_alias_lists-opened crates io finishes r f.rewrites (rewrite_lists c);
      black_sound = w.black_sound;
      white_sound = w.white_sound;
      rewrites_sound = w.rewrites_sound;
    }

    after_lists-Listed :
        (db : r.Db) (dss : List (List Domain)) (ls : Name)
        → IsWritable crates io finishes r
        → IsEmpty db
        → Listed r L (after_lists crates io finishes r db dss) ls ↔ ListedIn dss ls
    after_lists-Listed db dss ls w empty = (
      λ (p, m, held). elim (after_lists-IsHeld_only crates io finishes r db dss (key_of p) held) [
        | inl found ↦ (p, m, found)
        | inr before ↦ absurd (before (empty (key_of p)))
      ],
      λ (p, m, found).
          (p, m, after_lists-IsHeld crates io finishes r db dss (key_of p) w (inl found)),
    )

    -- After the lists are compiled into empty stores, where every write succeeds and the stores are
    -- in working order afterwards, `is_blocked` returns, and says yes exactly to the names that a
    -- parsed entry of some blacklist matches and no parsed entry of a whitelist.
    pub is_blocked-compile :
        (l : Text) (ls : Name)
        → IsWritable crates io finishes r
        → Works c f
        → IsName (l ∷ ls)
        → (b : Bool) × (is_blocked r L (compile crates io finishes r c (fresh_db f)) (fqdn (l ∷ ls))
            ≡ ok b)
          × ((b ≡ true) ↔ (ListedIn (black_lists c) (l ∷ ls) × ¬ ListedIn (white_lists c) (l ∷ ls)))
    is_blocked-compile l ls w works h =
        let (b, e, rule) = is_blocked_iff r L l ls (compile-IsServing works) h in
        let black = after_lists-Listed f.black (black_lists c) (l ∷ ls) w f.black_empty in
        let white = after_lists-Listed f.white (white_lists c) (l ∷ ls) w f.white_empty in
        (
          b,
          e,
          (
            λ yes'. let both' = rule.0 yes' in (black.0 both'.0, λ x. both'.1 (white.1 x)),
            λ both'. rule.1 (black.1 both'.0, λ x. both'.1 (white.0 x)),
          ),
        )

    -- After the lists are compiled into empty stores, where every write succeeds and the stores are
    -- in working order afterwards, `get_redirect` answers a name by the last alias of the name
    -- itself, or else by the last one of the longest wildcard above it.
    pub get_redirect-compile :
        (l : Text) (ls : Name)
        → IsWritable crates io finishes r
        → Works c f
        → IsName (l ∷ ls)
        → get_redirect r L (compile crates io finishes r c (fresh_db f)) (fqdn (l ∷ ls))
          ≡ ok (answer (last_alias_of_lists (rewrite_lists c)) (l ∷ ls))
    get_redirect-compile l ls w works h =
        get_redirect_refines r L l ls (compile-IsServing works) h
        ∙ ap ok (
            answer_congr (r.contents (rewrites_after c f)) (last_alias_of_lists (rewrite_lists c))
              (l ∷ ls)
              (λ p m.
                contents-after_alias_lists crates io finishes r w f.rewrites (rewrite_lists c)
                  (key_of p)
                ∙ ap (or_else (last_alias_of_lists (rewrite_lists c) (key_of p)))
                    (f.rewrites_empty (key_of p))
                ∙ or_else-none _))

    -- Also where writes fail: a name that is blocked after the lists are compiled into empty stores,
    -- in working order afterwards, is matched by a parsed entry of some blacklist.
    pub is_blocked-compile_only :
        (l : Text) (ls : Name)
        → Works c f
        → IsName (l ∷ ls)
        → is_blocked r L (compile crates io finishes r c (fresh_db f)) (fqdn (l ∷ ls)) ≡ ok true
        → ListedIn (black_lists c) (l ∷ ls)
    is_blocked-compile_only l ls works h yes' =
        let (b, e, rule) = is_blocked_iff r L l ls (compile-IsServing works) h in
        let (p, m, held) = (rule.0 (ok_injective (sym e ∙ yes'))).0 in
        elim (after_lists-IsHeld_only crates io finishes r f.black (black_lists c) (key_of p)
          held) [
            | inl found ↦ (p, m, found)
            | inr before ↦ absurd (before (f.black_empty (key_of p)))
          ]
