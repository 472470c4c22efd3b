-- ===== src/Compiler/Precedence.antt =====
-- Which alias an overridden name has after src/compiler/mod.rs has written the rewrites.
use bancuh_dns.Prelude.{
  ◌≡◌, refl, sym, ap, ◌∙◌, Option, none, some, List, [], ◌∷◌, Bool, true, false, ok, if◌then◌else◌,
}
use bancuh_dns.Text.{Text, same_text}
use bancuh_dns.Db.{normalize_name, put_alias}
use bancuh_dns.Db.Interface.{Rocks}
use bancuh_dns.Db.Lookup.{opened, or_else}
use bancuh_dns.Db.Update.{stored}
use bancuh_dns.Fetch.{Io}
use bancuh_dns.Parser.{Crates, CName}
use bancuh_dns.Compiler.{put_aliases, put_alias_lists}

or_else_assoc : (a b c : Option Text) → or_else (or_else a b) c ≡ or_else a (or_else b c)
or_else_assoc none b c = refl
or_else_assoc (some v) b c = refl

abbrev alias_at : CName → Text → Option Text
alias_at c j =
    if same_text (normalize_name c.domain.text) j then some (normalize_name c.alias.text) else none

-- The alias of the last rewrite of the key.
abbrev pub last_alias : List CName → Text → Option Text
last_alias [] j = none
last_alias (c ∷ cs) j = or_else (last_alias cs j) (alias_at c j)

abbrev pub last_alias_of_lists : List (List CName) → Text → Option Text
last_alias_of_lists [] j = none
last_alias_of_lists (cs ∷ css) j = or_else (last_alias_of_lists css j) (last_alias cs j)

module _ (crates : Crates) (io : Io) (finishes : Text → Bool) (r : Rocks) where
  -- The database after a list of rewrites, and after some lists.
  unfoldable pub after_aliases : r.Db → List CName → r.Db
  after_aliases db [] = db
  after_aliases db (c ∷ cs) =
      after_aliases (stored r db c.domain.text (normalize_name c.alias.text)) cs

  unfoldable pub after_alias_lists : r.Db → List (List CName) → r.Db
  after_alias_lists db [] = db
  after_alias_lists db (cs ∷ css) = after_alias_lists (after_aliases db cs) css

  put_aliases-opened :
      (db : r.Db) (cs : List CName)
      → put_aliases crates io finishes r (opened r db) cs ≡ opened r (after_aliases db cs)
  unfolding put_aliases put_alias after_aliases
  put_aliases-opened db [] = refl
  put_aliases-opened db (c ∷ cs) =
      put_aliases-opened (stored r db c.domain.text (normalize_name c.alias.text)) cs

  pub put_alias_lists-opened :
      (db : r.Db) (css : List (List CName))
      → put_alias_lists crates io finishes r (opened r db) css ≡ opened r (after_alias_lists db css)
  unfolding put_alias_lists after_alias_lists
  put_alias_lists-opened db [] = refl
  put_alias_lists-opened db (cs ∷ css) =
      ap (λ s. put_alias_lists crates io finishes r s css) (put_aliases-opened db cs)
      ∙ put_alias_lists-opened (after_aliases db cs) css

  module _ (writable : (db : r.Db) (k v : Text) → (r.put db k v).1 ≡ ok tt) where
    contents-stored_alias :
        (db : r.Db) (c : CName) (j : Text)
        → r.contents (stored r db c.domain.text (normalize_name c.alias.text)) j
          ≡ or_else (alias_at c j) (r.contents db j)
    contents-stored_alias db c j =
        r.put_ok db (normalize_name c.domain.text) (normalize_name c.alias.text) (writable _ _ _) j
        ∙ choose (same_text (normalize_name c.domain.text) j)
      where
        choose :
            (b : Bool)
            → (if b then some (normalize_name c.alias.text) else r.contents db j)
              ≡ or_else (if b then some (normalize_name c.alias.text) else none) (r.contents db j)
        choose true = refl
        choose false = refl

    contents-after_aliases :
        (db : r.Db) (cs : List CName) (j : Text)
        → r.contents (after_aliases db cs) j ≡ or_else (last_alias cs j) (r.contents db j)
    unfolding after_aliases
    contents-after_aliases db [] j = refl
    contents-after_aliases db (c ∷ cs) j =
        contents-after_aliases (stored r db c.domain.text (normalize_name c.alias.text)) cs j
        ∙ ap (or_else (last_alias cs j)) (contents-stored_alias db c j)
        ∙ sym (or_else_assoc (last_alias cs j) (alias_at c j) (r.contents db j))

    pub contents-after_alias_lists :
        (db : r.Db) (css : List (List CName)) (j : Text)
        → r.contents (after_alias_lists db css) j
          ≡ or_else (last_alias_of_lists css j) (r.contents db j)
    unfolding after_alias_lists
    contents-after_alias_lists db [] j = refl
    contents-after_alias_lists db (cs ∷ css) j =
        contents-after_alias_lists (after_aliases db cs) css j
        ∙ ap (or_else (last_alias_of_lists css j)) (contents-after_aliases db cs j)
        ∙ sym (or_else_assoc (last_alias_of_lists css j) (last_alias cs j) (r.contents db j))
