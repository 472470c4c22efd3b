-- ===== src/Compiler/Held.antt =====
-- Which entries the stores hold after src/compiler/mod.rs has written the lists.
use bancuh_dns.Prelude.{
  ◌≡◌, ◌≢◌, ◌⊎◌, refl, sym, ap, ◌∙◌, none, List, [], ◌∷◌, Any, Bool, Result-cases, ok, inl, inr,
}
use bancuh_dns.Text.{Text, codes}
use bancuh_dns.Db.{normalize_name, put}
use bancuh_dns.Db.Interface.{Rocks}
use bancuh_dns.Db.Lookup.{opened}
use bancuh_dns.Db.Update.{stored, contents-stored}
use bancuh_dns.Fetch.{Io}
use bancuh_dns.Parser.{Crates, Domain}
use bancuh_dns.Compiler.{put_all, put_lists}

module _ (crates : Crates) (io : Io) (finishes : Text → Bool) (r : Rocks) where
  -- A key is held.
  abbrev pub IsHeld : r.Db → Text → Type 0
  IsHeld db j = r.contents db j ≢ none

  -- A domain of a list has the key.
  abbrev pub Among : Text → List Domain → Type 0
  Among j ds = Any (λ d. normalize_name d.text ≡ j) ds

  -- Every write succeeds.
  abbrev pub IsWritable : Type 0
  IsWritable = (db : r.Db) (k v : Text) → (r.put db k v).1 ≡ ok tt

  stored-IsHeld_only :
      (db : r.Db) (domain : Text) (j : Text)
      → IsHeld (stored r db domain (codes "true")) j
      → (normalize_name domain ≡ j) ⊎ IsHeld db j
  stored-IsHeld_only db domain j h =
      elim (Result-cases (r.put db (normalize_name domain) (codes "true")).1) [
        | inl (u, done) ↦ elim (contents-stored r db domain (codes "true") done j) [
          | inl (same, _) ↦ inl same
          | inr (_, kept) ↦ inr (λ e. h (kept ∙ e))
        ]
        | inr (e, failed) ↦
            inr (λ g. h (r.put_err db (normalize_name domain) (codes "true") e failed j ∙ g))
      ]

  stored-IsHeld :
      (db : r.Db) (domain : Text) (j : Text)
      → IsWritable
      → (normalize_name domain ≡ j) ⊎ IsHeld db j
      → IsHeld (stored r db domain (codes "true")) j
  stored-IsHeld db domain j w h =
      elim (contents-stored r db domain (codes "true") (w db (normalize_name domain) (codes "true"))
        j) [
          | inl (same, is) ↦ λ e. cc
          | inr (other, kept) ↦ elim h [
            | inl same ↦ absurd (other same)
            | inr before ↦ λ e. before (sym kept ∙ e)
          ]
        ]

  -- The database after a list.
  unfoldable pub after_all : r.Db → List Domain → r.Db
  after_all db [] = db
  after_all db (d ∷ ds) = after_all (stored r db d.text (codes "true")) ds

  put_all-opened :
      (db : r.Db) (ds : List Domain)
      → put_all crates io finishes r (opened r db) ds ≡ opened r (after_all db ds)
  unfolding put_all put after_all
  put_all-opened db [] = refl
  put_all-opened db (d ∷ ds) = put_all-opened (stored r db d.text (codes "true")) ds

  after_all-IsHeld_only :
      (db : r.Db) (ds : List Domain) (j : Text)
      → IsHeld (after_all db ds) j
      → Among j ds ⊎ IsHeld db j
  unfolding after_all
  after_all-IsHeld_only db [] j h = inr h
  after_all-IsHeld_only db (d ∷ ds) j h =
      elim (after_all-IsHeld_only (stored r db d.text (codes "true")) ds j h) [
        | inl later ↦ inl (inr later)
        | inr now ↦ elim (stored-IsHeld_only db d.text j now) [
          | inl this ↦ inl (inl this)
          | inr before ↦ inr before
        ]
      ]

  after_all-IsHeld :
      (db : r.Db) (ds : List Domain) (j : Text)
      → IsWritable
      → Among j ds ⊎ IsHeld db j
      → IsHeld (after_all db ds) j
  unfolding after_all
  after_all-IsHeld db [] j w (inl x) = elim x [ ]
  after_all-IsHeld db [] j w (inr h) = h
  after_all-IsHeld db (d ∷ ds) j w (inl (inl this)) =
      after_all-IsHeld (stored r db d.text (codes "true")) ds j w
        (inr (stored-IsHeld db d.text j w (inl this)))
  after_all-IsHeld db (d ∷ ds) j w (inl (inr later)) =
      after_all-IsHeld (stored r db d.text (codes "true")) ds j w (inl later)
  after_all-IsHeld db (d ∷ ds) j w (inr before) =
      after_all-IsHeld (stored r db d.text (codes "true")) ds j w
        (inr (stored-IsHeld db d.text j w (inr before)))

  -- The database after some lists.
  unfoldable pub after_lists : r.Db → List (List Domain) → r.Db
  after_lists db [] = db
  after_lists db (ds ∷ dss) = after_lists (after_all db ds) dss

  pub put_lists-opened :
      (db : r.Db) (dss : List (List Domain))
      → put_lists crates io finishes r (opened r db) dss ≡ opened r (after_lists db dss)
  unfolding put_lists after_lists
  put_lists-opened db [] = refl
  put_lists-opened db (ds ∷ dss) =
      ap (λ s. put_lists crates io finishes r s dss) (put_all-opened db ds)
      ∙ put_lists-opened (after_all db ds) dss

  -- Whatever the writes do, the stores hold after the lists only keys of the lists and what they held.
  pub after_lists-IsHeld_only :
      (db : r.Db) (dss : List (List Domain)) (j : Text)
      → IsHeld (after_lists db dss) j
      → Any (Among j) dss ⊎ IsHeld db j
  unfolding after_lists
  after_lists-IsHeld_only db [] j h = inr h
  after_lists-IsHeld_only db (ds ∷ dss) j h =
      elim (after_lists-IsHeld_only (after_all db ds) dss j h) [
        | inl later ↦ inl (inr later)
        | inr now ↦ elim (after_all-IsHeld_only db ds j now) [
          | inl this ↦ inl (inl this)
          | inr before ↦ inr before
        ]
      ]

  pub after_lists-IsHeld :
      (db : r.Db) (dss : List (List Domain)) (j : Text)
      → IsWritable
      → Any (Among j) dss ⊎ IsHeld db j
      → IsHeld (after_lists db dss) j
  unfolding after_lists
  after_lists-IsHeld db [] j w (inl x) = elim x [ ]
  after_lists-IsHeld db [] j w (inr h) = h
  after_lists-IsHeld db (ds ∷ dss) j w (inl (inl this)) =
      after_lists-IsHeld (after_all db ds) dss j w (inr (after_all-IsHeld db ds j w (inl this)))
  after_lists-IsHeld db (ds ∷ dss) j w (inl (inr later)) =
      after_lists-IsHeld (after_all db ds) dss j w (inl later)
  after_lists-IsHeld db (ds ∷ dss) j w (inr before) =
      after_lists-IsHeld (after_all db ds) dss j w (inr (after_all-IsHeld db ds j w (inr before)))
