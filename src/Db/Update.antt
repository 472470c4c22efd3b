-- ===== src/Db/Update.antt =====
-- How a write changes the answers: `DomainStore::put` and `DomainStore::put_alias` of src/db.rs.
use bancuh_dns.Prelude.{
  ok_of_map_err, ◌≡◌, ◌≢◌, ◌↔◌, ◌⊎◌, refl, sym, ap, ◌∙◌, Bool, true, Option, none, some, [], ◌∷◌,
  ok, Bool-cases, inl, inr, if◌then◌else◌,
}
use bancuh_dns.Text.{Text, codes, same_text, same_text_iff}
use bancuh_dns.Db.{rocks_db, normalize_name, put, put_alias, get, contains}
use bancuh_dns.Db.Interface.{Rocks}
use bancuh_dns.Db.Keys.{Name, IsName, fqdn, wildcard}
use bancuh_dns.Db.Lookup.{
  Pattern, exact, below, key_of, Matches, IsSuffix, answer, longest_wildcard, or_else, IsSound,
  opened, get_refines, contains-true_iff,
}

longest_wildcard_congr :
    (held held' : Text → Option Text) (ls : Name)
    → ((q : Name) → IsSuffix q ls → held (wildcard q) ≡ held' (wildcard q))
    → longest_wildcard held ls ≡ longest_wildcard held' ls
longest_wildcard_congr held held' [] same = refl
longest_wildcard_congr held held' (l ∷ ls) same =
    cc (same (l ∷ ls) (inl refl), longest_wildcard_congr held held' ls (λ q s. same q (inr s)))

-- The answer depends only on the entries that match the name.
pub answer_congr :
    (held held' : Text → Option Text) (ls : Name)
    → ((p : Pattern) → Matches p ls → held (key_of p) ≡ held' (key_of p))
    → answer held ls ≡ answer held' ls
answer_congr held held' [] same = refl
answer_congr held held' (l ∷ ls) same =
    cc (same (exact (l ∷ ls)) refl, longest_wildcard_congr held held' ls (λ q s. same (below q) s))

module _ (r : Rocks) (db : r.Db) where
  -- The database after a write of a value under a domain's key.
  abbrev pub stored : Text → Text → r.Db
  stored domain value = (r.put db (normalize_name domain) value).0

  -- What a successful write leaves under the keys.
  pub contents-stored :
      (domain v : Text)
      → (r.put db (normalize_name domain) v).1 ≡ ok tt
      → (j : Text)
      → ((normalize_name domain ≡ j) × (r.contents (stored domain v) j ≡ some v))
        ⊎ ((normalize_name domain ≢ j) × (r.contents (stored domain v) j ≡ r.contents db j))
  contents-stored domain v done j = elim (Bool-cases (same_text (normalize_name domain) j)) [
    | inl e ↦ inl ((same_text_iff _ j).0 e, written ∙ ap (branch j) e)
    | inr e ↦ inr ((λ p. cc ((same_text_iff _ j).1 p)), written ∙ ap (branch j) e)
  ]
    where
      branch : Text → Bool → Option Text
      branch j b = if b then some v else r.contents db j

      written : r.contents (stored domain v) j ≡ branch j (same_text (normalize_name domain) j)
      written = r.put_ok db (normalize_name domain) v done j

  -- After a `put` that succeeds, `contains` holds of a name exactly where the new domain is an entry
  -- that matches it, or where it held before.
  pub contains-put :
      (domain : Text) (l : Text) (ls : Name)
      → IsSound r db
      → IsSound r (stored domain (codes "true"))
      → IsName (l ∷ ls)
      → (put r (opened r db) domain).1 ≡ ok tt
      → (contains r (put r (opened r db) domain).0 (fqdn (l ∷ ls)) ≡ ok true) ↔ (
          ((p : Pattern) × Matches p (l ∷ ls) × (key_of p ≡ normalize_name domain))
          ⊎ (contains r (opened r db) (fqdn (l ∷ ls)) ≡ ok true))
  unfolding put
  contains-put domain l ls s s' h done = (
    λ c.
        let (p, m, found) = after.0 c in
        elim (written (key_of p)) [
          | inl (same, _) ↦ inl (p, m, sym same)
          | inr (_, kept) ↦ inr (before.1 (p, m, λ e. found (kept ∙ e)))
        ],
    elim [
      | inl (p, m, same) ↦ after.1 (p, m, λ e. present (key_of p) (sym same) e)
      | inr c ↦
          let (p, m, found) = before.0 c in
          after.1 (
            p,
            m,
            λ e. elim (written (key_of p)) [
              | inl (same, _) ↦ present (key_of p) same e
              | inr (_, kept) ↦ found (sym kept ∙ e)
            ],
          )
    ],
  )
    where
      before :
          (contains r (opened r db) (fqdn (l ∷ ls)) ≡ ok true)
          ↔ ((p : Pattern) × Matches p (l ∷ ls) × (r.contents db (key_of p) ≢ none))
      before = contains-true_iff r db l ls s h

      after : (contains r (opened r (stored domain (codes "true"))) (fqdn (l ∷ ls)) ≡ ok true) ↔ (
          (p : Pattern) × Matches p (l ∷ ls)
          × (r.contents (stored domain (codes "true")) (key_of p) ≢ none))
      after = contains-true_iff r (stored domain (codes "true")) l ls s' h

      written :
          (j : Text)
          → ((normalize_name domain ≡ j)
              × (r.contents (stored domain (codes "true")) j ≡ some (codes "true")))
            ⊎ ((normalize_name domain ≢ j)
                × (r.contents (stored domain (codes "true")) j ≡ r.contents db j))
      written = contents-stored domain (codes "true") (ok_of_map_err rocks_db _ done)

      present :
          (j : Text)
          → normalize_name domain ≡ j
          → r.contents (stored domain (codes "true")) j ≢ none
      present j same e = elim (written j) [ inl (_, is) ↦ cc | inr (other, _) ↦ other same ]

  -- After a `put_alias` that succeeds, the domain is answered by the alias, with its trailing dot.
  pub get-put_alias_self :
      (domain alias : Text) (l : Text) (ls : Name)
      → IsSound r (stored domain (normalize_name alias))
      → IsName (l ∷ ls)
      → normalize_name domain ≡ fqdn (l ∷ ls)
      → (put_alias r (opened r db) domain alias).1 ≡ ok tt
      → get r (put_alias r (opened r db) domain alias).0 (fqdn (l ∷ ls))
        ≡ ok (some (normalize_name alias))
  unfolding put_alias
  get-put_alias_self domain alias l ls s' h e done =
      get_refines r (stored domain (normalize_name alias)) (l ∷ ls) s' h (λ p. cc)
      ∙ elim (contents-stored domain (normalize_name alias) (ok_of_map_err rocks_db _ done)
          (fqdn (l ∷ ls))) [
            | inl (_, is) ↦
                ap
                  (λ o. ok (
                    or_else o
                      (longest_wildcard (r.contents (stored domain (normalize_name alias))) ls)))
                  is
            | inr (other, _) ↦ absurd (other e)
          ]

  -- After a put_alias that succeeds, a name that the domain does not match is answered as before.
  pub get-put_alias_ne :
      (domain alias : Text) (l : Text) (ls : Name)
      → IsSound r db
      → IsSound r (stored domain (normalize_name alias))
      → IsName (l ∷ ls)
      → ((p : Pattern) → Matches p (l ∷ ls) → key_of p ≢ normalize_name domain)
      → (put_alias r (opened r db) domain alias).1 ≡ ok tt
      → get r (put_alias r (opened r db) domain alias).0 (fqdn (l ∷ ls))
        ≡ get r (opened r db) (fqdn (l ∷ ls))
  unfolding put_alias
  get-put_alias_ne domain alias l ls s s' h other done =
      get_refines r (stored domain (normalize_name alias)) (l ∷ ls) s' h (λ p. cc)
      ∙ ap ok (
          answer_congr (r.contents (stored domain (normalize_name alias))) (r.contents db) (l ∷ ls)
            same)
      ∙ sym (get_refines r db (l ∷ ls) s h (λ p. cc))
    where
      same :
          (p : Pattern)
          → Matches p (l ∷ ls)
          → r.contents (stored domain (normalize_name alias)) (key_of p) ≡ r.contents db (key_of p)
      same p m =
          elim (contents-stored domain (normalize_name alias) (ok_of_map_err rocks_db _ done)
            (key_of p)) [ inl (e, _) ↦ absurd (other p m (sym e)) | inr (_, kept) ↦ kept ]
