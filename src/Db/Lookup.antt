-- ===== src/Db/Lookup.antt =====
-- What `DomainStore::get` and `DomainStore::contains` of src/db.rs answer.
use bancuh_dns.Prelude.{
  ◌≡◌, ◌≢◌, ◌↔◌, ◌⊎◌, refl, ap, ◌∙◌, sym, Bool, true, Option, none, some, List, [], ◌∷◌, map, arith,
  ok, map_ok, Option-cases, inl, inr,
}
use bancuh_dns.Text.{Text}
use bancuh_dns.Text.Utf8.{IsUtf8, from_utf8_of_IsUtf8}
use bancuh_dns.Db.{DomainStore, get_first, get, contains, is_some}
use bancuh_dns.Db.Interface.{Rocks, IsReadable}
use bancuh_dns.Db.Keys.{Name, IsName, fqdn, wildcard, suffixes, lookup_keys-fqdn}

-- The first alternative that is there.
abbrev pub or_else : Option Text → Option Text → Option Text
or_else none o = o
or_else (some v) o = some v

-- The entry of the longest wildcard for a suffix of the name.
abbrev pub longest_wildcard : (Text → Option Text) → Name → Option Text
longest_wildcard held [] = none
longest_wildcard held (l ∷ ls) = or_else (held (wildcard (l ∷ ls))) (longest_wildcard held ls)

-- The answer to a name, from what a store holds: its own entry, or else that of the longest wildcard
-- for a proper suffix.
abbrev pub answer : (Text → Option Text) → Name → Option Text
answer held [] = none
answer held (l ∷ ls) = or_else (held (fqdn (l ∷ ls))) (longest_wildcard held ls)

-- An entry of a block list, and the names that it is about: one name, or all names below one.
pub data Pattern : Type 0 where
  exact : Name → Pattern
  below : Name → Pattern

abbrev pub key_of : Pattern → Text
key_of (exact ls) = fqdn ls
key_of (below ls) = wildcard ls

abbrev pub IsSuffix : Name → Name → Type 0
IsSuffix q [] = ⊥
IsSuffix q (l ∷ ls) = (q ≡ l ∷ ls) ⊎ IsSuffix q ls

abbrev pub Matches : Pattern → Name → Type 0
Matches (exact q) ls = q ≡ ls
Matches (below q) [] = ⊥
Matches (below q) (l ∷ ls) = IsSuffix q ls

first_held : (Text → Option Text) → List Text → Option Text
first_held held [] = none
first_held held (k ∷ ks) = or_else (held k) (first_held held ks)

first_held-wildcard :
    (held : Text → Option Text) (ls : Name)
    → first_held held (map wildcard (suffixes ls)) ≡ longest_wildcard held ls
unfolding first_held
first_held-wildcard held [] = refl
first_held-wildcard held (l ∷ ls) =
    ap (or_else (held (wildcard (l ∷ ls)))) (first_held-wildcard held ls)

is_some-ne-none : (o : Option Text) → (is_some o ≡ true) ↔ (o ≢ none)
is_some-ne-none none = (λ h. cc, λ h. absurd (h refl))
is_some-ne-none (some v) = (λ h. λ e. cc, λ h. refl)

module _ (held : Text → Option Text) where
  longest_wildcard-suffix :
      (ls : Name)
      → is_some (longest_wildcard held ls) ≡ true
      → (q : Name) × IsSuffix q ls × (held (wildcard q) ≢ none)
  longest_wildcard-suffix [] h = cc
  longest_wildcard-suffix (l ∷ ls) h = elim (Option-cases (held (wildcard (l ∷ ls)))) [
    | inl e ↦
        let (q, below_l, found) = longest_wildcard-suffix ls (rw e at h) in (q, inr below_l, found)
    | inr (v, e) ↦ (l ∷ ls, inl refl, λ absent. cc)
  ]

  suffix-longest_wildcard :
      (q ls : Name)
      → IsSuffix q ls
      → held (wildcard q) ≢ none
      → is_some (longest_wildcard held ls) ≡ true
  suffix-longest_wildcard q [] s found = elim s [ ]
  suffix-longest_wildcard q (l ∷ ls) (inl e) found = ground (arith, ap wildcard e)
  suffix-longest_wildcard q (l ∷ ls) (inr s) found =
      ground (arith, suffix-longest_wildcard q ls s found)

  -- There is an answer exactly when an entry matches the name.
  pub answer_iff :
      (l : Text) (ls : Name)
      → (is_some (answer held (l ∷ ls)) ≡ true)
        ↔ ((p : Pattern) × Matches p (l ∷ ls) × (held (key_of p) ≢ none))
  answer_iff l ls = (sound, complete)
    where
      sound :
          is_some (answer held (l ∷ ls)) ≡ true
          → (p : Pattern) × Matches p (l ∷ ls) × (held (key_of p) ≢ none)
      sound h = elim (Option-cases (held (fqdn (l ∷ ls)))) [
        | inl e ↦
            let (q, suffix, found) = longest_wildcard-suffix ls (rw e at h) in
            (below q, suffix, found)
        | inr (v, e) ↦ (exact (l ∷ ls), refl, λ absent. cc)
      ]

      complete :
          ((p : Pattern) × Matches p (l ∷ ls) × (held (key_of p) ≢ none))
          → is_some (answer held (l ∷ ls)) ≡ true
      complete (exact q, same, found) = ground (arith, ap fqdn same)
      complete (below q, suffix, found) = ground (arith, suffix-longest_wildcard q ls suffix found)

module _ (r : Rocks) where
  -- A database in working order: reads succeed, and every value is a string.
  pub record IsSound (db : r.Db) : Type 0 where
    pub readable : IsReadable r db
    pub utf8 : (k v : Text) → r.contents db k ≡ some v → IsUtf8 v

  abbrev pub opened : r.Db → DomainStore r.Db
  opened db = record { db = some db }

  get_first_lem :
      (db : r.Db) (keys : List Text)
      → IsSound db
      → get_first r db keys ≡ ok (first_held (r.contents db) keys)
  unfolding get_first first_held
  get_first_lem db [] s = refl
  get_first_lem db (k ∷ keys) s = elim (Option-cases (r.contents db k)) [
    | inl e ↦ rw (s.readable k, e) (get_first_lem db keys s)
    | inr (v, e) ↦ rw (s.readable k, e) (rw (from_utf8_of_IsUtf8 v (s.utf8 k v e)))
  ]

  -- On a store in working order `get` of a fully qualified name returns the name's own entry, or
  -- else the entry of the longest wildcard above it, or nothing.
  pub get_refines :
      (db : r.Db) (ls : Name)
      → IsSound db
      → IsName ls
      → ls ≢ []
      → get r (opened db) (fqdn ls) ≡ ok (answer (r.contents db) ls)
  unfolding get first_held
  get_refines db [] s h n = absurd (n refl)
  get_refines db (l ∷ ls) s h n =
      ap (get_first r db) (lookup_keys-fqdn l ls h)
      ∙ get_first_lem db (fqdn (l ∷ ls) ∷ map wildcard (suffixes ls)) s
      ∙ ap (λ o. ok (or_else (r.contents db (fqdn (l ∷ ls))) o))
          (first_held-wildcard (r.contents db) ls)

  -- On a store in working order `contains` of a fully qualified name returns; it returns true exactly
  -- when the store holds an entry that matches the name: the name itself, or a wildcard for a proper
  -- suffix of it.
  pub contains_iff_Matches :
      (db : r.Db) (l : Text) (ls : Name)
      → IsSound db
      → IsName (l ∷ ls)
      → (b : Bool) × (contains r (opened db) (fqdn (l ∷ ls)) ≡ ok b)
        × ((b ≡ true) ↔ ((p : Pattern) × Matches p (l ∷ ls) × (r.contents db (key_of p) ≢ none)))
  unfolding contains
  contains_iff_Matches db l ls s h = (
    is_some (answer (r.contents db) (l ∷ ls)),
    ap (map_ok is_some) (get_refines db (l ∷ ls) s h (λ e. cc)),
    answer_iff (r.contents db) l ls,
  )

  pub contains-true_iff :
      (db : r.Db) (l : Text) (ls : Name)
      → IsSound db
      → IsName (l ∷ ls)
      → (contains r (opened db) (fqdn (l ∷ ls)) ≡ ok true)
        ↔ ((p : Pattern) × Matches p (l ∷ ls) × (r.contents db (key_of p) ≢ none))
  contains-true_iff db l ls s h =
      let (b, e, rule) = contains_iff_Matches db l ls s h in
      (λ c. rule.0 (cc (sym e ∙ c)), λ found. e ∙ ap ok (rule.1 found))
