-- ===== src/Db/Tests.antt =====
-- The stores of src/db.rs on concrete entries.
use bancuh_dns.Prelude.{
  ◌≡◌, ◌↔◌, ◌⊎◌, ◌≢◌, refl, ap, sym, ◌∙◌, Bool, true, none, some, [], ◌∷◌, arith, ok,
}
use bancuh_dns.Text.{Text, codes}
use bancuh_dns.Text.Utf8.{is_utf8}
use bancuh_dns.Db.{normalize_name, lookup_keys, put, put_alias, get, contains}
use bancuh_dns.Db.Keys.{Name, IsName, fqdn}
use bancuh_dns.Db.Lookup.{
  Pattern, exact, below, key_of, Matches, IsSound, opened, get_refines, contains_iff_Matches,
}
use bancuh_dns.Db.Update.{contains-put, get-put_alias_self, get-put_alias_ne}
use bancuh_dns.Db.Memory.{Memory, memory, memory-IsSound}
use bancuh_dns.Text.{split, join}

abbrev ads : Text
ads = codes "ads"

abbrev example : Text
example = codes "example"

-- a.ads.example.
abbrev banner : Name
banner = codes "a" ∷ ads ∷ example ∷ []

abbrev entries : Memory
entries = (codes "*.ads.example.", codes "true") ∷ []

banner-IsName : IsName banner
banner-IsName = (
  record { some_bytes = refl; no_dot = omega arith },
  (
    record { some_bytes = refl; no_dot = omega arith },
    (record { some_bytes = refl; no_dot = omega arith }, tt),
  ),
)

entries-IsSound : IsSound memory entries
unfolding is_utf8
entries-IsSound = memory-IsSound entries (refl, tt)

banner_keys :
    lookup_keys (codes "a.ads.example.")
    ≡ codes "a.ads.example." ∷ codes "*.ads.example." ∷ codes "*.example." ∷ []
unfolding lookup_keys split join
banner_keys = refl

-- A name that is not fully qualified is looked up as it is, and its own entry is not found.
bare_name :
    get memory (opened memory ((codes "ads.example.", codes "true") ∷ [])) (codes "ads.example")
    ≡ ok none
unfolding get split join
bare_name = refl

get_refines_example : get memory (opened memory entries) (fqdn banner) ≡ ok (some (codes "true"))
get_refines_example = get_refines memory entries banner entries-IsSound banner-IsName (λ e. cc)

contains_iff_Matches_example :
    (b : Bool) × (contains memory (opened memory entries) (fqdn banner) ≡ ok b)
    × ((b ≡ true)
        ↔ ((p : Pattern) × Matches p banner × (memory.contents entries (key_of p) ≢ none)))
contains_iff_Matches_example =
    contains_iff_Matches memory entries (codes "a") (ads ∷ example ∷ []) entries-IsSound
      banner-IsName

contains-put_example :
    (contains memory (put memory (opened memory []) (codes "*.ads.example")).0 (fqdn banner)
      ≡ ok true)
    ↔ (((p : Pattern) × Matches p banner × (key_of p ≡ normalize_name (codes "*.ads.example")))
        ⊎ (contains memory (opened memory []) (fqdn banner) ≡ ok true))
unfolding put normalize_name is_utf8
contains-put_example =
    contains-put memory [] (codes "*.ads.example") (codes "a") (ads ∷ example ∷ [])
      (memory-IsSound [] tt) (memory-IsSound entries (refl, tt)) banner-IsName refl

get-put_alias_self_example :
    get memory
      (put_alias memory (opened memory entries) (codes "a.ads.example") (codes "b.example")).0
      (fqdn banner)
    ≡ ok (some (normalize_name (codes "b.example")))
unfolding put_alias normalize_name is_utf8
get-put_alias_self_example =
    get-put_alias_self memory entries (codes "a.ads.example") (codes "b.example") (codes "a")
      (ads ∷ example ∷ []) (memory-IsSound _ (refl, (refl, tt))) banner-IsName refl refl

other_key : (p : Pattern) → Matches p banner → key_of p ≢ normalize_name (codes "b.example")
unfolding normalize_name
other_key (exact q) m e = differ (ap fqdn m)
  where
    differ : fqdn q ≡ fqdn banner → ⊥
    differ same = ground (arith, sym same ∙ e)
other_key (below q) m e = ground arith

get-put_alias_ne_example :
    get memory
      (put_alias memory (opened memory entries) (codes "b.example") (codes "c.example")).0
      (fqdn banner)
    ≡ get memory (opened memory entries) (fqdn banner)
unfolding put_alias normalize_name is_utf8
get-put_alias_ne_example =
    get-put_alias_ne memory entries (codes "b.example") (codes "c.example") (codes "a")
      (ads ∷ example ∷ []) entries-IsSound (memory-IsSound _ (refl, (refl, tt))) banner-IsName
      other_key refl
