-- ===== src/Db/Keys.antt =====
-- The keys that a lookup tries (`lookup_keys` of src/db.rs), against names as lists of labels.
use native.Mathlib.Numerals.{add-one}
use bancuh_dns.Prelude.{
  ℕ, zero, suc, ◌+◌, ◌≡◌, refl, ap, ap₂, ◌∙◌, inl, inr, true, Bool-cases, false, List, [], ◌∷◌,
  ◌++◌, map, append_assoc, arith, length, drop, All,
}
use bancuh_dns.Text.{Text, codes, is_empty, ends_with, split, join}
use bancuh_dns.Text.Split.{Avoids, split-append}
use bancuh_dns.Db.{normalize_name, parts_of, star_key, star_keys, lookup_keys}

-- A label of a name: some bytes, none of them a dot.
pub record IsLabel (s : Text) : Type 0 where
  pub some_bytes : is_empty s ≡ false
  pub no_dot : Avoids b'.' s

abbrev pub Name : Type 0
Name = List Text

abbrev pub IsName : Name → Type 0
IsName ls = All IsLabel ls

-- The text of a fully qualified name: a dot after each label.
abbrev pub fqdn : Name → Text
fqdn [] = []
fqdn (l ∷ ls) = l ++ b'.' ∷ fqdn ls

-- The text of a wildcard.
abbrev pub wildcard : Name → Text
wildcard ls = codes "*." ++ fqdn ls

-- The suffixes of a name that have a label, the longest first.
abbrev pub suffixes : Name → List Name
suffixes [] = []
suffixes (l ∷ ls) = (l ∷ ls) ∷ suffixes ls

pub parts_of-fqdn : (ls : Name) → IsName ls → parts_of (fqdn ls) ≡ ls
unfolding parts_of split
parts_of-fqdn [] h = refl
parts_of-fqdn (l ∷ ls) (h, hs) =
    rw (split-append b'.' l (fqdn ls) h.no_dot)
      (rw h.some_bytes (ap (λ r. l ∷ r) (parts_of-fqdn ls hs)))

join-fqdn : (l : Text) (ls : Name) → join (codes ".") (l ∷ ls) ++ codes "." ≡ fqdn (l ∷ ls)
unfolding join
join-fqdn l [] = refl
join-fqdn l (m ∷ ls) = append_assoc l _ _ ∙ ap (λ t. l ++ b'.' ∷ t) (join-fqdn m ls)

star_key-fqdn : (l : Text) (ls : Name) → star_key (l ∷ ls) ≡ wildcard (l ∷ ls)
unfolding star_key
star_key-fqdn l ls = ap (λ t. codes "*." ++ t) (join-fqdn l ls)

drop-suc :
    (i : ℕ) (parts : Name) (l : Text) (rest : Name)
    → drop i parts ≡ l ∷ rest
    → drop (suc i) parts ≡ rest
drop-suc zero [] l rest e = cc
drop-suc zero (x ∷ parts) l rest e = cc
drop-suc (suc i) [] l rest e = cc
drop-suc (suc i) (x ∷ parts) l rest e = drop-suc i parts l rest e

-- The loop from index i tries the wildcards of the suffixes from there.
star_keys-suffixes :
    (parts : Name) (n i : ℕ) (rest : Name)
    → drop i parts ≡ rest
    → length rest ≡ n
    → star_keys parts n i ≡ map wildcard (suffixes rest)
unfolding star_keys
star_keys-suffixes parts zero i [] e h = refl
star_keys-suffixes parts zero i (l ∷ rest) e h = absurd (omega arith)
star_keys-suffixes parts (suc n) i [] e h = absurd (omega arith)
star_keys-suffixes parts (suc n) i (l ∷ rest) e h =
    ap₂ ◌∷◌ (ap star_key e ∙ star_key-fqdn l rest) (
      star_keys-suffixes parts n (i + 1) rest (rw add-one (drop-suc i parts l rest e))
        (omega arith))

-- A lookup tries the name itself, then the wildcards of its proper suffixes, the longest first.
pub lookup_keys-fqdn :
    (l : Text) (ls : Name)
    → IsName (l ∷ ls)
    → lookup_keys (fqdn (l ∷ ls)) ≡ fqdn (l ∷ ls) ∷ map wildcard (suffixes ls)
unfolding lookup_keys
lookup_keys-fqdn l ls h =
    ap (λ ks. fqdn (l ∷ ls) ∷ ks)
      (star_keys-suffixes _ _ 1 ls (ap (drop 1) e) (omega (arith, ap length e)))
  where
    e : parts_of (fqdn (l ∷ ls)) ≡ l ∷ ls
    e = parts_of-fqdn (l ∷ ls) h

ends_with-append : (s : Text) (c d : ℕ) (t : Text) → ends_with (s ++ d ∷ t) c ≡ ends_with (d ∷ t) c
ends_with-append [] c d t = refl
ends_with-append (x ∷ []) c d t = refl
ends_with-append (x ∷ y ∷ s) c d t = ends_with-append (y ∷ s) c d t

pub normalize_name_ends : (name : Text) → ends_with (normalize_name name) b'.' ≡ true
unfolding normalize_name
normalize_name_ends name = elim (Bool-cases (ends_with name b'.')) [
  | inl dotted ↦ rw dotted dotted
  | inr bare ↦ rw bare (ends_with-append name b'.' b'.' [])
]

dot_fqdn_ends : (ls : Name) → ends_with (b'.' ∷ fqdn ls) b'.' ≡ true
dot_fqdn_ends [] = refl
dot_fqdn_ends (m ∷ ls) = ends_with-append (b'.' ∷ m) b'.' b'.' (fqdn ls) ∙ dot_fqdn_ends ls

fqdn_ends : (l : Text) (ls : Name) → ends_with (fqdn (l ∷ ls)) b'.' ≡ true
fqdn_ends l ls = ends_with-append l b'.' b'.' (fqdn ls) ∙ dot_fqdn_ends ls

pub wildcard_ends : (l : Text) (ls : Name) → ends_with (wildcard (l ∷ ls)) b'.' ≡ true
wildcard_ends l ls = ends_with-append (codes "*." ++ l) b'.' b'.' (fqdn ls) ∙ dot_fqdn_ends ls

-- A fully qualified name is left as it is.
pub normalize_name-fqdn : (l : Text) (ls : Name) → normalize_name (fqdn (l ∷ ls)) ≡ fqdn (l ∷ ls)
unfolding normalize_name
normalize_name-fqdn l ls = rw (fqdn_ends l ls)

pub normalize_name-wildcard :
    (l : Text) (ls : Name) → normalize_name (wildcard (l ∷ ls)) ≡ wildcard (l ∷ ls)
unfolding normalize_name
normalize_name-wildcard l ls = rw (wildcard_ends l ls)
