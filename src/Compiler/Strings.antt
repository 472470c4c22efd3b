-- ===== src/Compiler/Strings.antt =====
-- The values that src/compiler/mod.rs writes are strings, so that every later `get` of src/db.rs can
-- read them back.
use bancuh_dns.Prelude.{
  ◌≡◌, refl, ap, subst, Option, some, Option-cases, List, [], ◌∷◌, map, All, filter_map, Bool,
  Bool-cases, Result-cases, ok, inl, inr, ◌<◌, and_then, and_then-some, both-some, map_option,
}
use mathlib.Core.Option.{some_inj}
use bancuh_dns.Text.{Text, codes, ends_with, same_text}
use bancuh_dns.Text.Trim.{trim, lines}
use bancuh_dns.Text.Utf8.{IsUtf8, is_utf8, IsUtf8-append, IsUtf8-ascii}
use bancuh_dns.Db.{normalize_name}
use bancuh_dns.Db.Interface.{Rocks}
use bancuh_dns.Db.Update.{stored}
use bancuh_dns.Fetch.{Io, fetch}
use bancuh_dns.Config.{FileOrUrl, to_fetch}
use bancuh_dns.Parser.{Crates, Domain, CName, checked_name, parse_domain, parse_cname}
use bancuh_dns.Compiler.{ListCompiler, ParseRewrite, parse_rewrite, load_list, load_rewrites}
use bancuh_dns.Compiler.Held.{after_all, after_lists}
use bancuh_dns.Compiler.Precedence.{after_aliases, after_alias_lists}

normalize_name-IsUtf8 : (s : Text) → IsUtf8 s → IsUtf8 (normalize_name s)
unfolding normalize_name is_utf8
normalize_name-IsUtf8 s h = elim (Bool-cases (ends_with s b'.')) [
  | inl e ↦ rw (normalize_name, e) h
  | inr e ↦ rw (normalize_name, e) (IsUtf8-append s (codes ".") h refl)
]

filter_map-All {ℓ κ} :
    {A : Type ℓ} {B : Type κ} (P : B → Type 0) (f : A → Option B)
    → ((a : A) (b : B) → f a ≡ some b → P b)
    → (xs : List A) → All P (filter_map f xs)
filter_map-All P f holds [] = tt
filter_map-All P f holds (a ∷ xs) = elim (Option-cases (f a)) [
  | inl e ↦ rw (All, e) (filter_map-All P f holds xs)
  | inr (b, e) ↦ rw (All, e) (holds a b e, filter_map-All P f holds xs)
]

module _ (crates : Crates)
    (ascii : (s t : Text) → crates.domain_to_ascii s ≡ ok t → All (λ b. b < 0x80) t) where
  parse_domain-IsUtf8 :
      (value : Text) (d : Domain) → parse_domain crates value ≡ some d → IsUtf8 d.text
  unfolding parse_domain
  parse_domain-IsUtf8 value d h =
      elim (Option-cases (
        map_option trim (
          and_then (and_then (crates.domain_captures value) (λ cap. cap)) (checked_name crates)))) [
            | inl e ↦ cc (rw (parse_domain, e) at h)
            | inr (name, e) ↦ elim (Result-cases (crates.domain_to_ascii name)) [
              | inr (x, failed) ↦ cc (rw (parse_domain, e, failed) at h)
              | inl (t, found) ↦
                  let same : record { text = t } ≡ d =
                    some_inj.0 (rw (parse_domain, e, found) at h) in
                  subst IsUtf8 (ap (λ d. d.text) same) (IsUtf8-ascii t (ascii name t found))
            ]
          ]

  parse_cname-IsUtf8 :
      (value : Text) (c : CName) → parse_cname crates value ≡ some c → IsUtf8 c.alias.text
  unfolding parse_cname
  parse_cname-IsUtf8 value c h =
      let (captures, _, h') = and_then-some (crates.cname_captures value) _ h in
      let (domain, alias, _, _, h'') = both-some captures.0 captures.1 _ h' in
      let (d, a, _, parsed, made) =
        both-some (parse_domain crates (trim domain)) (parse_domain crates (trim alias)) _ h'' in
      subst IsUtf8 (ap (λ c. c.alias.text) (some_inj.0 made))
        (parse_domain-IsUtf8 (trim alias) a parsed)

  module _ (io : Io) (finishes : Text → Bool) where
    load_list-All :
        {A : Type 0} (P : A → Type 0) (parse : Text → Option A) (source : FileOrUrl io)
        → ((l : Text) (a : A) → parse l ≡ some a → P a)
        → All P (load_list crates io finishes parse source)
    unfolding load_list
    load_list-All P parse source holds = elim (Result-cases (fetch io (to_fetch io source))) [
      | inr (e, failed) ↦ rw (load_list, failed) tt
      | inl (s, found) ↦ elim (Bool-cases (finishes s)) [
        | inl e ↦ rw (load_list, found, e) (filter_map-All P parse holds (lines s))
        | inr e ↦ rw (load_list, found, e) tt
      ]
    ]

    parse_rewrite-IsUtf8 :
        (p : ParseRewrite) (l : Text) (c : CName)
        → parse_rewrite crates p l ≡ some c
        → IsUtf8 c.alias.text
    unfolding parse_rewrite
    parse_rewrite-IsUtf8 ParseRewrite.cname l c h = parse_cname-IsUtf8 l c h

    load_rewrites-All :
        (c : ListCompiler io ParseRewrite)
        → All (λ c. IsUtf8 c.alias.text) (load_rewrites crates io finishes c)
    unfolding load_rewrites
    load_rewrites-All c =
        load_list-All (λ c. IsUtf8 c.alias.text) (parse_rewrite crates c.parser) c.source
          (parse_rewrite-IsUtf8 c.parser)

    rewrites_loaded :
        (cs : List (ListCompiler io ParseRewrite))
        → All
            (λ css. All (λ c. IsUtf8 c.alias.text) css)
            (map (load_rewrites crates io finishes) cs)
    rewrites_loaded [] = tt
    rewrites_loaded (c ∷ cs) = (load_rewrites-All c, rewrites_loaded cs)

    module _ (r : Rocks) where
      -- Every value of a database is a string.
      abbrev pub HoldsStrings : r.Db → Type 0
      HoldsStrings db = (k v : Text) → r.contents db k ≡ some v → IsUtf8 v

      stored-HoldsStrings :
          (db : r.Db) (domain value : Text)
          → IsUtf8 value
          → HoldsStrings db
          → HoldsStrings (stored r db domain value)
      stored-HoldsStrings db domain value s h k v found =
          elim (Result-cases (r.put db (normalize_name domain) value).1) [
            | inl (u, done) ↦
                let e = r.put_ok db (normalize_name domain) value done k in
                elim (Bool-cases (same_text (normalize_name domain) k)) [
                  | inl here ↦ subst IsUtf8 (some_inj.0 (rw (e, here) at found)) s
                  | inr other ↦ h k v (rw (e, other) at found)
                ]
            | inr (x, failed) ↦
                h k v (rw (r.put_err db (normalize_name domain) value x failed k) at found)
          ]

      after_all-HoldsStrings :
          (db : r.Db) (ds : List Domain)
          → HoldsStrings db
          → HoldsStrings (after_all crates io finishes r db ds)
      unfolding after_all is_utf8
      after_all-HoldsStrings db [] h = h
      after_all-HoldsStrings db (d ∷ ds) h =
          after_all-HoldsStrings (stored r db d.text (codes "true")) ds
            (stored-HoldsStrings db d.text (codes "true") refl h)

      pub after_lists-HoldsStrings :
          (db : r.Db) (dss : List (List Domain))
          → HoldsStrings db
          → HoldsStrings (after_lists crates io finishes r db dss)
      unfolding after_lists
      after_lists-HoldsStrings db [] h = h
      after_lists-HoldsStrings db (ds ∷ dss) h =
          after_lists-HoldsStrings (after_all crates io finishes r db ds) dss
            (after_all-HoldsStrings db ds h)

      after_aliases-HoldsStrings :
          (db : r.Db) (cs : List CName)
          → All (λ c. IsUtf8 c.alias.text) cs
          → HoldsStrings db
          → HoldsStrings (after_aliases crates io finishes r db cs)
      unfolding after_aliases
      after_aliases-HoldsStrings db [] s h = h
      after_aliases-HoldsStrings db (c ∷ cs) s h =
          after_aliases-HoldsStrings (stored r db c.domain.text (normalize_name c.alias.text)) cs
            s.1
            (stored-HoldsStrings db c.domain.text (normalize_name c.alias.text)
              (normalize_name-IsUtf8 c.alias.text s.0) h)

      after_alias_lists-HoldsStrings :
          (db : r.Db) (css : List (List CName))
          → All (λ cs. All (λ c. IsUtf8 c.alias.text) cs) css
          → HoldsStrings db
          → HoldsStrings (after_alias_lists crates io finishes r db css)
      unfolding after_alias_lists
      after_alias_lists-HoldsStrings db [] s h = h
      after_alias_lists-HoldsStrings db (cs ∷ css) s h =
          after_alias_lists-HoldsStrings (after_aliases crates io finishes r db cs) css s.1
            (after_aliases-HoldsStrings db cs s.0 h)

      pub rewrites-HoldsStrings :
          (db : r.Db) (cs : List (ListCompiler io ParseRewrite))
          → HoldsStrings db
          → HoldsStrings (
              after_alias_lists crates io finishes r db (map (load_rewrites crates io finishes) cs))
      rewrites-HoldsStrings db cs h =
          after_alias_lists-HoldsStrings db (map (load_rewrites crates io finishes) cs)
            (rewrites_loaded cs) h
