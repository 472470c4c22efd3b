-- ===== src/Compiler/Sample.antt =====
-- Toy crates, a toy web on which the text of a URL is the URL, and a store in memory.
use bancuh_dns.Prelude.{
  ◌≡◌, ◌<◌, refl, All, Bool, true, ◌&&◌, Result, ok, err, none, some, [], ◌∷◌, if◌then◌else◌, ltb,
  arith, Bool-cases, inl, inr, subst, ok_injective,
}
use bancuh_dns.Text.{Text, codes, is_empty}
use bancuh_dns.Db.Interface.{Rocks}
use bancuh_dns.Db.Memory.{Memory, lookup, read_ok}
use bancuh_dns.Fetch.{Io}
use bancuh_dns.Parser.{Crates}

abbrev pub is_ascii : Text → Bool
is_ascii [] = true
is_ascii (b ∷ s) = ltb b 0x80 && is_ascii s

is_ascii_sound : (s : Text) → is_ascii s ≡ true → All (λ b. b < 0x80) s
is_ascii_sound [] h = tt
is_ascii_sound (b ∷ s) h = (ground arith, is_ascii_sound s (ground arith))

abbrev pub crates : Crates
crates = record {
  AddrError = Unit {0};
  IdnaError = Unit {0};
  domain_captures = λ s. if is_empty s then none else some (some s);
  host_captures = λ s. none;
  cname_captures = λ s. some (some (codes "bing.example"), some s);
  parse_domain_name = λ s. ok s;
  domain_to_ascii = λ s. if is_ascii s then ok s else err tt;
}

abbrev pub web : Io
web = record {
  Url = Text;
  FilePath = Text;
  Response = Text;
  HttpError = Text;
  IoError = Text;
  send = λ u i. ok u;
  text = λ response. ok response;
  read_to_string = λ path. ok path;
}

pub never_fails :
    (m : Memory) (k v : Text) (e : Unit {0})
    → ◌≡◌ {A = Result (Unit {0}) (Unit {0})} (ok tt) (err e)
    → (j : Text) → lookup ((k, v) ∷ m) j ≡ lookup m j
never_fails m k v e h j = cc

-- The store in memory, with writes that all succeed.
abbrev pub plain : Rocks
plain = record {
  Db = Memory;
  Error = Unit {0};
  get = λ m k. ok (lookup m k);
  put = λ m k v. ((k, v) ∷ m, ok tt);
  contents = lookup;
  get_ok = read_ok;
  put_ok = λ m k v h j. refl;
  put_err = never_fails;
}

abbrev pub finishes : Text → Bool
finishes s = true

-- `idna` returns ASCII.
pub crates_ascii : (s t : Text) → crates.domain_to_ascii s ≡ ok t → All (λ b. b < 0x80) t
crates_ascii s t h = elim (Bool-cases (is_ascii s)) [
  | inl e ↦ subst (All (λ b. b < 0x80)) (ok_injective (rw e at h)) (is_ascii_sound s e)
  | inr e ↦ cc (rw e at h)
]
