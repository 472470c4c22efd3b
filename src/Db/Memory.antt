-- ===== src/Db/Memory.antt =====
-- A store in memory that keeps the promises of `Rocks`, and whose writes of one chosen key fail.
use mathlib.Core.Option.{some_inj}
use bancuh_dns.Prelude.{
  All, Bool-cases, inl, inr, subst, refl, ◌≡◌, Option, none, some, List, [], ◌∷◌, Result, ok, err,
  if◌then◌else◌, arith,
}
use bancuh_dns.Text.{Text, codes, same_text}
use bancuh_dns.Text.Utf8.{IsUtf8}
use bancuh_dns.Db.Interface.{Rocks}
use bancuh_dns.Db.Lookup.{IsSound}

abbrev pub Memory : Type 0
Memory = List (Text × Text)

abbrev pub lookup : Memory → Text → Option Text
lookup [] j = none
lookup ((k, v) ∷ m) j = if same_text k j then some v else lookup m j

-- The key whose writes fail.
abbrev pub broken_key : Text
broken_key = codes "broken.example."

abbrev pub write : Memory → Text → Text → Memory × Result (Unit {0}) (Unit {0})
write m k v = if same_text k broken_key then (m, err tt) else ((k, v) ∷ m, ok tt)

pub write_ok :
    (m : Memory) (k v : Text)
    → (write m k v).1 ≡ ok tt
    → (j : Text) → lookup (write m k v).0 j ≡ (if same_text k j then some v else lookup m j)
write_ok m k v h j = ground arith

pub write_err :
    (m : Memory) (k v : Text) (e : Unit {0})
    → (write m k v).1 ≡ err e
    → (j : Text) → lookup (write m k v).0 j ≡ lookup m j
write_err m k v e h j = ground arith

pub read_ok :
    (m : Memory) (k : Text) (v : Option Text)
    → ◌≡◌ {A = Result (Unit {0}) (Option Text)} (ok (lookup m k)) (ok v)
    → v ≡ lookup m k
read_ok m k v h = cc

abbrev pub memory : Rocks
memory = record {
  Db = Memory;
  Error = Unit {0};
  get = λ m k. ok (lookup m k);
  put = write;
  contents = lookup;
  get_ok = read_ok;
  put_ok = write_ok;
  put_err = write_err;
}

values-IsUtf8 :
    (m : Memory) → All (λ e. IsUtf8 e.1) m → (k v : Text) → lookup m k ≡ some v → IsUtf8 v
values-IsUtf8 [] h k v e = cc
values-IsUtf8 ((j, w) ∷ m) h k v e = elim (Bool-cases (same_text j k)) [
  | inl same ↦ subst IsUtf8 (some_inj.0 (rw same at e)) h.0
  | inr other ↦ values-IsUtf8 m h.1 k v (rw other at e)
]

-- A store in memory is in working order if its values are strings.
pub memory-IsSound : (m : Memory) → All (λ e. IsUtf8 e.1) m → IsSound memory m
memory-IsSound m h = record { readable = λ k. refl; utf8 = values-IsUtf8 m h }
