-- ===== src/Db/Rooted.antt =====
-- Stores in memory that know their directories, and a disk (src/db.rs) that keeps its promises.
use bancuh_dns.Prelude.{
  ◌≡◌, refl, ap, Bool, not, ◌&&◌, ◌||◌, [], ok_injective, ok, err, Bool-cases, inl, inr,
  if◌then◌else◌,
}
use bancuh_dns.Text.{Text, same_text}
use bancuh_dns.Db.Interface.{Rocks}
use bancuh_dns.Db.Memory.{Memory, lookup, write, write_ok, write_err, read_ok}
use bancuh_dns.Db.Lifetime.{Disk}
use bancuh_dns.Db.Directories.{IsDisk}

abbrev pub rooted : Rocks
rooted = record {
  Db = Text × Memory;
  Error = Unit {0};
  get = λ db k. ok (lookup db.1 k);
  put = λ db k v. let (m, res) = write db.1 k v in ((db.0, m), res);
  contents = λ db. lookup db.1;
  get_ok = λ db. read_ok db.1;
  put_ok = λ db. write_ok db.1;
  put_err = λ db. write_err db.1;
}

-- A disk on which the store at `bad` cannot be opened: its directory is made all the same, and stays.
abbrev pub floppy : Text → Disk rooted
floppy bad = record {
  World = Text → Bool;
  open_default = λ path w.
      (λ q. same_text path q || w q, if same_text bad path then err tt else ok (path, []));
  destroy = λ db w q. not (same_text db.0 q) && w q;
  path = λ db. db.0;
  present = λ w. w;
}

pub floppy-IsDisk : (bad : Text) → IsDisk (floppy bad)
floppy-IsDisk bad = record {
  open_ok = λ path w {w'} {db} h.
      let opened : (if same_text bad path then err tt else ok (path, [])) ≡ ok db =
        ap (λ o. o.1) h in
      elim (Bool-cases (same_text bad path)) [
        | inl e ↦ cc (rw e at opened)
        | inr e ↦
            let same : (path, []) ≡ db = ok_injective (rw e at opened) in
            rw (← ap (λ o. o.0) h, ← same) (refl, λ q there. rw there refl)
      ];
  open_other = λ path w q other. rw other refl;
  destroy_other = λ db w q other. rw other refl;
  put_path = λ db k v. refl;
}
