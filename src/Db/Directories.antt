-- ===== src/Db/Directories.antt =====
-- The directories of the stores of src/db.rs: which are on the disk after a creation, a drop or a write.
use bancuh_dns.Prelude.{
  ◌≡◌, subst, refl, ap, ◌∙◌, Bool, true, false, ◌||◌, some, none, Result, ok_injective, ok, err,
  inl, inr, arith, Option-cases,
}
use bancuh_dns.Text.{Text, same_text}
use bancuh_dns.Serve.{serve_cases}
use bancuh_dns.Db.{AdblockDb, DomainStore, DbError, put, put_alias}
use bancuh_dns.Db.Interface.{Rocks}
use bancuh_dns.Db.Lifetime.{Disk, store_path, create_store, drop_store, drop_db, create}

module _ {r : Rocks} (disk : Disk r) where
  open disk use {World, present}

  -- What the disk promises: a store that is opened has its directory. An opening, also one that fails, and
  -- a destruction, whether or not it succeeds, change no directory but their own. A write does not move
  -- a store.
  pub record IsDisk : Type 0 where
    pub open_ok :
        (path : Text) (w : World) {w' : World} {db : r.Db}
        → disk.open_default path w ≡ (w', ok db)
        → (disk.path db ≡ path) × ((q : Text) → same_text path q ≡ true → present w' q ≡ true)
    pub open_other :
        (path : Text) (w : World) (q : Text)
        → same_text path q ≡ false
        → present (disk.open_default path w).0 q ≡ present w q
    pub destroy_other :
        (db : r.Db) (w : World) (q : Text)
        → same_text (disk.path db) q ≡ false
        → present (disk.destroy db w) q ≡ present w q
    pub put_path : (db : r.Db) (k v : Text) → disk.path (r.put db k v).0 ≡ disk.path db

  -- The directories of a store, and of the three.
  abbrev pub at_store : DomainStore r.Db → Text → Bool
  at_store s q = elim s.db [ none ↦ false | some db ↦ same_text (disk.path db) q ]

  abbrev pub at_db : AdblockDb r.Db → Text → Bool
  at_db db q = at_store db.blacklist q || (at_store db.whitelist q || at_store db.rewrites q)

  module _ (d : IsDisk) where
    drop_store-other :
        (s : DomainStore r.Db) (w : World) (q : Text)
        → at_store s q ≡ false
        → present (drop_store disk s w) q ≡ present w q
    unfolding drop_store
    drop_store-other s w q other = elim (Option-cases s.db) [
      | inl e ↦ rw (drop_store, e) refl
      | inr (db, e) ↦ rw (drop_store, e) (d.destroy_other db w q (rw e at other))
    ]

    pub drop_db-other :
        (db : AdblockDb r.Db) (w : World) (q : Text)
        → at_db db q ≡ false
        → present (drop_db disk db w) q ≡ present w q
    unfolding drop_db
    drop_db-other db w q other =
        drop_store-other db.rewrites (drop_store disk db.whitelist (drop_store disk db.blacklist w))
          q (ground arith)
        ∙ drop_store-other db.whitelist (drop_store disk db.blacklist w) q (ground arith)
        ∙ drop_store-other db.blacklist w q (ground arith)

    -- A creation changes no directory but its own, and one that succeeds has made it.
    create_store-ok :
        (random : Text) (w : World) {w' : World} {s : DomainStore r.Db}
        → create_store disk random w ≡ (w', ok s)
        → (q : Text)
        → (at_store s q ≡ same_text (store_path random) q)
          × (same_text (store_path random) q ≡ true → present w' q ≡ true)
    unfolding create_store
    create_store-ok random w {w'} {s} h q =
        elim (serve_cases (disk.open_default (store_path random)) w) [
          | inr (w1, e, failed) ↦ cc (rw (create_store, failed) at h)
          | inl (w1, db, opened) ↦
              let (there, made) = d.open_ok (store_path random) w opened in
              let same : record { db = some db } ≡ s =
                ok_injective (ap (λ o. o.1) (rw (create_store, opened) at h)) in
              let world : w1 ≡ w' = ap (λ o. o.0) (rw (create_store, opened) at h) in
              rw (← same, ← world, there) (refl, made q)
        ]

    create_store-other :
        (random : Text) (w : World) {w' : World} {res : Result (DbError r.Error) (DomainStore r.Db)}
        → create_store disk random w ≡ (w', res)
        → (q : Text) → same_text (store_path random) q ≡ false
        → present w' q ≡ present w q
    unfolding create_store
    create_store-other random w {w'} h q other =
        elim (serve_cases (disk.open_default (store_path random)) w) [
          | inl (w1, db, opened) ↦
              let world : w1 ≡ w' = ap (λ o. o.0) (rw (create_store, opened) at h) in
              rw (← world) (
                subst (λ o. present o.0 q ≡ present w q) opened
                  (d.open_other (store_path random) w q other))
          | inr (w1, e, failed) ↦
              let world : w1 ≡ w' = ap (λ o. o.0) (rw (create_store, failed) at h) in
              rw (← world) (
                subst (λ o. present o.0 q ≡ present w q) failed
                  (d.open_other (store_path random) w q other))
        ]

    -- The directories that an update draws.
    abbrev pub drawn : Text × Text × Text → Text → Bool
    drawn random q =
        same_text (store_path random.0) q
        || (same_text (store_path random.1) q || same_text (store_path random.2) q)

    -- What an attempt to make stores does: they are at the directories that were drawn, which are there,
    -- or there are none; and no other directory changes.
    abbrev pub Makes :
        {E : Type 0} → Text × Text × Text → World → World × Result E (AdblockDb r.Db) → Type 0
    Makes random w (w', ok db) =
        (q : Text)
        → (at_db db q ≡ drawn random q)
          × (drawn random q ≡ true → present w' q ≡ true)
          × (drawn random q ≡ false → present w' q ≡ present w q)
    Makes random w (w', err e) = (q : Text) → drawn random q ≡ false → present w' q ≡ present w q

    pub create-Makes :
        (random : Text × Text × Text) (w : World) → Makes random w (create disk random w)
    unfolding create
    create-Makes random w = elim (serve_cases (create_store disk random.0) w) [
      | inr (w1, e, failed) ↦
          rw (create, failed) (λ q other. create_store-other random.0 w failed q (ground arith))
      | inl (w1, b, made_b) ↦ elim (serve_cases (create_store disk random.1) w1) [
        | inr (w2, e, failed) ↦
            rw (create, made_b, failed)
              (λ q other.
                let (at_b, there_b) = create_store-ok random.0 w made_b q in
                let same_b = create_store-other random.0 w made_b q in
                let same_w = create_store-other random.1 w1 failed q in
                let dropped = drop_store-other b w2 q in ground arith)
        | inl (w2, wh, made_w) ↦ elim (serve_cases (create_store disk random.2) w2) [
          | inr (w3, e, failed) ↦
              rw (create, made_b, made_w, failed)
                (λ q other.
                  let (at_b, there_b) = create_store-ok random.0 w made_b q in
                  let (at_w, there_w) = create_store-ok random.1 w1 made_w q in
                  let same_b = create_store-other random.0 w made_b q in
                  let same_w = create_store-other random.1 w1 made_w q in
                  let same_o = create_store-other random.2 w2 failed q in
                  let dropped_w = drop_store-other wh w3 q in
                  let dropped_b = drop_store-other b (drop_store disk wh w3) q in ground arith)
          | inl (w3, o, made_o) ↦
              rw (create, made_b, made_w, made_o)
                (λ q.
                  let (at_b, there_b) = create_store-ok random.0 w made_b q in
                  let (at_w, there_w) = create_store-ok random.1 w1 made_w q in
                  let (at_o, there_o) = create_store-ok random.2 w2 made_o q in
                  let same_b = create_store-other random.0 w made_b q in
                  let same_w = create_store-other random.1 w1 made_w q in
                  let same_o = create_store-other random.2 w2 made_o q in
                  (ground arith, ground arith, ground arith))
        ]
      ]
    ]

    pub put-at_store :
        (s : DomainStore r.Db) (domain q : Text) → at_store (put r s domain).0 q ≡ at_store s q
    unfolding put
    put-at_store s domain q = elim (Option-cases s.db) [
      | inl e ↦ rw (put, e) (rw e refl)
      | inr (db, e) ↦ rw (put, e, d.put_path) refl
    ]

    pub put_alias-at_store :
        (s : DomainStore r.Db) (domain alias q : Text)
        → at_store (put_alias r s domain alias).0 q ≡ at_store s q
    unfolding put_alias
    put_alias-at_store s domain alias q = elim (Option-cases s.db) [
      | inl e ↦ rw (put_alias, e) (rw e refl)
      | inr (db, e) ↦ rw (put_alias, e, d.put_path) refl
    ]
