-- ===== src/Engine/Update/Tests.antt =====
-- An update of a toy engine: the first configuration names a list, the second has none.
use bancuh_dns.Prelude.{
  ◌≡◌, ◌↔◌, false, ◌||◌, sym, ◌∙◌, Bool-cases, inl, inr, arith, refl, Bool, true, ok, some, [], ◌∷◌,
}
use bancuh_dns.Text.{Text, codes, same_text, same_text_iff, same_text_sound}
use bancuh_dns.Db.{DomainStore}
use bancuh_dns.Db.Lifetime.{Disk, create, create_store, store_path}
use bancuh_dns.Db.Directories.{IsDisk, at_db, drawn}
use bancuh_dns.Db.Rooted.{rooted, floppy, floppy-IsDisk}
use bancuh_dns.Engine.Update.Directories.{IsNew, HasStores, run_update-HasStores}
use bancuh_dns.Db.Memory.{Memory}
use bancuh_dns.Compiler.Sample.{crates, web, plain, finishes}
use bancuh_dns.Engine.Update.Answers.{run_update-serves}
use bancuh_dns.Fetch.{fetch}
use bancuh_dns.Config.{url, Config, yaml_error, to_fetch, load, try_from_raw_source}
use bancuh_dns.Compiler.{from_config, compile}
use bancuh_dns.Compiler.Effect.{Fresh, fresh_db, ListedIn, black_lists, white_lists, rewrite_lists}
use bancuh_dns.Compiler.Precedence.{last_alias_of_lists}
use bancuh_dns.Db.Keys.{fqdn}
use bancuh_dns.Db.Lookup.{answer}
use bancuh_dns.Engine.Sample.{ads, x_ads-IsName}
use bancuh_dns.Engine.{is_blocked, get_redirect}
use bancuh_dns.Engine.{load_config_error}
use bancuh_dns.Engine.Update.Sample.{place, disk, draws, engine, Errors, opens_empty, reliable}
use bancuh_dns.Engine.Update.{AdblockEngine, new_db, run_update}
use bancuh_dns.Engine.Update.Swap.{run_update-err, run_update-ok}

unreadable_kept : (run_update place crates finishes plain disk draws (engine []) []).0 ≡ engine []
unfolding run_update load fetch to_fetch create
unreadable_kept =
    run_update-err place crates finishes plain disk draws (engine []) []
      (load_config_error (yaml_error [])) refl

run_update-ok_example :
    (config : Config web) × (f : Fresh crates web finishes plain Errors) × (load place
        (url (codes "bad.example"))
      ≡ ok config)
    × ((run_update place crates finishes plain disk draws (engine (codes "bad.example")) []).0
        ≡ record {
          db =
              compile crates web finishes plain
                (from_config config)
                (fresh_db crates web finishes plain Errors f);
          config_url = url (codes "bad.example");
        })
unfolding run_update load fetch to_fetch create try_from_raw_source
run_update-ok_example =
    run_update-ok place crates finishes plain disk opens_empty draws (engine (codes "bad.example"))
      [] refl

abbrev updated : AdblockEngine web Memory
updated = (run_update place crates finishes plain disk draws (engine (codes "*.ads.example")) []).0

run_update-serves_example :
    (config : Config web) × (b : Bool) × (load place (url (codes "*.ads.example")) ≡ ok config)
    × (is_blocked plain Errors updated.db (fqdn (codes "x" ∷ ads)) ≡ ok b)
    × ((b ≡ true) ↔ (
        ListedIn crates web finishes plain Errors
          (black_lists crates web finishes plain Errors (from_config config))
          (codes "x" ∷ ads)
        × ¬ ListedIn crates web finishes plain Errors
            (white_lists crates web finishes plain Errors (from_config config))
            (codes "x" ∷ ads)))
    × (get_redirect plain Errors updated.db (fqdn (codes "x" ∷ ads))
        ≡ ok (
            answer
              (last_alias_of_lists
                (rewrite_lists crates web finishes plain Errors (from_config config)))
              (codes "x" ∷ ads)))
unfolding run_update load fetch to_fetch create try_from_raw_source
run_update-serves_example =
    run_update-serves place crates finishes plain disk draws (engine (codes "*.ads.example")) []
      (codes "x") ads reliable x_ads-IsName refl

-- An update on a disk with directories, where the third store that it draws cannot be opened.
abbrev store : Text → DomainStore (Text × Memory)
store path = record { db = some (path, []) }

abbrev old_path : Text
old_path = codes "./bancuh_db/db-old"

abbrev old_engine : AdblockEngine web (Text × Memory)
old_engine = record {
  db = record { blacklist = store old_path; whitelist = store old_path; rewrites = store old_path };
  config_url = url (codes "*.ads.example");
}

abbrev bad_disk : Disk rooted
bad_disk = floppy (codes "./bancuh_db/db-c")

abbrev bad_disk-IsDisk : IsDisk bad_disk
bad_disk-IsDisk = floppy-IsDisk (codes "./bancuh_db/db-c")

abbrev before : Text → Bool
before q = at_db bad_disk old_engine.db q || same_text (codes "./bancuh_db/db-left") q

other_text :
    (p p' q : Text) → same_text p p' ≡ false → same_text p q ≡ true → same_text p' q ≡ false
other_text p p' q apart same = elim (Bool-cases (same_text p' q)) [
  | inr e ↦ e
  | inl e ↦
      cc ((same_text_iff p p').1 (same_text_sound p q same ∙ sym (same_text_sound p' q e)), apart)
]

draws-IsNew : IsNew bad_disk place crates finishes bad_disk-IsDisk draws old_engine
unfolding store_path
draws-IsNew q h = ground (
  arith,
  other_text (codes "./bancuh_db/db-a") old_path q refl,
  other_text (codes "./bancuh_db/db-b") old_path q refl,
  other_text (codes "./bancuh_db/db-c") old_path q refl,
)

before-HasStores : HasStores bad_disk place crates finishes bad_disk-IsDisk (old_engine, before)
before-HasStores q mine = rw mine refl

abbrev after : AdblockEngine web (Text × Memory) × (Text → Bool)
after =
    let o = run_update place crates finishes rooted bad_disk draws old_engine before in (o.0, o.1)

third_fails : after.0 ≡ old_engine
unfolding run_update new_db create create_store
third_fails = refl

run_update-HasStores_example :
    HasStores bad_disk place crates finishes bad_disk-IsDisk after
    × ((q : Text)
        → drawn bad_disk bad_disk-IsDisk draws q ≡ false
        → at_db bad_disk old_engine.db q ≡ false
        → after.1 q ≡ before q)
run_update-HasStores_example =
    run_update-HasStores bad_disk place crates finishes bad_disk-IsDisk draws old_engine before
      draws-IsNew before-HasStores
