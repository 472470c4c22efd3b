-- ===== src/Service/Steps.antt =====
-- What the steps of Service.antt do to a request in src/handler.rs: nothing, unless it is there and has
-- come so far.
use bancuh_dns.Prelude.{ℕ, ◌≡◌, ◌⊎◌, refl, some, inl, inr, get_elem?, set, remove_at, Option-cases}
use bancuh_dns.Db.{AdblockDb}
use bancuh_dns.Resolver.{Upstream}
use bancuh_dns.Handler.Query.{do_handle_request}
use bancuh_dns.Handler.Server.{Clock, finish}
use bancuh_dns.Service.{
  Setting, Call, Service, Progress-cases, limited, once, twice, settle, asked, load_first,
  load_again, answer,
}

module _ (setting : Setting) where
  open setting use {crates, r, disk, L, h, display_engine_error, Limiter, check_key, checks}

  -- The step that finds a call changes it so.
  abbrev changed : Service setting → ℕ → Call setting → Service setting
  changed v k c = record v { calls = set v.calls k c }

  pub load_first-cases :
      (k : ℕ) (v : Service setting)
      → (load_first setting k v ≡ v)
        ⊎ ((c : Call setting) × (get_elem? v.calls k ≡ some c)
            × (c.progress ≡ limited)
            × (load_first setting k v ≡ changed v k (record c { progress = once v.db })))
  unfolding load_first
  load_first-cases k v = elim (Option-cases (get_elem? v.calls k)) [
    | inl missing ↦ inl (rw (load_first, missing) refl)
    | inr (c, found) ↦ elim (Progress-cases c.progress) [
      | inl p ↦ inr (c, found, p, rw (load_first, found, p) refl)
      | inr (inl (db, p)) ↦ inl (rw (load_first, found, p) refl)
      | inr (inr (db, db', p)) ↦ inl (rw (load_first, found, p) refl)
    ]
  ]

  pub load_again-cases :
      (k : ℕ) (v : Service setting)
      → (load_again setting k v ≡ v)
        ⊎ ((c : Call setting) × (db : AdblockDb r.Db) × (get_elem? v.calls k ≡ some c)
            × (c.progress ≡ once db)
            × (load_again setting k v ≡ changed v k (record c { progress = twice db v.db })))
  unfolding load_again
  load_again-cases k v = elim (Option-cases (get_elem? v.calls k)) [
    | inl missing ↦ inl (rw (load_again, missing) refl)
    | inr (c, found) ↦ elim (Progress-cases c.progress) [
      | inl p ↦ inl (rw (load_again, found, p) refl)
      | inr (inl (db, p)) ↦ inr (c, db, found, p, rw (load_again, found, p) refl)
      | inr (inr (db, db', p)) ↦ inl (rw (load_again, found, p) refl)
    ]
  ]

  -- The answer to a request that has loaded twice.
  pub answer_lem :
      (k : ℕ) (upstream : Upstream h) (clock : Clock) (v : Service setting) {c : Call setting}
      {db db' : AdblockDb r.Db}
      → get_elem? v.calls k ≡ some c
      → c.progress ≡ twice db db'
      → answer setting k upstream clock v
        ≡ settle setting v (asked setting c) (remove_at v.calls k) (
            finish r L h display_engine_error check_key v.server c.src_ip clock c.request
              (do_handle_request r L h display_engine_error db db' upstream c.request c.responder))
  unfolding answer
  answer_lem k upstream clock v found loaded = rw (answer, found, loaded) refl

  pub answer-cases :
      (k : ℕ) (upstream : Upstream h) (clock : Clock) (v : Service setting)
      → (answer setting k upstream clock v ≡ v)
        ⊎ ((c : Call setting) × (db : AdblockDb r.Db) × (db' : AdblockDb r.Db) × (get_elem? v.calls
                k
              ≡ some c)
            × (answer setting k upstream clock v
                ≡ settle setting v (asked setting c) (remove_at v.calls k) (
                    finish r L h display_engine_error check_key v.server c.src_ip clock c.request (
                      do_handle_request r L h display_engine_error db db' upstream c.request
                        c.responder))))
  unfolding answer
  answer-cases k upstream clock v = elim (Option-cases (get_elem? v.calls k)) [
    | inl missing ↦ inl (rw (answer, missing) refl)
    | inr (c, found) ↦ elim (Progress-cases c.progress) [
      | inl p ↦ inl (rw (answer, found, p) refl)
      | inr (inl (db, p)) ↦ inl (rw (answer, found, p) refl)
      | inr (inr (db, db', p)) ↦ inr (c, db, db', found, answer_lem k upstream clock v found p)
    ]
  ]
