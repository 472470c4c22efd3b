-- ===== src/Service/Databases.antt =====
-- Which databases the requests in Service.antt see: what holds of the first, and of each that an update
-- of src/engine.rs swaps in, holds of those that every request has loaded.
use bancuh_dns.Prelude.{
  ℕ, ◌≡◌, sym, subst, List, [], ◌∷◌, ok, inl, inr, All, All-get_elem?, All-set, All-remove_at,
  Option-cases, Bool-cases, Result-cases,
}
use bancuh_dns.Text.{Text}
use bancuh_dns.Address.{IpAddr}
use bancuh_dns.Db.{AdblockDb}
use bancuh_dns.Engine.Update.Swap.{run_update-err}
use bancuh_dns.Resolver.{Upstream}
use bancuh_dns.RateLimiter.{mask_ip}
use bancuh_dns.Handler.Server.{Clock, check_limit, normalize_ip}
use bancuh_dns.Service.Steps.{load_first-cases, load_again-cases, answer-cases}
use bancuh_dns.Service.{
  Setting, Sources, Call, Service, Event, updates, arrives, loads_first, loads_again, answers,
  attempt, update, arrive, Progress, limited, once, twice, load_first, load_again, answer, step,
  run,
}

module _ (setting : Setting) where
  open setting use {crates, r, disk, L, h, display_engine_error, Limiter, check_key, checks}
  open h use {Request, Responder, LowerName, RecordType}

  module _ {ℓ} (Q : AdblockDb r.Db → Type ℓ) where
    abbrev pub Loaded : Progress r.Db → Type ℓ
    Loaded limited = Unit
    Loaded (once db) = Q db
    Loaded (twice db db') = Q db × Q db'

    abbrev pub Sees : Call setting → Type ℓ
    Sees c = Loaded c.progress

    abbrev pub Holds : Service setting → Type ℓ
    Holds v = Q v.db × All Sees v.calls

    -- An update that succeeds swaps in a database of which `Q` holds.
    abbrev pub Installs : Event setting → Type ℓ
    Installs (updates s random) =
        (db : AdblockDb r.Db) (w : disk.World)
        → (attempt setting s random db w).2 ≡ ok tt
        → Q (attempt setting s random db w).0.db
    Installs (arrives request src responder) = Unit
    Installs (loads_first k) = Unit
    Installs (loads_again k) = Unit
    Installs (answers k upstream clock) = Unit

    update-Holds :
        (s : Sources) (random : Text × Text × Text) (v : Service setting)
        → Installs (updates s random)
        → Holds v
        → Holds (update setting s random v)
    unfolding update
    update-Holds s random v installs holds =
        elim (Result-cases (attempt setting s random v.db v.world).2) [
          | inl (done, e) ↦ (installs v.db v.world e, holds.1)
          | inr (x, e) ↦ (
            subst (λ g. Q g.db)
                (sym (
                  run_update-err s.at crates s.finishes r disk random
                    (record { db = v.db; config_url = s.config_url }) v.world x e))
                holds.0,
            holds.1,
          )
        ]

    arrive-Holds :
        (request : Request) (src : IpAddr) (responder : Responder) (v : Service setting)
        → Holds v
        → Holds (arrive setting request src responder v)
    unfolding arrive
    arrive-Holds request src responder v holds =
        elim (Option-cases (
          mask_ip checks (normalize_ip src) v.server.rate_limit_ipv4_prefix
            v.server.rate_limit_ipv6_prefix)) [
              | inl panics ↦ rw (arrive, panics) holds
              | inr (key, masked) ↦
                  elim (Bool-cases (check_limit check_key v.server.rate_limiter key).1) [
                    | inl over ↦ rw (arrive, masked, over) holds
                    | inr within ↦ rw (arrive, masked, within) (holds.0, (tt, holds.1))
                  ]
            ]

    load_first-Holds : (k : ℕ) (v : Service setting) → Holds v → Holds (load_first setting k v)
    load_first-Holds k v holds = elim (load_first-cases setting k v) [
      | inl same ↦ rw same holds
      | inr (c, found, p, e) ↦
          rw e (holds.0, All-set Sees v.calls k (record c { progress = once v.db }) holds.1 holds.0)
    ]

    load_again-Holds : (k : ℕ) (v : Service setting) → Holds v → Holds (load_again setting k v)
    load_again-Holds k v holds = elim (load_again-cases setting k v) [
      | inl same ↦ rw same holds
      | inr (c, db, found, p, e) ↦
          let first = subst Loaded p (All-get_elem? Sees v.calls k holds.1 found) in
          rw e (
            holds.0,
            All-set Sees v.calls k (record c { progress = twice db v.db }) holds.1 (first, holds.0),
          )
    ]

    answer-Holds :
        (k : ℕ) (upstream : Upstream h) (clock : Clock) (v : Service setting)
        → Holds v
        → Holds (answer setting k upstream clock v)
    answer-Holds k upstream clock v holds = elim (answer-cases setting k upstream clock v) [
      | inl same ↦ rw same holds
      | inr (c, db, db', found, e) ↦ rw e (holds.0, All-remove_at Sees v.calls k holds.1)
    ]

    step-Holds :
        (e : Event setting) (v : Service setting) → Installs e → Holds v → Holds (step setting e v)
    unfolding step
    step-Holds (updates s random) v installs holds = update-Holds s random v installs holds
    step-Holds (arrives request src responder) v installs holds =
        arrive-Holds request src responder v holds
    step-Holds (loads_first k) v installs holds = load_first-Holds k v holds
    step-Holds (loads_again k) v installs holds = load_again-Holds k v holds
    step-Holds (answers k upstream clock) v installs holds = answer-Holds k upstream clock v holds

    -- In every run, the current database and those that each request has loaded are the first one or
    -- were swapped in by an update: what holds of all of these holds of them.
    pub run-Holds :
        (v : Service setting) (es : List (Event setting))
        → Holds v
        → All Installs es
        → Holds (run setting v es)
    run-Holds v [] holds installs = holds
    run-Holds v (e ∷ es) holds installs =
        step-Holds e _ installs.0 (run-Holds v es holds installs.1)
