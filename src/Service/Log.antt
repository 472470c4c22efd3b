-- ===== src/Service/Log.antt =====
-- What the requests in Service.antt leave in the query log of src/query_log.rs, and what src/admin.rs shows of it.
use bancuh_dns.Prelude.{
  ◌≡◌, ap, none, some, List, [], ◌∷◌, ◌++◌, Result, ok, err, inl, inr, get_elem?, Option-cases,
  Bool-cases,
}
use bancuh_dns.Text.{Text}
use bancuh_dns.Resolver.{Upstream}
use bancuh_dns.RateLimiter.{mask_ip}
use bancuh_dns.Handler.Query.{do_handle_request}
use bancuh_dns.Handler.Server.{Server, Clock, check_limit, finish, normalize_ip}
use bancuh_dns.QueryLog.{new, insert}
use bancuh_dns.Handler.Errors.{Failure}
use bancuh_dns.QueryLog.History
use bancuh_dns.Service.Steps.{load_first-cases, load_again-cases}
use bancuh_dns.Service.{
  Setting, Call, Service, Event, updates, arrives, loads_first, loads_again, answers, arrive,
  Progress, Progress-cases, limited, once, twice, answer, step, run,
}

module _ (setting : Setting) where
  open setting use {crates, r, disk, L, h, display_engine_error, Limiter, check_key, checks}
  open h use {Request, Responder, LowerName, RecordType}

  -- The query of a call, if it is answered.
  abbrev pub entry :
      Call setting → Clock → Result (Failure h) (h.ResponseInfo × Text × Text) → List History.Event
  entry c clock (err e) = []
  entry c clock (ok (info, question, answer)) =
      record {
        ip = c.src_ip;
        log = record { query_time = clock.query_time; question = question; answer = answer };
        at = clock.now;
      }
      ∷ []

  abbrev pub answered_call : Call setting → Upstream h → Clock → Progress r.Db → List History.Event
  answered_call c upstream clock limited = []
  answered_call c upstream clock (once db) = []
  answered_call c upstream clock (twice db db') =
      entry c clock
        (do_handle_request r L h display_engine_error db db' upstream c.request c.responder).1

  -- The queries that a step answers.
  abbrev pub answered_by : Event setting → Service setting → List History.Event
  answered_by (updates s random) v = []
  answered_by (arrives request src responder) v = []
  answered_by (loads_first k) v = []
  answered_by (loads_again k) v = []
  answered_by (answers k upstream clock) v = elim (get_elem? v.calls k) [
    | none ↦ []
    | some c ↦ answered_call c upstream clock c.progress
  ]

  -- The queries that a run answers, the latest first.
  abbrev pub answered : Service setting → List (Event setting) → List History.Event
  answered v [] = []
  answered v (e ∷ es) = answered_by e (run setting v es) ++ answered v es

  log-finish :
      (server : Server Limiter) (c : Call setting) (clock : Clock) (past : List History.Event)
      (outcome : Responder × Result (Failure h) (h.ResponseInfo × Text × Text))
      → server.query_log ≡ History.run past
      → (finish r L h display_engine_error check_key server c.src_ip clock c.request
          outcome).0.query_log
        ≡ History.run (entry c clock outcome.1 ++ past)
  unfolding finish
  log-finish server c clock past (responder, err e) same = same
  log-finish server c clock past (responder, ok (info, question, text)) same =
      ap
        (λ log.
          insert log c.src_ip
            (record { query_time = clock.query_time; question = question; answer = text })
            clock.now)
        same

  log-step :
      (e : Event setting) (v : Service setting) (past : List History.Event)
      → v.server.query_log ≡ History.run past
      → (step setting e v).server.query_log ≡ History.run (answered_by e v ++ past)
  unfolding step
  log-step (updates s random) v past same = same
  log-step (arrives request src responder) v past same =
      elim (Option-cases (
        mask_ip checks (normalize_ip src) v.server.rate_limit_ipv4_prefix
          v.server.rate_limit_ipv6_prefix)) [
            | inl panics ↦ rw (arrive, panics) same
            | inr (key, masked) ↦
                elim (Bool-cases (check_limit check_key v.server.rate_limiter key).1) [
                  | inl over ↦ rw (arrive, masked, over) same
                  | inr within ↦ rw (arrive, masked, within) same
                ]
          ]
  log-step (loads_first k) v past same = elim (load_first-cases setting k v) [
    | inl kept ↦ rw kept same
    | inr (c, found, p, e) ↦ rw e same
  ]
  log-step (loads_again k) v past same = elim (load_again-cases setting k v) [
    | inl kept ↦ rw kept same
    | inr (c, db, found, p, e) ↦ rw e same
  ]
  log-step (answers k upstream clock) v past same = elim (Option-cases (get_elem? v.calls k)) [
    | inl missing ↦ rw (answer, answered_by, missing) same
    | inr (c, found) ↦ elim (Progress-cases c.progress) [
      | inl p ↦ rw (answer, answered_by, found, p) same
      | inr (inl (db, p)) ↦ rw (answer, answered_by, found, p) same
      | inr (inr (db, db', p)) ↦
          rw (answer, answered_by, found, p)
            (log-finish v.server c clock past
              (do_handle_request r L h display_engine_error db db' upstream c.request c.responder)
              same)
    ]
  ]

  -- The log of a service is that of the history of its answers.
  pub log-run :
      (v : Service setting) (es : List (Event setting))
      → v.server.query_log ≡ new
      → (run setting v es).server.query_log ≡ History.run (answered v es)
  log-run v [] fresh = fresh
  log-run v (e ∷ es) fresh = log-step e _ (answered v es) (log-run v es fresh)
