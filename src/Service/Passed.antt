-- ===== src/Service/Passed.antt =====
-- That a name that is not blocked stays so while the lists are updated: the handler of src/handler.rs, the engine
-- of src/engine.rs with its updates, and the lists of src/compiler together.
use bancuh_dns.Prelude.{
  OnOk-map, ℕ, ◌≡◌, ap, ◌∙◌, false, some, List, [], ◌∷◌, All, get_elem?, remove_at,
}
use bancuh_dns.Text.{Text}
use bancuh_dns.Db.{AdblockDb}
use bancuh_dns.Db.Keys.{Name, IsName, fqdn}
use bancuh_dns.Config.{load}
use bancuh_dns.Engine.{is_blocked, get_redirect}
use bancuh_dns.Resolver.{Upstream}
use bancuh_dns.Handler.Query.{do_handle_request}
use bancuh_dns.Handler.Query.Steps.{
  Accepted, question_of, do_handle-accepted, answer_query-none, answer_listed-passed,
  upstream_reply, answer_forwarded-upstream_reply,
}
use bancuh_dns.Handler.Server.{Clock, finish}
use bancuh_dns.Service.Judged.{
  Judges, IfLoads, IsListed, IsUnaliased, ListsJudge, Updates, run-Judges,
}
use bancuh_dns.Service.Steps.{answer_lem}
use bancuh_dns.Service.{
  Setting, twice, Sources, Call, Service, Event, answers, settle, asked, step, run,
}

module _ (setting : Setting) where
  open setting use {crates, r, disk, L, h, display_engine_error, Limiter, check_key, checks}
  open h use {Request, Responder, LowerName, RecordType}

  -- A database by which a name is looked up: no rewrite answers it, and it is not blocked.
  abbrev pub Allows : Name → AdblockDb r.Db → Type 0
  Allows ls db = Judges setting false ls db

  -- The lists of the configuration, if it loads, neither block nor rewrite the name.
  abbrev pub ListsPass : Name → Sources → Type 0
  ListsPass ls s =
      IfLoads setting s λ config. (¬ IsListed setting s config ls) × IsUnaliased setting s config ls

  ListsPass-Judge : (ls : Name) (s : Sources) → ListsPass ls s → ListsJudge setting false ls s
  ListsPass-Judge ls s =
      OnOk-map _ _
        (λ config (spared, no_alias). ((λ yes. cc, λ listed. absurd (spared listed)), no_alias))
        (load s.at s.config_url)

  -- What is asked of an update: its stores are reliable, and its lists let the name pass.
  abbrev pub Passes : Name → Event setting → Type 0
  Passes ls e = Updates setting (ListsPass ls) e

  -- Both loads find databases that let the name pass: the reply is what the upstream servers say.
  passed_reply :
      (db db' : AdblockDb r.Db) (upstream : Upstream h) (ls : Name) {request : Request}
      {name : LowerName} {query_type : RecordType} (responder : Responder)
      → Accepted h request name query_type
      → h.display_name name ≡ fqdn ls
      → Allows ls db
      → Allows ls db'
      → do_handle_request r L h display_engine_error db db' upstream request responder
        ≡ upstream_reply r L h display_engine_error upstream request name query_type responder
  passed_reply db db' upstream ls {request} {name} {query_type} responder a named first second =
      do_handle-accepted r L h display_engine_error upstream db db' a responder
      ∙ answer_query-none r L h display_engine_error upstream db db' request name query_type
          responder (ap (get_redirect r L db) named ∙ first.0)
      ∙ answer_listed-passed r L h display_engine_error upstream db' request name query_type
          (question_of h name query_type) responder (ap (is_blocked r L db') named ∙ second.1)
      ∙ answer_forwarded-upstream_reply r L h display_engine_error upstream request name query_type
          responder

  -- The service after a call has ended with what the upstream servers say.
  abbrev pub forwarded :
      Service setting
      → ℕ
      → Call setting
      → Upstream h
      → Clock
      → LowerName
      → RecordType
      → Service setting
  forwarded w k c upstream clock name query_type =
      settle setting w (asked setting c) (remove_at w.calls k) (
        finish r L h display_engine_error check_key w.server c.src_ip clock c.request (
          upstream_reply r L h display_engine_error upstream c.request name query_type c.responder))

  -- In a service without calls whose current database neither blocks nor rewrites a name, after any run
  -- in which the lists of no update do, on reliable stores: the answer to an accepted query for the
  -- name is what the upstream servers say, records or error, and is logged as forwarded where it is
  -- sent; whatever else is blocked, and whatever updates come between the loads.
  pub passed_throughout :
      (v : Service setting) (es : List (Event setting)) (k : ℕ) (upstream : Upstream h)
      (clock : Clock) (l : Text) (ls : Name) {c : Call setting} {db db' : AdblockDb r.Db}
      {name : LowerName} {query_type : RecordType}
      → v.calls ≡ []
      → Allows (l ∷ ls) v.db
      → All (Passes (l ∷ ls)) es
      → let w = run setting v es in
        get_elem? w.calls k ≡ some c
        → c.progress ≡ twice db db'
        → Accepted h c.request name query_type
        → h.display_name name ≡ fqdn (l ∷ ls)
        → IsName (l ∷ ls)
        → step setting (answers k upstream clock) w ≡ forwarded w k c upstream clock name query_type
  unfolding step
  passed_throughout v es k upstream clock l ls {c} {db} {db'} quiet allows passes found loaded a
        named is_name =
      let w = run setting v es in
      let (first, second) =
        run-Judges setting false (ListsPass (l ∷ ls)) v es k l ls quiet allows
          (ListsPass-Judge (l ∷ ls)) passes found loaded is_name in
      answer_lem setting k upstream clock w found loaded
      ∙ ap
          (λ outcome.
            settle setting w (asked setting c) (remove_at w.calls k) (
              finish r L h display_engine_error check_key w.server c.src_ip clock c.request
                outcome))
          (passed_reply db db' upstream (l ∷ ls) c.responder a named first second)
