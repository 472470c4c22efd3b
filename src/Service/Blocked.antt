-- ===== src/Service/Blocked.antt =====
-- That a blocked name stays blocked while the lists are updated: the handler of src/handler.rs, the engine
-- of src/engine.rs with its updates, and the lists of src/compiler together.
use bancuh_dns.Prelude.{
  OnOk-map, ℕ, ◌≡◌, refl, ap, ◌∙◌, true, some, List, [], ◌∷◌, ok, All, get_elem?, remove_at,
}
use bancuh_dns.Text.{Text}
use bancuh_dns.Db.{AdblockDb}
use bancuh_dns.Db.Keys.{Name, IsName, fqdn}
use bancuh_dns.Config.{load}
use bancuh_dns.Engine.{is_blocked, get_redirect}
use bancuh_dns.Resolver.{Upstream}
use bancuh_dns.Handler.Query.{do_handle_request}
use bancuh_dns.Handler.Query.Steps.{
  Accepted, question_of, do_handle-accepted, answer_query-none, answer_listed-blocked, null_reply,
  answer_blocked-null_reply,
}
use bancuh_dns.Handler.Server.{Clock, finish}
use bancuh_dns.Service.Judged.{
  Judges, IfLoads, IsListed, IsUnaliased, ListsJudge, Updates, run-Judges, attempt-Judges,
}
use bancuh_dns.Service.Steps.{answer_lem}
use bancuh_dns.Service.{
  update, Setting, twice, Sources, Call, Service, Event, updates, answers, settle, asked, attempt,
  step, run,
}

module _ (setting : Setting) where
  open setting use {crates, r, disk, L, h, display_engine_error, Limiter, check_key, checks}
  open h use {Request, Responder, LowerName, RecordType}

  -- A database by which a name is blocked: no rewrite answers it, and the block lists have it.
  abbrev pub Refuses : Name → AdblockDb r.Db → Type 0
  Refuses ls db = Judges setting true ls db

  -- The lists of the configuration, if it loads, block the name.
  abbrev pub ListsBlock : Name → Sources → Type 0
  ListsBlock ls s =
      IfLoads setting s λ config. IsListed setting s config ls × IsUnaliased setting s config ls

  ListsBlock-Judge : (ls : Name) (s : Sources) → ListsBlock ls s → ListsJudge setting true ls s
  ListsBlock-Judge ls s =
      OnOk-map _ _ (λ config (listed, no_alias). ((λ yes. listed, λ x. refl), no_alias))
        (load s.at s.config_url)

  -- What is asked of an update: its stores are reliable, and its lists block the name.
  abbrev pub Blocks : Name → Event setting → Type 0
  Blocks ls e = Updates setting (ListsBlock ls) e

  -- Both loads find databases that block the name: the reply is the null address, or no such name.
  refused_reply :
      (db db' : AdblockDb r.Db) (upstream : Upstream h) (ls : Name) {request : Request}
      {name : LowerName} {query_type : RecordType} (responder : Responder)
      → Accepted h request name query_type
      → h.display_name name ≡ fqdn ls
      → Refuses ls db
      → Refuses ls db'
      → do_handle_request r L h display_engine_error db db' upstream request responder
        ≡ null_reply r L h display_engine_error upstream request name query_type responder
  refused_reply db db' upstream ls {request} {name} {query_type} responder a named first second =
      do_handle-accepted r L h display_engine_error upstream db db' a responder
      ∙ answer_query-none r L h display_engine_error upstream db db' request name query_type
          responder (ap (get_redirect r L db) named ∙ first.0)
      ∙ answer_listed-blocked r L h display_engine_error upstream db' request name query_type
          (question_of h name query_type) responder (ap (is_blocked r L db') named ∙ second.1)
      ∙ answer_blocked-null_reply r L h display_engine_error upstream request name query_type
          responder

  -- The service after a call has ended with the null address, or the error that there is no such name.
  abbrev pub refused :
      Service setting
      → ℕ
      → Call setting
      → Upstream h
      → Clock
      → LowerName
      → RecordType
      → Service setting
  refused w k c upstream clock name query_type =
      settle setting w (asked setting c) (remove_at w.calls k) (
        finish r L h display_engine_error check_key w.server c.src_ip clock c.request
          (null_reply r L h display_engine_error upstream c.request name query_type c.responder))

  -- In a service without calls whose current database blocks a name, after any run in which the lists
  -- of every update block it too, on reliable stores: the answer to an accepted query for the name is
  -- the null address of its family, or the error that there is no such name, and is logged as blocked
  -- where it is sent; whatever updates come between the two loads of the request, and whatever the
  -- upstream servers say.
  pub blocked_throughout :
      (v : Service setting) (es : List (Event setting)) (k : ℕ) (upstream : Upstream h)
      (clock : Clock) (l : Text) (ls : Name) {c : Call setting} {db db' : AdblockDb r.Db}
      {name : LowerName} {query_type : RecordType}
      → v.calls ≡ []
      → Refuses (l ∷ ls) v.db
      → All (Blocks (l ∷ ls)) es
      → let w = run setting v es in
        get_elem? w.calls k ≡ some c
        → c.progress ≡ twice db db'
        → Accepted h c.request name query_type
        → h.display_name name ≡ fqdn (l ∷ ls)
        → IsName (l ∷ ls)
        → step setting (answers k upstream clock) w ≡ refused w k c upstream clock name query_type
  unfolding step
  blocked_throughout v es k upstream clock l ls {c} {db} {db'} quiet refuses blocks found loaded a
        named is_name =
      let w = run setting v es in
      let (first, second) =
        run-Judges setting true (ListsBlock (l ∷ ls)) v es k l ls quiet refuses
          (ListsBlock-Judge (l ∷ ls)) blocks found loaded is_name in
      answer_lem setting k upstream clock w found loaded
      ∙ ap
          (λ outcome.
            settle setting w (asked setting c) (remove_at w.calls k) (
              finish r L h display_engine_error check_key w.server c.src_ip clock c.request
                outcome))
          (refused_reply db db' upstream (l ∷ ls) c.responder a named first second)

  -- In a service without calls, whatever it answered before: after an update that succeeds, on reliable
  -- stores, with lists that block a name, and any further run in which the lists of every update block
  -- it too: the answer to an accepted query for the name is the null address of its family, or the
  -- error that there is no such name, and is logged as blocked where it is sent.
  pub blocked_since_update :
      (v : Service setting) (s : Sources) (random : Text × Text × Text) (es : List (Event setting))
      (k : ℕ) (upstream : Upstream h) (clock : Clock) (l : Text) (ls : Name) {c : Call setting}
      {db db' : AdblockDb r.Db} {name : LowerName} {query_type : RecordType}
      → v.calls ≡ []
      → (attempt setting s random v.db v.world).2 ≡ ok tt
      → Blocks (l ∷ ls) (updates s random)
      → All (Blocks (l ∷ ls)) es
      → let w = run setting (update setting s random v) es in
        get_elem? w.calls k ≡ some c
        → c.progress ≡ twice db db'
        → Accepted h c.request name query_type
        → h.display_name name ≡ fqdn (l ∷ ls)
        → IsName (l ∷ ls)
        → step setting (answers k upstream clock) w ≡ refused w k c upstream clock name query_type
  unfolding update
  blocked_since_update v s random es k upstream clock l ls quiet done first later found loaded a
        named is_name =
      blocked_throughout (update setting s random v) es k upstream clock l ls quiet
        (attempt-Judges setting true s random v.db v.world l ls is_name
          (first.0, ListsBlock-Judge (l ∷ ls) s first.1) done)
        later found loaded a named is_name
