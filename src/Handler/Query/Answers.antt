-- ===== src/Handler/Query/Answers.antt =====
-- What an accepted query is answered with (`do_handle_request` of src/handler.rs), by the rule of the
-- engine's stores.
use bancuh_dns.Prelude.{◌≡◌, ap, ◌∙◌, none, some, ◌∷◌, ◌⊎◌, ok}
use bancuh_dns.Text.{Text}
use bancuh_dns.Db.{AdblockDb}
use bancuh_dns.Db.Interface.{Rocks}
use bancuh_dns.Db.Keys.{Name, IsName, fqdn}
use bancuh_dns.Db.Lookup.{answer}
use bancuh_dns.Engine.{EngineError, get_redirect, is_blocked}
use bancuh_dns.Engine.Verdict.{IsServing, Listed, is_blocked_iff, get_redirect_refines}
use bancuh_dns.Hickory.{Hickory}
use bancuh_dns.Resolver.{Upstream}
use bancuh_dns.Handler.Query.{do_handle_request}
use bancuh_dns.Handler.Query.Steps.{
  Accepted, question_of, do_handle-accepted, answer_query-none, answer_query-some,
  answer_listed-blocked, answer_listed-passed, null_reply, answer_blocked-null_reply,
  upstream_reply, answer_forwarded-upstream_reply, alias_reply, answer_rewritten-alias_reply,
  not_blocked,
}

module _ (r : Rocks) (L : Type 0) (h : Hickory)
    (display_engine_error : EngineError r.Error L → Text) (upstream : Upstream h) where
  open h use {Request, Responder, RecordType, LowerName}

  module _ {db db' : AdblockDb r.Db} {black0 white0 rewrites black white rewrites' : r.Db}
      {request : Request} {name : LowerName} {query_type : RecordType} (l : Text) (ls : Name)
      (accepted : Accepted h request name query_type) (named : h.display_name name ≡ fqdn (l ∷ ls))
      (is_name : IsName (l ∷ ls)) (first : IsServing r L db black0 white0 rewrites)
      (second : IsServing r L db' black white rewrites') where
    redirected :
        get_redirect r L db (h.display_name name) ≡ ok (answer (r.contents rewrites) (l ∷ ls))
    redirected = ap (get_redirect r L db) named ∙ get_redirect_refines r L l ls first is_name

    -- An accepted query for a name that no rewrite answers, that the blacklist has and the whitelist
    -- has not, gets the null address of its family as the one record of one response, logged as
    -- blocked; for any other type the response is the error that there is no such name.
    pub blocked_answer :
        (responder : Responder)
        → answer (r.contents rewrites) (l ∷ ls) ≡ none
        → Listed r L black (l ∷ ls)
        → ¬ Listed r L white (l ∷ ls)
        → do_handle_request r L h display_engine_error db db' upstream request responder
          ≡ null_reply r L h display_engine_error upstream request name query_type responder
    blocked_answer responder no_rewrite listed spared =
        let (b, e, rule) = is_blocked_iff r L l ls second is_name in
        do_handle-accepted r L h display_engine_error upstream db db' accepted responder
        ∙ answer_query-none r L h display_engine_error upstream db db' request name query_type
            responder (redirected ∙ ap ok no_rewrite)
        ∙ answer_listed-blocked r L h display_engine_error upstream db' request name query_type
            (question_of h name query_type) responder
            (ap (is_blocked r L db') named ∙ e ∙ ap ok (rule.1 (listed, spared)))
        ∙ answer_blocked-null_reply r L h display_engine_error upstream request name query_type
            responder

    -- An accepted query for a name that no rewrite answers, and that the blacklist has not or the
    -- whitelist has, gets what the upstream servers say.
    pub passed_answer :
        (responder : Responder)
        → answer (r.contents rewrites) (l ∷ ls) ≡ none
        → (¬ Listed r L black (l ∷ ls)) ⊎ Listed r L white (l ∷ ls)
        → do_handle_request r L h display_engine_error db db' upstream request responder
          ≡ upstream_reply r L h display_engine_error upstream request name query_type responder
    passed_answer responder no_rewrite passes =
        let (b, e, rule) = is_blocked_iff r L l ls second is_name in
        do_handle-accepted r L h display_engine_error upstream db db' accepted responder
        ∙ answer_query-none r L h display_engine_error upstream db db' request name query_type
            responder (redirected ∙ ap ok no_rewrite)
        ∙ answer_listed-passed r L h display_engine_error upstream db' request name query_type
            (question_of h name query_type) responder
            (ap (is_blocked r L db') named ∙ e ∙ ap ok (not_blocked b rule passes))
        ∙ answer_forwarded-upstream_reply r L h display_engine_error upstream request name
            query_type responder

  -- An accepted query for a name that a rewrite answers gets one response: a CNAME to the alias, then
  -- the upstream records of the alias; where the alias is no name or its lookup fails, that error. The
  -- block lists do not matter, whatever state they are in.
  pub rewritten_answer :
      {db : AdblockDb r.Db} (db' : AdblockDb r.Db) {black white rewrites : r.Db} {request : Request}
      {name : LowerName} {query_type : RecordType} (l : Text) (ls : Name) (alias : Text)
      (responder : Responder)
      → Accepted h request name query_type
      → h.display_name name ≡ fqdn (l ∷ ls)
      → IsName (l ∷ ls)
      → IsServing r L db black white rewrites
      → answer (r.contents rewrites) (l ∷ ls) ≡ some alias
      → do_handle_request r L h display_engine_error db db' upstream request responder
        ≡ alias_reply r L h display_engine_error upstream request name query_type alias responder
  rewritten_answer {db} db' {request} {name} {query_type} l ls alias responder a named is_name s e =
      do_handle-accepted r L h display_engine_error upstream db db' a responder
      ∙ answer_query-some r L h display_engine_error upstream db db' request name query_type
          responder
          (ap (get_redirect r L db) named ∙ get_redirect_refines r L l ls s is_name ∙ ap ok e)
      ∙ answer_rewritten-alias_reply r L h display_engine_error upstream request name query_type
          alias responder
