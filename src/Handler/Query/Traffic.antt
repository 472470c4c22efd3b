-- ===== src/Handler/Query/Traffic.antt =====
-- What `do_handle_request` of src/handler.rs sends: no response, or one.
use bancuh_dns.Prelude.{
  ◌≡◌, refl, Bool, true, false, not, Option, none, some, List, ◌++◌, Result, ok, err, map_err,
  if◌then◌else◌,
}
use bancuh_dns.Text.{Text, codes}
use bancuh_dns.Db.{AdblockDb}
use bancuh_dns.Db.Interface.{Rocks}
use bancuh_dns.Engine.{EngineError, get_redirect, is_blocked}
use bancuh_dns.Hickory.{Hickory}
use bancuh_dns.Resolver.{Upstream, lookup}
use bancuh_dns.Serve.{◌>>=◌, lift, pure, Serve}
use bancuh_dns.Handler.Errors.{Failure, serv_fail, of_io_error, of_proto_error, of_resolve_error}
use bancuh_dns.Handler.Query.{
  of_engine_error, send_response, answer_rewritten, answer_blocked, answer_forwarded, answer_listed,
  answer_query, do_handle_request,
}
use bancuh_dns.Handler.Query.Steps.{Outcome}

module _ (h : Hickory) where
  open h use {Request, Responder, Record, ResponseInfo}

  -- An error with nothing sent; an answer that was sent; an answer that could not be sent.
  pub data Sent (request : Request) (responder : Responder) : Outcome h → Type 0 where
    nothing : (e : Failure h) → Sent request responder (responder, err e)
    answered :
        (records : List Record) (question label : Text) {responder' : Responder}
        {info : ResponseInfo}
        → h.send_response responder (h.build request records) ≡ (responder', ok info)
        → Sent request responder (responder', ok (info, question, label))
    broken :
        (records : List Record) {responder' : Responder} (e : h.IoError)
        → h.send_response responder (h.build request records) ≡ (responder', err e)
        → Sent request responder (responder', err (of_io_error h e))

  -- A step that sends nothing goes on or ends in its error.
  Sent-lift :
      {A : Type 0} (request : Request) (responder : Responder) (res : Result (Failure h) A)
      (next : A → Serve Responder (Failure h) (ResponseInfo × Text × Text))
      → ((a : A) → Sent request responder (next a responder))
      → Sent request responder ((lift res >>= next) responder)
  Sent-lift request responder (ok a) next k = k a
  Sent-lift request responder (err e) next k = nothing e

  Sent-if :
      (request : Request) (responder : Responder) (b : Bool)
      (yes_branch no_branch : Serve Responder (Failure h) (ResponseInfo × Text × Text))
      → Sent request responder (yes_branch responder)
      → Sent request responder (no_branch responder)
      → Sent request responder ((if b then yes_branch else no_branch) responder)
  Sent-if request responder true m n hm hn = hm
  Sent-if request responder false m n hm hn = hn

module _ (r : Rocks) (L : Type 0) (h : Hickory)
    (display_engine_error : EngineError r.Error L → Text) (request : h.Request)
    (responder : h.Responder) where
  Sent-send_response :
      (records : List h.Record) (question label : Text)
      → Sent h request responder (
          (send_response r L h display_engine_error request records >>= λ info.
          pure (info, question, label))
            responder)
  unfolding send_response
  Sent-send_response records question label =
      go (h.send_response responder (h.build request records)) refl
    where
      go :
          (x : h.Responder × Result h.IoError h.ResponseInfo)
          → h.send_response responder (h.build request records) ≡ x
          → Sent h request responder (
              (send_response r L h display_engine_error request records >>= λ info.
              pure (info, question, label))
                responder)
      go (s, ok info) e = rw e (answered records question label e)
      go (s, err io) e = rw e (broken records io e)

  module _ (upstream : Upstream h) (name : h.LowerName) (query_type : h.RecordType) where
    Sent-answer_rewritten :
        (question alias : Text)
        → Sent h request responder (
            answer_rewritten r L h display_engine_error upstream request name query_type question
              alias responder)
    unfolding answer_rewritten
    Sent-answer_rewritten question alias =
        Sent-lift h request responder (map_err (of_proto_error h) (h.name_from_utf8 alias)) _
          λ cname.
            Sent-lift h request responder
              (map_err (of_resolve_error h) (lookup h upstream alias query_type)) _
              λ records. Sent-send_response _ question (codes "rewritten: " ++ alias)

    Sent-answer_blocked :
        (question : Text)
        → Sent h request responder
            (answer_blocked r L h display_engine_error request name query_type question responder)
    unfolding answer_blocked
    Sent-answer_blocked question =
        Sent-if h request responder (h.same_record_type query_type h.type_a) _ _
          (Sent-send_response _ question (codes "blocked"))
          (Sent-if h request responder (h.same_record_type query_type h.type_aaaa) _ _
            (Sent-send_response _ question (codes "blocked")) (nothing _))

    Sent-answer_forwarded :
        (question : Text)
        → Sent h request responder (
            answer_forwarded r L h display_engine_error upstream request name query_type question
              responder)
    unfolding answer_forwarded
    Sent-answer_forwarded question =
        Sent-lift h request responder
          (map_err (of_resolve_error h) (lookup h upstream (h.display_name name) query_type)) _
          λ records. Sent-send_response records question (codes "forwarded")

    Sent-answer_listed :
        (db : AdblockDb r.Db) (question : Text)
        → Sent h request responder (
            answer_listed r L h display_engine_error db upstream request name query_type question
              responder)
    unfolding answer_listed
    Sent-answer_listed db question =
        Sent-lift h request responder
          (map_err (of_engine_error r L h display_engine_error)
            (is_blocked r L db (h.display_name name)))
          _
          λ blocked.
            Sent-if h request responder blocked _ _ (Sent-answer_blocked question)
              (Sent-answer_forwarded question)

    Sent-redirect :
        (db : AdblockDb r.Db) (question : Text) (redirect : Option Text)
        → Sent h request responder (
            (elim redirect as (λ o. Serve h.Responder (Failure h) (h.ResponseInfo × Text × Text)) [
              | some alias ↦
                  answer_rewritten r L h display_engine_error upstream request name query_type
                    question alias
              | none ↦
                  answer_listed r L h display_engine_error db upstream request name query_type
                    question
            ])
              responder)
    Sent-redirect db question (some alias) = Sent-answer_rewritten question alias
    Sent-redirect db question none = Sent-answer_listed db question

    Sent-answer_query :
        (db db' : AdblockDb r.Db)
        → Sent h request responder (
            answer_query r L h display_engine_error db db' upstream request name query_type
              responder)
    unfolding answer_query
    Sent-answer_query db db' =
        Sent-lift h request responder
          (map_err (of_engine_error r L h display_engine_error)
            (get_redirect r L db (h.display_name name)))
          _ λ redirect. Sent-redirect db' _ redirect

  -- Whatever the stores and the upstream servers answer, the handler sends at most one response on its
  -- way to a result: a result with an answer is one response that was sent, and an error comes with
  -- nothing sent or with one response that could not be.
  pub do_handle_request-Sent :
      (db db' : AdblockDb r.Db) (upstream : Upstream h)
      → Sent h request responder
          (do_handle_request r L h display_engine_error db db' upstream request responder)
  unfolding do_handle_request
  do_handle_request-Sent db db' upstream =
      Sent-if h request responder (not (h.same_op_code (h.op_code request) h.op_query)) _ _
        (nothing _)
        (Sent-if h request responder
          (not (h.same_message_type (h.message_type request) h.message_query)) _ _ (nothing _)
          (Sent-lift h request responder
            (map_err (λ e. serv_fail h (h.display_proto_error e)) (h.request_info request)) _
            λ q. Sent-answer_query upstream q.0 q.1 db db'))
