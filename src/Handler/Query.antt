-- ===== src/Handler/Query.antt =====
-- src/handler.rs: the answer to a request, `do_handle_request` and `send_response`.
--
-- The engine's database is loaded once for the rewrites and once for the block lists; an update may
-- come between the two, so both are arguments. The responder's state is passed along.
pub mod Steps
pub mod Answers
pub mod Traffic
pub mod Privacy
use bancuh_dns.Prelude.{not, none, some, List, [], ◌∷◌, ◌++◌, map_err, if◌then◌else◌}
use bancuh_dns.Text.{Text, codes}
use bancuh_dns.Db.{AdblockDb}
use bancuh_dns.Db.Interface.{Rocks}
use bancuh_dns.Engine.{EngineError, get_redirect, is_blocked}
use bancuh_dns.Hickory.{Hickory}
use bancuh_dns.Resolver.{Upstream, lookup}
use bancuh_dns.Serve.{Serve, ◌>>=◌, lift, raise, pure}
use bancuh_dns.Handler.Errors.{
  Failure, refused, serv_fail, nx_domain, of_resolve_error, of_proto_error, of_io_error,
}

-- `display_engine_error` is the text of an engine error.
module _ (r : Rocks) (L : Type 0) (h : Hickory)
    (display_engine_error : EngineError r.Error L → Text) where
  open h use {Request, Responder, RecordType, LowerName, Record, ResponseInfo}

  -- `From<EngineError>`
  unfoldable pub of_engine_error : EngineError r.Error L → Failure h
  unfolding serv_fail
  of_engine_error e = serv_fail h (display_engine_error e)

  abbrev pub Handling : Type 0 → Type 0
  Handling A = Serve Responder (Failure h) A

  -- `send_response`: a response with the answers.
  unfoldable pub send_response : Request → List Record → Handling ResponseInfo
  unfolding of_io_error
  send_response request records responder =
      let (responder', res) = h.send_response responder (h.build request records) in
      (responder', map_err (of_io_error h) res)

  -- The answer to a name that is rewritten: a CNAME to the alias, and the records of the alias.
  unfoldable pub answer_rewritten :
      Upstream h
      → Request
      → LowerName
      → RecordType
      → Text
      → Text
      → Handling (ResponseInfo × Text × Text)
  unfolding send_response of_proto_error of_resolve_error
  answer_rewritten upstream request name query_type question alias = do
    cname ← lift (map_err (of_proto_error h) (h.name_from_utf8 alias))
    alias_records ← lift (map_err (of_resolve_error h) (lookup h upstream alias query_type))
    info ←
        send_response request
          (h.from_rdata (h.name_of_lower name) 60 (h.rdata_cname cname) ∷ alias_records)
    pure (info, question, codes "rewritten: " ++ alias)

  -- The answer to a name that is blocked: the null address, or no such name.
  unfoldable pub answer_blocked :
      Request → LowerName → RecordType → Text → Handling (ResponseInfo × Text × Text)
  unfolding send_response nx_domain
  answer_blocked request name query_type question =
      if h.same_record_type query_type h.type_a
      then (do
        info ← send_response request (h.from_rdata (h.name_of_lower name) 60 (h.rdata_a 0) ∷ [])
        pure (info, question, codes "blocked"))
      else if h.same_record_type query_type h.type_aaaa
      then (do
        info ← send_response request (h.from_rdata (h.name_of_lower name) 60 (h.rdata_aaaa 0) ∷ [])
        pure (info, question, codes "blocked"))
      else raise (nx_domain h (h.display_name name))

  -- The answer to any other name: what the upstream servers say.
  unfoldable pub answer_forwarded :
      Upstream h → Request → LowerName → RecordType → Text → Handling (ResponseInfo × Text × Text)
  unfolding send_response of_resolve_error
  answer_forwarded upstream request name query_type question = do
    records ←
        lift (map_err (of_resolve_error h) (lookup h upstream (h.display_name name) query_type))
    info ← send_response request records
    pure (info, question, codes "forwarded")

  -- The test of the block lists, and the two ways on from it.
  unfoldable pub answer_listed :
      AdblockDb r.Db
      → Upstream h
      → Request
      → LowerName
      → RecordType
      → Text
      → Handling (ResponseInfo × Text × Text)
  unfolding of_engine_error
  answer_listed db upstream request name query_type question = do
    blocked ← lift (map_err of_engine_error (is_blocked r L db (h.display_name name)))
    if blocked
        then answer_blocked request name query_type question
        else answer_forwarded upstream request name query_type question

  -- The query of an accepted request; `db` is the engine's database at the first load, `db'` at the
  -- second.
  unfoldable pub answer_query :
      AdblockDb r.Db
      → AdblockDb r.Db
      → Upstream h
      → Request
      → LowerName
      → RecordType
      → Handling (ResponseInfo × Text × Text)
  unfolding of_engine_error
  answer_query db db' upstream request name query_type = do
    let question = h.display_name name ++ (codes " " ++ h.display_type query_type)
    redirect ← lift (map_err of_engine_error (get_redirect r L db (h.display_name name)))
    elim redirect [
      | some alias ↦ answer_rewritten upstream request name query_type question alias
      | none ↦ answer_listed db' upstream request name query_type question
    ]

  -- `do_handle_request`
  unfoldable pub do_handle_request :
      AdblockDb r.Db → AdblockDb r.Db → Upstream h → Request → Handling (ResponseInfo × Text × Text)
  unfolding refused serv_fail
  do_handle_request db db' upstream request =
      if not (h.same_op_code (h.op_code request) h.op_query)
      then raise (refused h (codes "Unsupported OpCode"))
      else if not (h.same_message_type (h.message_type request) h.message_query)
      then raise (refused h (codes "Unsupported MessageType"))
      else do
        (name, query_type) ←
            lift (map_err (λ e. serv_fail h (h.display_proto_error e)) (h.request_info request))
        answer_query db db' upstream request name query_type
