-- ===== src/Handler/Query/Steps.antt =====
-- The steps of `do_handle_request` of src/handler.rs, each by what the engine says about the name.
use bancuh_dns.Prelude.{
  ◌≡◌, ◌↔◌, refl, Bool, true, false, none, some, List, [], ◌∷◌, ◌++◌, ◌⊎◌, inl, inr, Result, ok,
  err, if◌then◌else◌, arith,
}
use bancuh_dns.Text.{Text, codes}
use bancuh_dns.Db.{AdblockDb}
use bancuh_dns.Db.Interface.{Rocks}
use bancuh_dns.Engine.{EngineError, get_redirect, is_blocked}
use bancuh_dns.Hickory.{Hickory}
use bancuh_dns.Resolver.{Upstream, lookup}
use bancuh_dns.Serve.{◌>>=◌}
use bancuh_dns.Handler.Errors.{Failure, nx_domain, of_io_error, of_proto_error, of_resolve_error}
use bancuh_dns.Handler.Query.{
  send_response, answer_rewritten, answer_blocked, answer_forwarded, answer_listed, answer_query,
  do_handle_request,
}

pub not_blocked {ℓ κ} :
    {B : Type ℓ} {W : Type κ} (b : Bool) → (b ≡ true) ↔ (B × ¬ W) → (¬ B) ⊎ W → b ≡ false
not_blocked false rule passes = refl
not_blocked true rule (inl absent) = absurd (absent (rule.0 refl).0)
not_blocked true rule (inr w) = absurd ((rule.0 refl).1 w)

module _ (h : Hickory) where
  open h use {Request, Responder, RecordType, LowerName, Record, ResponseInfo}

  -- A request that the handler goes on with: a query, in a query message, with one question.
  pub record Accepted (request : Request) (name : LowerName) (query_type : RecordType)
      : Type 0 where
    pub op_query : h.same_op_code (h.op_code request) h.op_query ≡ true
    pub message_query : h.same_message_type (h.message_type request) h.message_query ≡ true
    pub question : h.request_info request ≡ ok (name, query_type)

  -- The question as it is logged.
  abbrev pub question_of : LowerName → RecordType → Text
  question_of name query_type = h.display_name name ++ (codes " " ++ h.display_type query_type)

  abbrev pub Outcome : Type 0
  Outcome = Responder × Result (Failure h) (ResponseInfo × Text × Text)

  abbrev described :
      Text → Text → Result h.IoError ResponseInfo → Result (Failure h) (ResponseInfo × Text × Text)
  described question label (ok info) = ok (info, question, label)
  described question label (err e) = err (of_io_error h e)

  -- One response with these records, logged under the label if it could be sent.
  abbrev pub replied : Request → Text → Text → List Record → Responder → Outcome
  replied request question label records responder =
      let (responder', res) = h.send_response responder (h.build request records) in
      (responder', described question label res)

module _ (r : Rocks) (L : Type 0) (h : Hickory)
    (display_engine_error : EngineError r.Error L → Text) (upstream : Upstream h) where
  open h use {Request, Responder, RecordType, LowerName, Record, ResponseInfo}

  pub do_handle-accepted :
      (db db' : AdblockDb r.Db) {request : Request} {name : LowerName} {query_type : RecordType}
      → Accepted h request name query_type
      → (responder : Responder)
      → do_handle_request r L h display_engine_error db db' upstream request responder
        ≡ answer_query r L h display_engine_error db db' upstream request name query_type responder
  unfolding do_handle_request
  do_handle-accepted db db' a responder = rw (a.op_query, a.message_query, a.question)

  -- The handler looks at the block lists only if no rewrite answers the name.
  pub answer_query-none :
      (db db' : AdblockDb r.Db) (request : Request) (name : LowerName) (query_type : RecordType)
      (responder : Responder)
      → get_redirect r L db (h.display_name name) ≡ ok none
      → answer_query r L h display_engine_error db db' upstream request name query_type responder
        ≡ answer_listed r L h display_engine_error db' upstream request name query_type
            (question_of h name query_type)
            responder
  unfolding answer_query
  answer_query-none db db' request name query_type responder e = rw e

  pub answer_query-some :
      (db db' : AdblockDb r.Db) (request : Request) (name : LowerName) (query_type : RecordType)
      (responder : Responder) {alias : Text}
      → get_redirect r L db (h.display_name name) ≡ ok (some alias)
      → answer_query r L h display_engine_error db db' upstream request name query_type responder
        ≡ answer_rewritten r L h display_engine_error upstream request name query_type
            (question_of h name query_type)
            alias
            responder
  unfolding answer_query
  answer_query-some db db' request name query_type responder e = rw e

  pub send_response-replied :
      (request : Request) (question label : Text) (records : List Record) (responder : Responder)
      → (send_response r L h display_engine_error request records >>= λ info.
            λ s. (s, ok (info, question, label)))
          responder
        ≡ replied h request question label records responder
  unfolding send_response
  send_response-replied request question label records responder = ground arith

  pub answer_listed-blocked :
      (db' : AdblockDb r.Db) (request : Request) (name : LowerName) (query_type : RecordType)
      (question : Text) (responder : Responder)
      → is_blocked r L db' (h.display_name name) ≡ ok true
      → answer_listed r L h display_engine_error db' upstream request name query_type question
          responder
        ≡ answer_blocked r L h display_engine_error request name query_type question responder
  unfolding answer_listed
  answer_listed-blocked db' request name query_type question responder e = rw e

  pub answer_listed-passed :
      (db' : AdblockDb r.Db) (request : Request) (name : LowerName) (query_type : RecordType)
      (question : Text) (responder : Responder)
      → is_blocked r L db' (h.display_name name) ≡ ok false
      → answer_listed r L h display_engine_error db' upstream request name query_type question
          responder
        ≡ answer_forwarded r L h display_engine_error upstream request name query_type question
            responder
  unfolding answer_listed
  answer_listed-passed db' request name query_type question responder e = rw e

  -- The record of an answer that the handler makes itself.
  abbrev pub own_record : LowerName → h.RData → Record
  own_record name rdata = h.from_rdata (h.name_of_lower name) 60 rdata

  -- What a blocked name is answered with: the null address of the family that is asked for, or no
  -- such name.
  abbrev pub null_reply : Request → LowerName → RecordType → Responder → Outcome h
  null_reply request name query_type responder =
      if h.same_record_type query_type h.type_a
      then replied h request (question_of h name query_type) (codes "blocked")
          (own_record name (h.rdata_a 0) ∷ []) responder
      else if h.same_record_type query_type h.type_aaaa
      then replied h request (question_of h name query_type) (codes "blocked")
          (own_record name (h.rdata_aaaa 0) ∷ []) responder
      else (responder, err (nx_domain h (h.display_name name)))

  pub answer_blocked-null_reply :
      (request : Request) (name : LowerName) (query_type : RecordType) (responder : Responder)
      → answer_blocked r L h display_engine_error request name query_type
          (question_of h name query_type)
          responder
        ≡ null_reply request name query_type responder
  unfolding answer_blocked
  answer_blocked-null_reply request name query_type responder = ground arith

  -- What any other name is answered with: the records of the upstream servers for it, or their error.
  abbrev pub upstream_reply : Request → LowerName → RecordType → Responder → Outcome h
  upstream_reply request name query_type responder =
      elim (lookup h upstream (h.display_name name) query_type) [
        | ok records ↦
            replied h request (question_of h name query_type) (codes "forwarded") records responder
        | err e ↦ (responder, err (of_resolve_error h e))
      ]

  pub answer_forwarded-upstream_reply :
      (request : Request) (name : LowerName) (query_type : RecordType) (responder : Responder)
      → answer_forwarded r L h display_engine_error upstream request name query_type
          (question_of h name query_type)
          responder
        ≡ upstream_reply request name query_type responder
  unfolding answer_forwarded
  answer_forwarded-upstream_reply request name query_type responder = ground arith

  -- What a rewritten name is answered with: a CNAME to the alias, before the records of the alias.
  abbrev pub alias_reply : Request → LowerName → RecordType → Text → Responder → Outcome h
  alias_reply request name query_type alias responder = elim (h.name_from_utf8 alias) [
    | err e ↦ (responder, err (of_proto_error h e))
    | ok cname ↦ elim (lookup h upstream alias query_type) [
      | err e ↦ (responder, err (of_resolve_error h e))
      | ok records ↦
          replied h request (question_of h name query_type) (codes "rewritten: " ++ alias)
            (own_record name (h.rdata_cname cname) ∷ records) responder
    ]
  ]

  pub answer_rewritten-alias_reply :
      (request : Request) (name : LowerName) (query_type : RecordType) (alias : Text)
      (responder : Responder)
      → answer_rewritten r L h display_engine_error upstream request name query_type
          (question_of h name query_type)
          alias
          responder
        ≡ alias_reply request name query_type alias responder
  unfolding answer_rewritten
  answer_rewritten-alias_reply request name query_type alias responder = ground arith
