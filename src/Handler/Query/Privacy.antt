-- ===== src/Handler/Query/Privacy.antt =====
-- Which name `do_handle_request` of src/handler.rs asks the upstream servers for.
use bancuh_dns.Prelude.{◌≡◌, Bool, true, false, Option, none, some, Result, ok, err, arith}
use bancuh_dns.Text.{Text}
use bancuh_dns.Db.{AdblockDb}
use bancuh_dns.Db.Interface.{Rocks}
use bancuh_dns.Engine.{EngineError, get_redirect, is_blocked}
use bancuh_dns.Hickory.{Hickory}
use bancuh_dns.Resolver.{Upstream, lookup}
use bancuh_dns.Handler.Query.{
  answer_rewritten, answer_forwarded, answer_listed, answer_query, do_handle_request,
}

module _ (r : Rocks) (L : Type 0) where
  abbrev asked_unless_blocked : Text → Result (EngineError r.Error L) Bool → Option Text
  asked_unless_blocked name (ok false) = some name
  asked_unless_blocked name (ok true) = none
  asked_unless_blocked name (err e) = none

  abbrev asked_by_redirect :
      Text → AdblockDb r.Db → Result (EngineError r.Error L) (Option Text) → Option Text
  asked_by_redirect name db' (ok (some alias)) = some alias
  asked_by_redirect name db' (ok none) = asked_unless_blocked name (is_blocked r L db' name)
  asked_by_redirect name db' (err e) = none

  -- The alias of a rewritten name, the name itself if it is not blocked, and otherwise nothing.
  abbrev pub asked : Text → AdblockDb r.Db → AdblockDb r.Db → Option Text
  asked name db db' = asked_by_redirect name db' (get_redirect r L db name)

module _ (r : Rocks) (L : Type 0) (h : Hickory)
    (display_engine_error : EngineError r.Error L → Text) where
  -- Two upstreams give the same answer about what they are asked for.
  abbrev pub Agree : Option Text → h.RecordType → Upstream h → Upstream h → Type 0
  Agree none query_type up up' = Unit
  Agree (some name) query_type up up' = up name query_type ≡ up' name query_type

  -- The outcome of a request depends on the upstream servers only through their answer for one name:
  -- the alias of a rewritten name, or a name that is not blocked. A blocked name is asked nowhere, and
  -- neither is a rewritten name itself.
  pub do_handle_request-asked :
      (db db' : AdblockDb r.Db) (up up' : Upstream h) (request : h.Request)
      (responder : h.Responder) (name : h.LowerName) (query_type : h.RecordType)
      → h.request_info request ≡ ok (name, query_type)
      → Agree (asked r L (h.display_name name) db db') query_type up up'
      → do_handle_request r L h display_engine_error db db' up request responder
        ≡ do_handle_request r L h display_engine_error db db' up' request responder
  unfolding do_handle_request answer_query answer_listed answer_rewritten answer_forwarded lookup
  do_handle_request-asked db db' up up' request responder name query_type info agree =
      rw info (ground arith)
