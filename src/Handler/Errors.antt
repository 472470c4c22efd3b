-- ===== src/Handler/Errors.antt =====
-- src/handler.rs: `HandlerError`, its constructors and the conversions into it.
use bancuh_dns.Prelude.{◌||◌, ◌++◌, if◌then◌else◌}
use bancuh_dns.Text.{Text, codes}
use bancuh_dns.Hickory.{Hickory}

-- `HandlerError(ResponseCode, String)`
pub record HandlerError (Code : Type 0) : Type 0 where
  pub code : Code
  pub message : Text

-- `HandlerError::refused`, `serv_fail` and `nx_domain`.
module _ (h : Hickory) where
  abbrev pub Failure : Type 0
  Failure = HandlerError h.ResponseCode

  unfoldable pub refused : Text → Failure
  refused msg = record { code = h.refused; message = msg }

  unfoldable pub serv_fail : Text → Failure
  serv_fail msg = record { code = h.serv_fail; message = msg }

  unfoldable pub nx_domain : Text → Failure
  nx_domain domain = record { code = h.nx_domain; message = codes "No record found for " ++ domain }

  -- `From<ResolveError>`
  unfoldable pub of_resolve_error : h.ResolveError → Failure
  unfolding nx_domain serv_fail
  of_resolve_error e =
      if h.is_nx_domain e || h.is_no_records_found e
      then nx_domain (h.display_resolve_error e)
      else serv_fail (h.display_resolve_error e)

  -- `From<ProtoError>`
  unfoldable pub of_proto_error : h.ProtoError → Failure
  unfolding serv_fail
  of_proto_error e = serv_fail (h.display_proto_error e)

  -- `From<std::io::Error>`
  unfoldable pub of_io_error : h.IoError → Failure
  unfolding serv_fail
  of_io_error e = serv_fail (h.display_io_error e)
