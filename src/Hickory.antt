-- ===== src/Hickory.antt =====
-- The DNS library (hickory-proto, hickory-server, hickory-resolver) as src/handler.rs and
-- src/resolver.rs use it: types and calls that the program links, with no laws.
use bancuh_dns.Prelude.{ℕ, Bool, List, Result}
use bancuh_dns.Text.{Text}

pub record Hickory : Type 1 where
  -- A request, its op code, message type and question.
  pub Request : Type 0
  pub OpCode : Type 0
  pub MessageType : Type 0
  pub LowerName : Type 0
  pub RecordType : Type 0
  pub ProtoError : Type 0
  pub op_code : Request → OpCode
  pub same_op_code : OpCode → OpCode → Bool
  pub op_query : OpCode
  pub message_type : Request → MessageType
  pub same_message_type : MessageType → MessageType → Bool
  pub message_query : MessageType
  -- `request.request_info()`, with the name and the type of its query.
  pub request_info : Request → Result ProtoError (LowerName × RecordType)
  pub display_name : LowerName → Text
  pub display_type : RecordType → Text
  pub same_record_type : RecordType → RecordType → Bool
  pub type_a : RecordType
  pub type_aaaa : RecordType
  -- Record data, and `Record::from_rdata(name, ttl, rdata)`.
  pub Name : Type 0
  pub RData : Type 0
  pub Record : Type 0
  pub name_from_utf8 : Text → Result ProtoError Name
  pub name_of_lower : LowerName → Name
  pub rdata_cname : Name → RData
  pub rdata_a : ℕ → RData
  pub rdata_aaaa : ℕ → RData
  pub from_rdata : Name → ℕ → RData → Record
  -- Responses: `MessageResponseBuilder::from_message_request(request)`, then `build` with the header
  -- of a response to the request and the answers, or `error_msg`.
  pub ResponseCode : Type 0
  pub refused : ResponseCode
  pub serv_fail : ResponseCode
  pub nx_domain : ResponseCode
  pub Response : Type 0
  pub build : Request → List Record → Response
  pub error_msg : Request → ResponseCode → Response
  -- `Header::new()` with a response code, as a `ResponseInfo`.
  pub ResponseInfo : Type 0
  pub info_of_code : ResponseCode → ResponseInfo
  -- `responder.send_response(response)`: what the responder has sent is its state.
  pub Responder : Type 0
  pub IoError : Type 0
  pub send_response : Responder → Response → Responder × Result IoError ResponseInfo
  -- Errors, as the text of their `Display`.
  pub ResolveError : Type 0
  pub is_nx_domain : ResolveError → Bool
  pub is_no_records_found : ResolveError → Bool
  pub display_resolve_error : ResolveError → Text
  pub display_proto_error : ProtoError → Text
  pub display_io_error : IoError → Text
