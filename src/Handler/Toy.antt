-- ===== src/Handler/Toy.antt =====
-- A small DNS library for tests: names are their texts, record types their numbers, and the responder
-- keeps the responses it was given.
use bancuh_dns.Prelude.{ℕ, Bool, true, List, [], ◌∷◌, ◌++◌, Result, ok, ◌==◌}
use bancuh_dns.Text.{Text}
use bancuh_dns.Hickory.{Hickory}

pub record Query : Type 0 where
  pub op : ℕ
  pub kind : ℕ
  pub name : Text
  pub query_type : ℕ

pub data Data : Type 0 where
  cname : Text → Data
  a : ℕ → Data
  aaaa : ℕ → Data

pub record Row : Type 0 where
  pub name : Text
  pub ttl : ℕ
  pub rdata : Data

pub data Message : Type 0 where
  answers : List Row → Message
  failure : ℕ → Message

abbrev send : List Message → Message → List Message × Result (Unit {0}) ℕ
send sent message = (sent ++ message ∷ [], ok 0)

abbrev is_one : ℕ → Bool
is_one e = e == 1

abbrev pub toy : Hickory
toy = record {
  Request = Query;
  OpCode = ℕ;
  MessageType = ℕ;
  LowerName = Text;
  RecordType = ℕ;
  ProtoError = Unit {0};
  op_code = λ q. q.op;
  same_op_code = λ x y. x == y;
  op_query = 0;
  message_type = λ q. q.kind;
  same_message_type = λ x y. x == y;
  message_query = 0;
  request_info = λ q. ok (q.name, q.query_type);
  display_name = λ n. n;
  display_type = λ t. t ∷ [];
  same_record_type = λ x y. x == y;
  type_a = 1;
  type_aaaa = 28;
  Name = Text;
  RData = Data;
  Record = Row;
  name_from_utf8 = λ n. ok n;
  name_of_lower = λ n. n;
  rdata_cname = cname;
  rdata_a = a;
  rdata_aaaa = aaaa;
  from_rdata = λ n ttl d. record { name = n; ttl = ttl; rdata = d };
  ResponseCode = ℕ;
  refused = 5;
  serv_fail = 2;
  nx_domain = 3;
  Response = Message;
  build = λ q rows. answers rows;
  error_msg = λ q code. failure code;
  ResponseInfo = ℕ;
  info_of_code = λ code. code;
  Responder = List Message;
  IoError = Unit {0};
  send_response = send;
  ResolveError = ℕ;
  is_nx_domain = is_one;
  is_no_records_found = λ e. true;
  display_resolve_error = λ e. e ∷ [];
  display_proto_error = λ e. [];
  display_io_error = λ e. [];
}

abbrev pub ask : Text → ℕ → Query
ask name query_type = record { op = 0; kind = 0; name = name; query_type = query_type }

abbrev pub address : Text → ℕ → Row
address name ip = record { name = name; ttl = 300; rdata = a ip }

-- Upstream servers that know one address for every name.
abbrev pub upstream : Text → ℕ → Result ℕ (List Row)
upstream name query_type = ok (address name 7 ∷ [])
