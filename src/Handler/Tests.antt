-- ===== src/Handler/Tests.antt =====
-- The handler of src/handler.rs on concrete requests.
use bancuh_dns.Prelude.{
  ℕ, zero, suc, ◌≡◌, refl, inl, inr, Bool, true, false, some, List, [], ◌∷◌, ◌++◌, Result, ok, err,
}
use bancuh_dns.Text.{Text, codes, split, join}
use bancuh_dns.Text.Utf8.{from_utf8}
use bancuh_dns.Address.{IpAddr, v4}
use bancuh_dns.Db.{contains}
use bancuh_dns.Db.Lookup.{below, exact, answer_iff}
use bancuh_dns.Db.Memory.{memory, lookup}
use bancuh_dns.Engine.{EngineError, is_blocked, get_redirect}
use bancuh_dns.Engine.Verdict.{Listed}
use bancuh_dns.Engine.Sample.{
  black, white, ads, example, database, database-IsServing, x_ads-IsName, ok_ads-IsName,
  bing-IsName,
}
use bancuh_dns.Resolver
use bancuh_dns.QueryLog
use bancuh_dns.QueryLog.{insert}
use bancuh_dns.RateLimiter.{mask_ip}
use bancuh_dns.Handler.Query.{do_handle_request}
use bancuh_dns.Handler.Query.Steps.{Accepted}
use bancuh_dns.Handler.Query.Answers.{blocked_answer, passed_answer, rewritten_answer}
use bancuh_dns.Handler.Query.Privacy.{do_handle_request-asked}
use bancuh_dns.Handler.Server.{Server, Clock, Reply, handle_request, normalize_ip}
use bancuh_dns.Handler.Server.Total.{handle_request_total}
use bancuh_dns.Prelude.{◌*◌, ◌+◌, ◌^◌, arith}
use bancuh_dns.Address.{v6}
use bancuh_dns.Handler.Server.Flow.{Traffic, limited_request, admitted_request}
use bancuh_dns.Handler.Toy.{Row, answers, cname, a, toy, ask, address, upstream}

abbrev shown : EngineError (Unit {0}) (Unit {0}) → Text
shown e = []

abbrev x_ads : Text
x_ads = codes "x.ads.example."

abbrev question : Text → ℕ → Text
question name query_type = name ++ (codes " " ++ query_type ∷ [])

accepted : (name : Text) (query_type : ℕ) → Accepted toy (ask name query_type) name query_type
accepted name query_type = record { op_query = refl; message_query = refl; question = refl }

listed : Listed memory (Unit {0}) black (codes "x" ∷ ads)
listed = (below ads, inl refl, λ e. cc)

not_spared : ¬ Listed memory (Unit {0}) white (codes "x" ∷ ads)
not_spared found = cc ((answer_iff (lookup white) (codes "x") ads).1 found)

blocked_answer_example :
    do_handle_request memory Unit toy shown database database upstream (ask x_ads 1) [] ≡ (
      answers (record { name = x_ads; ttl = 60; rdata = a 0 } ∷ []) ∷ [],
      ok (0, question x_ads 1, codes "blocked"),
    )
blocked_answer_example =
    blocked_answer memory Unit toy shown upstream (codes "x") ads (accepted x_ads 1) refl
      x_ads-IsName database-IsServing database-IsServing [] refl listed not_spared

abbrev ok_ads : Text
ok_ads = codes "ok.ads.example."

passed_answer_example :
    do_handle_request memory Unit toy shown database database upstream (ask ok_ads 1) []
    ≡ (answers (address ok_ads 7 ∷ []) ∷ [], ok (0, question ok_ads 1, codes "forwarded"))
unfolding Resolver.lookup
passed_answer_example =
    passed_answer memory Unit toy shown upstream (codes "ok") ads (accepted ok_ads 1) refl
      ok_ads-IsName database-IsServing database-IsServing [] refl
      (inr (exact (codes "ok" ∷ ads), refl, λ e. cc))

abbrev bing : Text
bing = codes "bing.example."

abbrev strict : Text
strict = codes "strict.example."

rewritten_answer_example :
    do_handle_request memory Unit toy shown database database upstream (ask bing 1) [] ≡ (
      answers (record { name = bing; ttl = 60; rdata = cname strict } ∷ address strict 7 ∷ []) ∷ [],
      ok (0, question bing 1, codes "rewritten: " ++ strict),
    )
unfolding Resolver.lookup
rewritten_answer_example =
    rewritten_answer memory Unit toy shown upstream database (codes "bing") example strict []
      (accepted bing 1) refl bing-IsName database-IsServing refl

-- Servers that fail for every name: a blocked query does not notice.
abbrev down : Text → ℕ → Result ℕ (List Row)
down name query_type = err 1

do_handle_request-asked_example :
    do_handle_request memory Unit toy shown database database upstream (ask x_ads 1) []
    ≡ do_handle_request memory Unit toy shown database database down (ask x_ads 1) []
unfolding is_blocked get_redirect contains split join from_utf8
do_handle_request-asked_example =
    do_handle_request-asked memory Unit toy shown database database upstream down (ask x_ads 1) []
      x_ads 1 refl tt

-- A limiter that lets a number of requests through.
abbrev spend : ℕ → IpAddr → ℕ × Bool
spend zero key = (0, false)
spend (suc n) key = (n, true)

abbrev server : ℕ → Server ℕ
server tokens = record {
  query_log = QueryLog.new;
  rate_limiter = some tokens;
  rate_limit_ipv4_prefix = 32;
  rate_limit_ipv6_prefix = 48;
}

abbrev clock : Clock
clock = record { query_time = 1000; now = 1001 }

over_limit :
    handle_request memory Unit toy shown spend false
      (server 0)
      database
      database
      upstream
      clock
      (ask x_ads 1)
      (v4 9)
      []
    ≡ some (server 0, [], 5)
unfolding mask_ip normalize_ip
over_limit =
    limited_request memory Unit toy shown spend false (server 0) database database upstream clock
      (ask x_ads 1) (v4 9) [] refl refl

admitted_request_example :
    (reply : Reply memory Unit toy shown spend) × (handle_request memory Unit toy shown spend false
        (server 1)
        database
        database
        upstream
        clock
        (ask x_ads 1)
        (v4 9)
        []
      ≡ some reply)
    × Traffic memory Unit toy shown spend
        (server 0)
        (normalize_ip (v4 9))
        clock
        (ask x_ads 1)
        []
        reply
unfolding mask_ip normalize_ip
admitted_request_example =
    admitted_request memory Unit toy shown spend false (server 1) database database upstream clock
      (ask x_ads 1) (v4 9) [] refl refl

-- A mapped address, with overflow checks.
handle_request_total_example :
    (reply : Reply memory Unit toy shown spend) × (handle_request memory Unit toy shown spend true
        (server 1)
        database
        database
        upstream
        clock
        (ask x_ads 1)
        (v6 (0xffff * 2 ^ 32 + 9))
        []
      ≡ some reply)
    × Traffic memory Unit toy shown spend
        (server 0)
        (normalize_ip (v6 (0xffff * 2 ^ 32 + 9)))
        clock
        (ask x_ads 1)
        []
        reply
handle_request_total_example =
    handle_request_total memory Unit toy shown spend true (server 1) database database upstream
      clock (ask x_ads 1) (v6 (0xffff * 2 ^ 32 + 9)) [] (omega arith) (omega arith) (omega arith)
