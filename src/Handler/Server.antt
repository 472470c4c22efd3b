-- ===== src/Handler/Server.antt =====
-- src/handler.rs: `handle_request` around the answer to a request: the rate limit before it, and the
-- query log or the error response after it.
pub mod Flow
pub mod Total
use bancuh_dns.Prelude.{ℕ, Bool, false, not, Option, none, some, Result, ok, err, if◌then◌else◌}
use bancuh_dns.Text.{Text}
use bancuh_dns.Address.{IpAddr, v4, v6, to_ipv4_mapped}
use bancuh_dns.Db.{AdblockDb}
use bancuh_dns.Db.Interface.{Rocks}
use bancuh_dns.Engine.{EngineError}
use bancuh_dns.Hickory.{Hickory}
use bancuh_dns.Resolver.{Upstream}
use bancuh_dns.QueryLog.{QueryLogStore, insert}
use bancuh_dns.RateLimiter.{mask_ip}
use bancuh_dns.Handler.Errors.{Failure}
use bancuh_dns.Handler.Query.{do_handle_request}

-- `normalize_ip`
unfoldable pub normalize_ip : IpAddr → IpAddr
normalize_ip (v4 bits) = v4 bits
normalize_ip (v6 bits) = elim (to_ipv4_mapped bits) [ none ↦ v6 bits | some b ↦ v4 b ]

-- What the handler keeps between requests; the rate limiter, if there is one, is governor's.
pub record Server (Limiter : Type 0) : Type 0 where
  pub query_log : QueryLogStore
  pub rate_limiter : Option Limiter
  pub rate_limit_ipv4_prefix : ℕ
  pub rate_limit_ipv6_prefix : ℕ

-- The clock at the creation of the log entry and at its insertion.
pub record Clock : Type 0 where
  pub query_time : ℕ
  pub now : ℕ

-- `rl.check_key(&rate_key).is_err()`, where `check_key` says whether a request may pass.
abbrev pub check_limit :
    {Limiter : Type 0} (check_key : Limiter → IpAddr → Limiter × Bool)
    → Option Limiter
    → IpAddr
    → Option Limiter × Bool
check_limit check_key none key = (none, false)
check_limit check_key (some limiter) key =
    let (limiter', allowed) = check_key limiter key in (some limiter', not allowed)

module _ (r : Rocks) (L : Type 0) (h : Hickory)
    (display_engine_error : EngineError r.Error L → Text) {Limiter : Type 0}
    (check_key : Limiter → IpAddr → Limiter × Bool) where
  open h use {Request, Responder, ResponseInfo}

  abbrev pub Reply : Type 0
  Reply = Server Limiter × Responder × ResponseInfo

  abbrev pub info_or_serv_fail : Result h.IoError ResponseInfo → ResponseInfo
  info_or_serv_fail (ok info) = info
  info_or_serv_fail (err e) = h.info_of_code h.serv_fail

  -- The `match` on the result: an answer is logged, an error is sent.
  unfoldable pub finish :
      Server Limiter
      → IpAddr
      → Clock
      → Request
      → Responder × Result (Failure h) (ResponseInfo × Text × Text)
      → Reply
  finish server src_ip clock request (responder, ok (info, question, answer)) = (
    record server {
      query_log =
          insert server.query_log src_ip
            (record { query_time = clock.query_time; question = question; answer = answer })
            clock.now;
    },
    responder,
    info,
  )
  finish server src_ip clock request (responder, err e) =
      let (responder', res) = h.send_response responder (h.error_msg request e.code) in
      (server, responder', info_or_serv_fail res)

  -- `handle_request`, from the source address of the request; `checks` says whether the build has
  -- overflow checks, and `none` is a panic.
  unfoldable pub handle_request :
      Bool
      → Server Limiter
      → AdblockDb r.Db
      → AdblockDb r.Db
      → Upstream h
      → Clock
      → Request
      → IpAddr
      → Responder
      → Option Reply
  unfolding finish
  handle_request checks server db db' upstream clock request src responder =
      let src_ip = normalize_ip src in
      elim (mask_ip checks src_ip server.rate_limit_ipv4_prefix server.rate_limit_ipv6_prefix) [
        | none ↦ none
        | some rate_key ↦
            let (limiter, limited) = check_limit check_key server.rate_limiter rate_key in
            let server' : Server Limiter = record server { rate_limiter = limiter } in
            some (
              if limited
              then (server', responder, h.info_of_code h.refused)
              else finish server' src_ip clock request
                  (do_handle_request r L h display_engine_error db db' upstream request responder))
      ]
