-- ===== src/Handler/Server/Flow.antt =====
-- What `handle_request` of src/handler.rs sends and logs for a request.
use bancuh_dns.Prelude.{◌≡◌, refl, Bool, true, false, Option, some, List, Result, ok, err}
use bancuh_dns.Text.{Text}
use bancuh_dns.Address.{IpAddr}
use bancuh_dns.Db.{AdblockDb}
use bancuh_dns.Db.Interface.{Rocks}
use bancuh_dns.Engine.{EngineError}
use bancuh_dns.Hickory.{Hickory}
use bancuh_dns.Resolver.{Upstream}
use bancuh_dns.QueryLog.{insert}
use bancuh_dns.RateLimiter.{mask_ip}
use bancuh_dns.Handler.Errors.{of_io_error}
use bancuh_dns.Handler.Query.{do_handle_request}
use bancuh_dns.Handler.Query.Steps.{Outcome}
use bancuh_dns.Handler.Query.Traffic.{Sent, nothing, answered, broken, do_handle_request-Sent}
use bancuh_dns.Handler.Server.{
  Server, Clock, check_limit, Reply, info_or_serv_fail, finish, handle_request, normalize_ip,
}

module _ (r : Rocks) (L : Type 0) (h : Hickory)
    (display_engine_error : EngineError r.Error L → Text) {Limiter : Type 0}
    (check_key : Limiter → IpAddr → Limiter × Bool) where
  open h use {Request, Responder, Record, ResponseInfo}

  -- What becomes of a request that is not limited: one answer is sent and logged; or nothing is logged
  -- and an error response is sent, at once or after one answer that could not be sent.
  pub data Traffic (server : Server Limiter) (src_ip : IpAddr) (clock : Clock) (request : Request)
      (responder : Responder) : Reply r L h display_engine_error check_key → Type 0 where
    logged :
        (records : List Record) (question label : Text) {responder' : Responder}
        {info : ResponseInfo}
        → h.send_response responder (h.build request records) ≡ (responder', ok info)
        → Traffic server src_ip clock request responder (
          record server {
            query_log =
                insert server.query_log src_ip
                  (record { query_time = clock.query_time; question = question; answer = label })
                  clock.now;
          },
          responder',
          info,
        )
    failed :
        (code : h.ResponseCode) {responder' : Responder} {res : Result h.IoError ResponseInfo}
        → h.send_response responder (h.error_msg request code) ≡ (responder', res)
        → Traffic server src_ip clock request responder
            (server, responder', info_or_serv_fail r L h display_engine_error check_key res)
    resent :
        (records : List Record) (e : h.IoError) {midway responder' : Responder}
        {res : Result h.IoError ResponseInfo}
        → h.send_response responder (h.build request records) ≡ (midway, err e)
        → h.send_response midway (h.error_msg request h.serv_fail) ≡ (responder', res)
        → Traffic server src_ip clock request responder
            (server, responder', info_or_serv_fail r L h display_engine_error check_key res)

  pub finish-Traffic :
      (server : Server Limiter) (src_ip : IpAddr) (clock : Clock) (request : Request)
      (responder : Responder) {outcome : Outcome h}
      → Sent h request responder outcome
      → Traffic server src_ip clock request responder
          (finish r L h display_engine_error check_key server src_ip clock request outcome)
  unfolding finish of_io_error
  finish-Traffic server src_ip clock request responder (nothing e) = failed e.code refl
  finish-Traffic server src_ip clock request responder (answered records question label sent) =
      logged records question label sent
  finish-Traffic server src_ip clock request responder (broken records e sent) =
      resent records e sent refl

  module _ (checks : Bool) (server : Server Limiter) (db db' : AdblockDb r.Db)
      (upstream : Upstream h) (clock : Clock) (request : Request) (src : IpAddr)
      (responder : Responder) {key : IpAddr} {limiter : Option Limiter}
      (masked : mask_ip checks
          (normalize_ip src)
          server.rate_limit_ipv4_prefix
          server.rate_limit_ipv6_prefix
        ≡ some key) where
    -- A request over the limit gets no response, and only the limiter changes.
    pub limited_request :
        check_limit check_key server.rate_limiter key ≡ (limiter, true)
        → handle_request r L h display_engine_error check_key checks server db db' upstream clock
            request src responder
          ≡ some (record server { rate_limiter = limiter }, responder, h.info_of_code h.refused)
    unfolding handle_request
    limited_request over = rw (handle_request, masked, over)

    -- A request within the limit is handled to the end, with one answer that is sent and logged,
    -- or with an error response, at once or after one answer that could not be sent, and nothing
    -- logged.
    pub admitted_request :
        check_limit check_key server.rate_limiter key ≡ (limiter, false)
        → (reply : Reply r L h display_engine_error check_key) × (handle_request r L h
              display_engine_error check_key checks server db db' upstream clock request src
              responder
            ≡ some reply)
          × Traffic
              (record server { rate_limiter = limiter })
              (normalize_ip src)
              clock
              request
              responder
              reply
    unfolding handle_request
    admitted_request within = (
      finish r L h display_engine_error check_key (record server { rate_limiter = limiter })
          (normalize_ip src) clock request
          (do_handle_request r L h display_engine_error db db' upstream request responder),
      rw (handle_request, masked, within),
      finish-Traffic (record server { rate_limiter = limiter }) (normalize_ip src) clock request
          responder
          (do_handle_request-Sent r L h display_engine_error request responder db db' upstream),
    )
