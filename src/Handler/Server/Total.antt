-- ===== src/Handler/Server/Total.antt =====
-- What `handle_request` of src/handler.rs does with any request, with the shifts of src/rate_limiter.rs.
use bancuh_dns.Prelude.{
  ◌/◌, ◌^◌, ◌<◌, ◌==◌, ◌≡◌, refl, Bool, true, false, Option, none, some, not, Bool-cases, inl, inr,
  arith,
}
use bancuh_dns.Text.{Text}
use bancuh_dns.Address.{IpAddr, v4, v6, IsAddress}
use bancuh_dns.Db.{AdblockDb}
use bancuh_dns.Db.Interface.{Rocks}
use bancuh_dns.Engine.{EngineError}
use bancuh_dns.Hickory.{Hickory}
use bancuh_dns.Resolver.{Upstream}
use bancuh_dns.RateLimiter.Mask.{mask_ip_lem, network_of}
use bancuh_dns.RateLimiter.{mask_ip}
use bancuh_dns.Handler.Server.Flow.{Traffic, limited_request, admitted_request}
use bancuh_dns.Handler.Server.{Server, Clock, Reply, check_limit, handle_request, normalize_ip}

pub normalize_ip-IsAddress : (ip : IpAddr) → IsAddress ip → IsAddress (normalize_ip ip)
unfolding normalize_ip
normalize_ip-IsAddress (v4 bits) h = h
normalize_ip-IsAddress (v6 bits) h = elim (Bool-cases (bits / 2 ^ 32 == 0xffff)) [
  | inl e ↦ rw (normalize_ip, IsAddress, e) (omega arith)
  | inr e ↦ rw (normalize_ip, IsAddress, e) h
]

module _ (r : Rocks) (L : Type 0) (h : Hickory)
    (display_engine_error : EngineError r.Error L → Text) {Limiter : Type 0}
    (check_key : Limiter → IpAddr → Limiter × Bool) where
  open h use {Request, Responder}

  abbrev IsDecided :
      Server Limiter
      → IpAddr
      → Clock
      → Request
      → Responder
      → Option Limiter × Bool
      → Reply r L h display_engine_error check_key
      → Type 0
  IsDecided server src_ip clock request responder (limiter, true) reply =
      reply ≡ (record server { rate_limiter = limiter }, responder, h.info_of_code h.refused)
  IsDecided server src_ip clock request responder (limiter, false) reply =
      Traffic r L h display_engine_error check_key (record server { rate_limiter = limiter }) src_ip
        clock request responder reply

  -- What is asked of the reply to a request, by what the limiter says of its key: it may pass, and there
  -- is traffic of one of the three kinds; or it may not, nothing is sent or logged, and only the limiter
  -- changes.
  abbrev pub IsJudged :
      Server Limiter
      → IpAddr
      → Clock
      → Request
      → Responder
      → Limiter × Bool
      → Reply r L h display_engine_error check_key
      → Type 0
  IsJudged server src_ip clock request responder (limiter, true) reply =
      Traffic r L h display_engine_error check_key (record server { rate_limiter = some limiter })
        src_ip clock request responder reply
  IsJudged server src_ip clock request responder (limiter, false) reply =
      reply ≡ (record server { rate_limiter = some limiter }, responder, h.info_of_code h.refused)

  -- Without a limiter every request may pass.
  abbrev pub IsHandled :
      Server Limiter
      → IpAddr
      → Clock
      → Request
      → Responder
      → Option Limiter
      → IpAddr
      → Reply r L h display_engine_error check_key
      → Type 0
  IsHandled server src_ip clock request responder none key reply =
      Traffic r L h display_engine_error check_key (record server { rate_limiter = none }) src_ip
        clock request responder reply
  IsHandled server src_ip clock request responder (some limiter) key reply =
      IsJudged server src_ip clock request responder (check_key limiter key) reply

  IsJudged-of_decided :
      (server : Server Limiter) (src_ip : IpAddr) (clock : Clock) (request : Request)
      (responder : Responder) (reply : Reply r L h display_engine_error check_key)
      (verdict : Limiter × Bool)
      → IsDecided server src_ip clock request responder (some verdict.0, not verdict.1) reply
      → IsJudged server src_ip clock request responder verdict reply
  IsJudged-of_decided server src_ip clock request responder reply (limiter, true) d = d
  IsJudged-of_decided server src_ip clock request responder reply (limiter, false) d = d

  IsHandled-of_decided :
      (server : Server Limiter) (src_ip : IpAddr) (clock : Clock) (request : Request)
      (responder : Responder) (reply : Reply r L h display_engine_error check_key)
      (limiter : Option Limiter) (key : IpAddr)
      → IsDecided server src_ip clock request responder (check_limit check_key limiter key) reply
      → IsHandled server src_ip clock request responder limiter key reply
  IsHandled-of_decided server src_ip clock request responder reply none key d = d
  IsHandled-of_decided server src_ip clock request responder reply (some limiter) key d =
      IsJudged-of_decided server src_ip clock request responder reply (check_key limiter key) d

  -- With prefixes of at least 1, no request from any address makes the handler panic, in builds with
  -- and without overflow checks. The limiter is asked for the network of the client, if there is one. A request
  -- over the limit is dropped: nothing is sent or logged, and only the limiter changes. Any other is
  -- handled to the end, with one answer that is sent and logged, or an error response and no log.
  pub handle_request_total :
      (checks : Bool) (server : Server Limiter) (db db' : AdblockDb r.Db) (upstream : Upstream h)
      (clock : Clock) (request : Request) (src : IpAddr) (responder : Responder)
      → IsAddress src
      → 0 < server.rate_limit_ipv4_prefix
      → 0 < server.rate_limit_ipv6_prefix
      → (reply : Reply r L h display_engine_error check_key) × (handle_request r L h
            display_engine_error check_key checks server db db' upstream clock request src responder
          ≡ some reply)
        × IsHandled server
            (normalize_ip src)
            clock
            request
            responder
            server.rate_limiter
            (network_of
              (normalize_ip src)
              server.rate_limit_ipv4_prefix
              server.rate_limit_ipv6_prefix)
            reply
  handle_request_total checks server db db' upstream clock request src responder a p q =
      let masked =
        mask_ip_lem checks (normalize_ip src) server.rate_limit_ipv4_prefix
          server.rate_limit_ipv6_prefix (normalize_ip-IsAddress src a) p q in
      let (reply, done, d) =
        decided masked
          (check_limit check_key server.rate_limiter (
            network_of (normalize_ip src) server.rate_limit_ipv4_prefix
              server.rate_limit_ipv6_prefix))
          refl in
      (
        reply,
        done,
        IsHandled-of_decided server (normalize_ip src) clock request responder reply
            server.rate_limiter _ d,
      )
    where
      decided :
          {key : IpAddr}
          → mask_ip checks
              (normalize_ip src)
              server.rate_limit_ipv4_prefix
              server.rate_limit_ipv6_prefix
            ≡ some key
          → (verdict : Option Limiter × Bool)
          → check_limit check_key server.rate_limiter key ≡ verdict
          → (reply : Reply r L h display_engine_error check_key) × (handle_request r L h
                display_engine_error check_key checks server db db' upstream clock request src
                responder
              ≡ some reply)
            × IsDecided server (normalize_ip src) clock request responder verdict reply
      decided masked (limiter, true) over = (
        _,
        limited_request r L h display_engine_error check_key checks server db db' upstream clock
            request src responder masked over,
        refl,
      )
      decided masked (limiter, false) within =
          admitted_request r L h display_engine_error check_key checks server db db' upstream clock
            request src responder masked within
