-- ===== src/Service/Replies.antt =====
-- What becomes of the requests of Service.antt, with the handler of src/handler.rs: those that are being
-- handled, those that have been replied to, and those over the limit.
use mathlib.Core.List.{Perm}
use mathlib.Core.List.Perm
use bancuh_dns.Prelude.{◌<◌, ◌≡◌, true, map, ◌++◌, List, [], ◌∷◌, All}
use bancuh_dns.Text.{Text}
use bancuh_dns.Handler.Server.{Server, Clock, check_limit, normalize_ip}
use bancuh_dns.Address.{IsAddress}
use bancuh_dns.RateLimiter.Mask.{network_of}
use bancuh_dns.Handler.Server.Flow.{Traffic}
use bancuh_dns.Service.{
  Setting, Service, Asked, asked, Event, updates, arrives, loads_first, loads_again, answers,
}

module _ (setting : Setting) where
  open setting use {crates, r, disk, L, h, display_engine_error, Limiter, check_key, checks}
  open h use {Request, Responder, LowerName, RecordType}

  abbrev pub arrivals : List (Event setting) → List (Asked setting)
  arrivals [] = []
  arrivals (updates s random ∷ es) = arrivals es
  arrivals (arrives request src responder ∷ es) =
      record { src_ip = normalize_ip src; request = request; responder = responder } ∷ arrivals es
  arrivals (loads_first k ∷ es) = arrivals es
  arrivals (loads_again k ∷ es) = arrivals es
  arrivals (answers k upstream clock ∷ es) = arrivals es

  abbrev pub FromAddress : Event setting → Type 0
  FromAddress (updates s random) = Unit
  FromAddress (arrives request src responder) = IsAddress src
  FromAddress (loads_first k) = Unit
  FromAddress (loads_again k) = Unit
  FromAddress (answers k upstream clock) = Unit

  -- Rate-limit prefixes with which no mask panics.
  abbrev pub IsPositive : Server Limiter → Type 0
  IsPositive server = (0 < server.rate_limit_ipv4_prefix) × (0 < server.rate_limit_ipv6_prefix)

  -- The requests that are being handled, that have been replied to, and that were dropped.
  abbrev pub requests : Service setting → List (Asked setting)
  requests v = map (asked setting) v.calls ++ (map (λ x. x.0) v.replied ++ v.dropped)

  -- A reply to this request, over its own responder: one answer that was sent and logged, or an error.
  abbrev pub IsReply : Asked setting × Responder × h.ResponseInfo → Type 0
  IsReply (a, responder, info) =
      (server : Server Limiter) × (server' : Server Limiter) × (clock : Clock) × Traffic r L h
        display_engine_error check_key server a.src_ip clock a.request a.responder
        (server', responder, info)

  -- The limiter refused the network of the client.
  abbrev pub IsOver : Asked setting → Type 0
  IsOver a =
      (server : Server Limiter) × ((check_limit check_key server.rate_limiter
          (network_of a.src_ip server.rate_limit_ipv4_prefix server.rate_limit_ipv6_prefix)).1
        ≡ true)

  -- Every reply is to its request, and every request that was dropped was over the limit.
  abbrev pub IsHonest : Service setting → Type 0
  IsHonest v = All IsReply v.replied × All IsOver v.dropped

  -- What a step does to the requests, to the prefixes and to the replies.
  abbrev Keeps : List (Asked setting) → Service setting → Service setting → Type 0
  Keeps new v w =
      Perm (requests w) (new ++ requests v) × IsPositive w.server × (IsHonest v → IsHonest w)
