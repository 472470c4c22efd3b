-- ===== src/Service/Tests.antt =====
-- A service with toy lists (src/handler.rs): a query for a blocked name arrives before an update and is
-- answered after it.
use bancuh_dns.Prelude.{some, ℕ, ◌++◌, ◌≡◌, refl, List, ok, [], ◌∷◌}
use bancuh_dns.Text.{Text, codes}
use bancuh_dns.Text.{split, join}
use bancuh_dns.Text.Utf8.{from_utf8}
use bancuh_dns.Address.{IpAddr, v4, v6}
use bancuh_dns.Db.{contains}
use bancuh_dns.Db.Lifetime.{create}
use bancuh_dns.Fetch.{fetch}
use bancuh_dns.Config.{load, to_fetch, try_from_raw_source}
use bancuh_dns.Compiler.Sample.{plain}
use bancuh_dns.Engine.{is_blocked, get_redirect}
use bancuh_dns.Engine.Sample.{ads, example, x_ads-IsName, bing-IsName}
use bancuh_dns.Engine.Update.{run_update}
use bancuh_dns.Engine.Update.Sample.{draws, reliable}
use bancuh_dns.QueryLog.{new}
use bancuh_dns.QueryLog.History
use bancuh_dns.RateLimiter.{mask_ip}
use bancuh_dns.Handler.Toy
use bancuh_dns.Handler.Toy.{toy, ask, address, upstream, a}
use bancuh_dns.Handler.Server.{Clock, finish, normalize_ip}
use bancuh_dns.Service.{
  Asked, Event, updates, arrives, loads_first, loads_again, answers, update, step, run, settle,
}
use bancuh_dns.Resolver
use bancuh_dns.Service.Sample.Lists.{sources_block, sources_pass}
use bancuh_dns.Service.Passed.{passed_throughout, Allows}
use bancuh_dns.Service.Sample.{
  Small, sources, shown, spend, listing, setting, service, unlisted, clock, x_ads,
}
use bancuh_dns.Service.Blocked.{Refuses, blocked_throughout, blocked_since_update}

abbrev asks : Text → Asked setting
asks name = record { src_ip = v4 9; request = ask name 1; responder = [] }

abbrev events : List (Event setting)
events =
    loads_again 0 ∷ updates sources draws ∷ loads_first 0 ∷ arrives (ask x_ads 1) (v4 9) [] ∷ []

service-Refuses : Refuses setting (codes "x" ∷ ads) listing
unfolding is_blocked get_redirect contains split join from_utf8
service-Refuses = (refl, refl)

blocked_throughout_example :
    step setting (answers 0 upstream clock) (run setting service events)
    ≡ settle setting (run setting service events) (asks x_ads) [] (
        finish plain Unit toy shown spend
          (run setting service events).server
          (v4 9)
          clock
          (ask x_ads 1)
          (
            Toy.answers (record { name = x_ads; ttl = 60; rdata = a 0 } ∷ []) ∷ [],
            ok (0, x_ads ++ (codes " " ++ 1 ∷ []), codes "blocked"),
          ))
unfolding step normalize_ip mask_ip run_update load fetch to_fetch create try_from_raw_source
blocked_throughout_example =
    blocked_throughout setting service events 0 upstream clock (codes "x") ads refl service-Refuses
      (tt, ((reliable, sources_block), (tt, (tt, tt)))) refl refl
      (record { op_query = refl; message_query = refl; question = refl }) refl x_ads-IsName

abbrev after_update : List (Event setting)
after_update = loads_again 0 ∷ loads_first 0 ∷ arrives (ask x_ads 1) (v4 9) [] ∷ []

blocked_since_update_example :
    step setting
      (answers 0 upstream clock)
      (run setting (update setting sources draws unlisted) after_update)
    ≡ settle setting
        (run setting (update setting sources draws unlisted) after_update)
        (asks x_ads)
        []
        (finish plain Unit toy shown spend
          (run setting (update setting sources draws unlisted) after_update).server
          (v4 9)
          clock
          (ask x_ads 1)
          (
            Toy.answers (record { name = x_ads; ttl = 60; rdata = a 0 } ∷ []) ∷ [],
            ok (0, x_ads ++ (codes " " ++ 1 ∷ []), codes "blocked"),
          ))
unfolding update step normalize_ip mask_ip run_update load fetch to_fetch create try_from_raw_source
blocked_since_update_example =
    blocked_since_update setting unlisted sources draws after_update 0 upstream clock (codes "x")
      ads refl refl (reliable, sources_block) (tt, (tt, (tt, tt))) refl refl
      (record { op_query = refl; message_query = refl; question = refl }) refl x_ads-IsName

abbrev bing : Text
bing = codes "bing.example."

abbrev other_events : List (Event setting)
other_events =
    loads_again 0 ∷ updates sources draws ∷ loads_first 0 ∷ arrives (ask bing 1) (v4 9) [] ∷ []

listing-Allows : Allows setting (codes "bing" ∷ example) listing
unfolding is_blocked get_redirect contains split join from_utf8
listing-Allows = (refl, refl)

passed_throughout_example :
    step setting (answers 0 upstream clock) (run setting service other_events)
    ≡ settle setting (run setting service other_events) (asks bing) [] (
        finish plain Unit toy shown spend
          (run setting service other_events).server
          (v4 9)
          clock
          (ask bing 1)
          (
            Toy.answers (address bing 7 ∷ []) ∷ [],
            ok (0, bing ++ (codes " " ++ 1 ∷ []), codes "forwarded"),
          ))
unfolding step normalize_ip mask_ip run_update load fetch to_fetch create try_from_raw_source
    Resolver.lookup
passed_throughout_example =
    passed_throughout setting service other_events 0 upstream clock (codes "bing") example refl
      listing-Allows (tt, ((reliable, sources_pass), (tt, (tt, tt)))) refl refl
      (record { op_query = refl; message_query = refl; question = refl }) refl bing-IsName

-- Two queries that overlap, of which the one that is logged later read the time earlier, and one that
-- is over the limit; the log is then read over IPv6.
abbrev two_left : Small
two_left = record service {
  server = record {
    query_log = new;
    rate_limiter = some 2;
    rate_limit_ipv4_prefix = 32;
    rate_limit_ipv6_prefix = 48;
  };
}

abbrev early : Clock
early = record { query_time = 10; now = 11 }

abbrev late : Clock
late = record { query_time = 5; now = 12 }

abbrev overlapping : List (Event setting)
overlapping =
    answers 0 upstream late
    ∷ answers 0 upstream early
    ∷ loads_again 1
    ∷ loads_again 0
    ∷ arrives (ask x_ads 28) (v4 8) []
    ∷ loads_first 1
    ∷ loads_first 0
    ∷ arrives (ask x_ads 1) (v4 9) []
    ∷ arrives (ask bing 1) (v4 9) []
    ∷ []

abbrev client : IpAddr
client = v6 0xffff00000009

abbrev entry : Text → Text → ℕ → ℕ → History.Event
entry name label query_time at = record {
  ip = v4 9;
  log = record {
    query_time = query_time;
    question = name ++ (codes " " ++ 1 ∷ []);
    answer = label;
  };
  at = at;
}

-- Both queries are replied to, and the third is dropped.
one_dropped :
    (run setting two_left overlapping).dropped
    ≡ record { src_ip = v4 8; request = ask x_ads 28; responder = [] } ∷ []
unfolding step normalize_ip mask_ip
one_dropped = refl
