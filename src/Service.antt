-- ===== src/Service.antt =====
-- The DNS service as a whole: src/handler.rs with many requests at a time, and the updates of
-- src/engine.rs that src/main.rs makes beside them. A request takes four steps, with others between
-- them: its arrival, with the rate limit; the two loads of the engine's database; and the answer, with
-- the upstream servers, the response and the log.
pub mod Steps
pub mod Databases
pub mod Judged
pub mod Blocked
pub mod Passed
pub mod Log
pub mod Replies
pub mod Sample
mod Tests
use bancuh_dns.Prelude.{
  ◌≡◌, ◌⊎◌, refl, inl, inr, ℕ, Bool, Result, none, some, List, [], ◌∷◌, if◌then◌else◌, get_elem?,
  set, remove_at,
}
use bancuh_dns.Text.{Text}
use bancuh_dns.Address.{IpAddr}
use bancuh_dns.Db.{AdblockDb}
use bancuh_dns.Db.Interface.{Rocks}
use bancuh_dns.Db.Lifetime.{Disk}
use bancuh_dns.Fetch.{Io}
use bancuh_dns.Config.{Locations, FileOrUrl}
use bancuh_dns.Parser.{Crates}
use bancuh_dns.Engine.{EngineError}
use bancuh_dns.Engine.Update.{AdblockEngine, LoadError, run_update}
use bancuh_dns.Hickory.{Hickory}
use bancuh_dns.Resolver.{Upstream}
use bancuh_dns.RateLimiter.{mask_ip}
use bancuh_dns.Handler.Query.{do_handle_request}
use bancuh_dns.Handler.Server.{Server, Clock, Reply, check_limit, finish, normalize_ip}

-- What an update finds: the web and the files as they are at that time, and the engine's URL.
pub record Sources : Type 1 where
  pub io : Io
  pub at : Locations io
  pub finishes : Text → Bool
  pub config_url : FileOrUrl io

-- How far a request has come, with the databases that it has loaded: it is within the limit, and loads
-- one for the rewrites and one for the block lists.
pub data Progress (Db : Type 0) : Type 0 where
  limited : Progress Db
  once : AdblockDb Db → Progress Db
  twice : AdblockDb Db → AdblockDb Db → Progress Db

pub Progress-cases :
    {Db : Type 0} (p : Progress Db)
    → (p ≡ limited)
      ⊎ ((db : AdblockDb Db) × (p ≡ once db))
      ⊎ ((db : AdblockDb Db) × (db' : AdblockDb Db) × (p ≡ twice db db'))
Progress-cases limited = inl refl
Progress-cases (once db) = inr (inl (db, refl))
Progress-cases (twice db db') = inr (inr (db, db', refl))

-- What the service runs on: the crates, the stores and the disk, the DNS library, the rate limiter, and
-- whether the build checks for overflow.
pub record Setting : Type 1 where
  pub crates : Crates
  pub r : Rocks
  pub disk : Disk r
  pub L : Type 0
  pub h : Hickory
  pub display_engine_error : EngineError r.Error L → Text
  pub Limiter : Type 0
  pub check_key : Limiter → IpAddr → Limiter × Bool
  pub checks : Bool

module _ (setting : Setting) where
  open setting use {crates, r, disk, L, h, display_engine_error, Limiter, check_key, checks}
  open h use {Request, Responder, ResponseInfo}

  -- A request that is being handled.
  pub record Call : Type 0 where
    pub src_ip : IpAddr
    pub request : Request
    pub responder : Responder
    pub progress : Progress r.Db

  -- A request as it arrived.
  pub record Asked : Type 0 where
    pub src_ip : IpAddr
    pub request : Request
    pub responder : Responder

  abbrev pub asked : Call → Asked
  asked c = record { src_ip = c.src_ip; request = c.request; responder = c.responder }

  -- `dropped` and `replied` are for statements, the latest first: the requests over the limit, to which
  -- nothing is sent, and those that have been handled, with the responder and what `handle_request`
  -- returned.
  pub record Service : Type 0 where
    pub db : AdblockDb r.Db
    pub world : disk.World
    pub server : Server Limiter
    pub calls : List Call
    pub dropped : List Asked
    pub replied : List (Asked × Responder × ResponseInfo)

  pub data Event : Type 1 where
    updates : Sources → Text × Text × Text → Event
    arrives : Request → IpAddr → Responder → Event
    loads_first : ℕ → Event
    loads_again : ℕ → Event
    answers : ℕ → Upstream h → Clock → Event

  -- The end of a request: it has been handled, and the other calls go on.
  abbrev pub settle :
      Service → Asked → List Call → Reply r L h display_engine_error check_key → Service
  settle v done calls reply = record v {
    server = reply.0;
    calls = calls;
    replied = (done, reply.1, reply.2) ∷ v.replied;
  }

  -- `run_update` of the engine with a current database.
  abbrev pub attempt :
      (s : Sources)
      → Text × Text × Text
      → AdblockDb r.Db
      → disk.World
      → AdblockEngine s.io r.Db
        × disk.World
        × Result (EngineError r.Error (LoadError s.at crates s.finishes r disk)) (Unit {0})
  attempt s random db w =
      run_update s.at crates s.finishes r disk random
        (record { db = db; config_url = s.config_url }) w

  -- `cloned_engine.run_update().await`, whose error is only logged.
  unfoldable pub update : Sources → Text × Text × Text → Service → Service
  update s random v =
      let after = attempt s random v.db v.world in record v { db = after.0.db; world = after.1 }

  -- The rate limit of `handle_request`; a panic of `mask_ip` ends the request.
  unfoldable pub arrive : Request → IpAddr → Responder → Service → Service
  arrive request src responder v =
      let src_ip = normalize_ip src in
      elim (mask_ip checks src_ip v.server.rate_limit_ipv4_prefix v.server.rate_limit_ipv6_prefix) [
        | none ↦ v
        | some rate_key ↦
            let (limiter, over) = check_limit check_key v.server.rate_limiter rate_key in
            let server' : Server Limiter = record v.server { rate_limiter = limiter } in
            let call : Call = record {
              src_ip = src_ip;
              request = request;
              responder = responder;
              progress = limited;
            } in
            if over
            then record v { server = server'; dropped = asked call ∷ v.dropped }
            else record v { server = server'; calls = call ∷ v.calls }
      ]

  -- The load of the database by `get_redirect`.
  unfoldable pub load_first : ℕ → Service → Service
  load_first k v = elim (get_elem? v.calls k) [
    | none ↦ v
    | some c ↦ elim c.progress [
      | limited ↦ record v { calls = set v.calls k (record c { progress = once v.db }) }
      | once db ↦ v
      | twice db db' ↦ v
    ]
  ]

  -- The load of the database by `is_blocked`.
  unfoldable pub load_again : ℕ → Service → Service
  load_again k v = elim (get_elem? v.calls k) [
    | none ↦ v
    | some c ↦ elim c.progress [
      | limited ↦ v
      | once db ↦ record v { calls = set v.calls k (record c { progress = twice db v.db }) }
      | twice db db' ↦ v
    ]
  ]

  -- The rest of `handle_request`.
  unfoldable pub answer : ℕ → Upstream h → Clock → Service → Service
  answer k upstream clock v = elim (get_elem? v.calls k) [
    | none ↦ v
    | some c ↦ elim c.progress [
      | limited ↦ v
      | once db ↦ v
      | twice db db' ↦ settle v (asked c) (remove_at v.calls k) (
          finish r L h display_engine_error check_key v.server c.src_ip clock c.request
            (do_handle_request r L h display_engine_error db db' upstream c.request c.responder))
    ]
  ]

  unfoldable pub step : Event → Service → Service
  unfolding update arrive load_first load_again answer
  step (updates s random) = update s random
  step (arrives request src responder) = arrive request src responder
  step (loads_first k) = load_first k
  step (loads_again k) = load_again k
  step (answers k upstream clock) = answer k upstream clock

  -- The latest event first.
  abbrev pub run : Service → List Event → Service
  run v [] = v
  run v (e ∷ es) = step e (run v es)
