-- ===== src/Lib.antt =====
-- Bancuh DNS: a DNS server that blocks, rewrites or forwards queries (src/*.rs of the repository).
--
-- A request comes to the handler, which masks the client's address to a rate-limit key, asks the
-- engine for a rewrite of the name and then for a block, answers by itself or by the upstream
-- servers, and writes the query log. The engine answers from three stores of domains over RocksDB.
--
--   Text              Rust's strings as their UTF-8 bytes, and the standard library's calls on them
--   Address           std::net::IpAddr; its text (Address/Display), its parser (Parse), RoundTrip; Hex,
--                     Groups, Runs and V6 are about the text of IPv6 addresses
--   Serve             code with a state that may fail, and what is dropped where it returns early
--   Db                src/db.rs: DomainStore::put, put_alias, get, contains; Db/Lifetime has create and
--                     drop, and Db/Directories what they do to the disk.
--                     Db/Interface is RocksDB as the code uses it, a record of operations with what
--                     is promised of them; Db/Keys, Db/Lookup and Db/Update relate the keys to names as
--                     lists of labels
--   Fetch             src/fetch: FetchHttp::fetch with its retries (Fetch/Retry), FetchFile::fetch
--   Config            src/config: Config::load and the resolution of sources (Sources, Errors)
--   Parser            src/compiler/parser: parse_domain, parse_host, parse_cname
--   Compiler          src/compiler: from_config, compile; Held and Precedence are about the entries
--                     that the stores hold afterwards, Strings about their values, Effect and Typed
--                     about the engine's answers
--   Engine            src/engine.rs: AdblockEngine::get_redirect, is_blocked (Verdict), and
--                     AdblockEngine::new, run_update (Update, Update/Swap); Update/Answers joins
--                     the update with the lookups, Update/Directories with the disk
--   Hickory           the DNS library as a record of types and operations
--   Resolver          src/resolver.rs: create_resolver, Resolver::lookup
--   RateLimiter       src/rate_limiter.rs: mask_ip, new_rate_limiter
--   QueryLog          src/query_log.rs: QueryLogStore; Deque and Window are about the entries of one
--                     address, Store about the map, History about a whole run, Latest about one in
--                     which the times of the entries are in no order
--   Handler           src/handler.rs: Errors (HandlerError), Query (do_handle_request), Server
--                     (handle_request)
--   Net               src/net.rs: bind_tcp, bind_udp; Ports
--   Service           src/handler.rs with many requests at a time, and the updates beside them: Steps,
--                     Databases, Judged, Blocked, Passed, Log, Replies
--   Tls               src/tls.rs: the configuration of setup_tls, and NoVerifier
--   Bind              src/bind.rs: spawn_bind
--   Startup           src/main.rs: Args, the validation of the configuration (Backoff), and main up to
--                     its select! (Boot; Boot/Endpoints, Boot/Listens)
--   Tasks             the tasks of src/main.rs, src/tls.rs and src/admin.rs, and main from its select!
--                     on, as program counters and events; Calm, Shutdown, Left and Progress
--   Admin             src/admin.rs: get_logs_api, get_logs_html, html_escape; Escape, Stripped, Own,
--                     Markup
--
-- Modules named Tests hold tests and instances; Db/Memory, Engine/Sample and Handler/Toy are the
-- concrete parameters of those, as are Db/Rooted, Compiler/Sample, Engine/Update/Sample, Service/Sample
-- and Net/Toy.
--
-- RocksDB, hickory, governor, reqwest, the regex, addr, idna, url and serde_yaml crates, the file
-- system, the clock and the upstream servers are parameters. A mutex or an atomic swap is a single
-- step; the handler is given the engine's database twice, as it was at the two loads. In Service a request
-- is four steps: its arrival with the rate limit, the two loads, and the rest. An update is one step,
-- in which the old database is dropped as it is swapped out; the program waits for its last reader
-- with that, and what a reader has loaded stays as it is in either. The loops are recursions on a list
-- or on the attempts left; that of the validation at the start, whose range has no end in sight, takes
-- a number of rounds, of which five are enough. The digits of a number are written with the number
-- itself as fuel, which is enough as each digit divides it by ten.
--
-- The order in which the tasks step is a list of events that the environment chooses; a run is a
-- derivation over it. What main does before its select! is taken to come before the steps of the tasks,
-- which it has spawned by then and shares nothing with but the token.
--
-- Not modelled: the routing and the JSON of the admin server, which are axum's, the process of BIND but
-- for its command, logging, and argument parsing.
pub mod Prelude
pub mod Text
pub mod Address
pub mod Serve
pub mod Service
pub mod Db
pub mod Engine
pub mod RateLimiter
pub mod QueryLog
pub mod Hickory
pub mod Resolver
pub mod Handler
pub mod Fetch
pub mod Config
pub mod Parser
pub mod Compiler
pub mod Startup
pub mod Admin
pub mod Net
pub mod Tls
pub mod Bind
pub mod Tasks
