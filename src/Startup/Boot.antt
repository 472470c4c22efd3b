-- ===== src/Startup/Boot.antt =====
-- `main` of src/main.rs up to its `select!`: what is started, in which order, and how the start fails.
-- The sockets are those of src/net.rs over the system's calls; `register_tls` is the registration of a
-- TLS listener with the DNS server, which may fail.
pub mod Endpoints
pub mod Listens
use bancuh_dns.Prelude.{
  ℕ, ◌+◌, ◌*◌, ◌^◌, Bool, true, false, Option, none, some, List, [], ◌∷◌, Result, map_err,
  if◌then◌else◌,
}
use bancuh_dns.Text.{Text, codes}
use bancuh_dns.Address.{IpAddr, v4, v6, SocketAddr}
use bancuh_dns.Serve.{Serve, ◌>>=◌, pure, raise, lift, serve_map_err}
use bancuh_dns.Net.{Sockets, bind_tcp, bind_udp}
use bancuh_dns.Resolver.{NameServer, create_resolver}
use bancuh_dns.RateLimiter.{new_rate_limiter}
use bancuh_dns.QueryLog
use bancuh_dns.Handler.Server.{Server}
use bancuh_dns.Tasks.{Tasks, spawned_tasks}
use bancuh_dns.Tls.{AcmeConfig, acme_config}
use bancuh_dns.Startup.{validate}
use bancuh_dns.Startup.Args.{Args}

-- `SocketAddr::from(([0, 0, 0, 0], port))` and its counterpart.
abbrev pub any_v4 : ℕ → SocketAddr
any_v4 port = record { ip = v4 0; port = port }

abbrev pub any_v6 : ℕ → SocketAddr
any_v6 port = record { ip = v6 0; port = port }

-- `BIND_IP`, 127.0.0.1, and `BIND_PORT`.
abbrev pub bind_ip : IpAddr
bind_ip = v4 (127 * 2 ^ 24 + 1)

abbrev pub bind_port : ℕ
bind_port = 5353

-- `TCP_TIMEOUT`, in seconds.
abbrev pub tcp_timeout : ℕ
tcp_timeout = 10

-- What the DNS server listens on.
pub data Listener (Socket : Type 0) : Type 0 where
  tcp : Socket → ℕ → Listener Socket
  udp : Socket → Listener Socket
  tls : Socket → ℕ → Listener Socket
  https : Socket → ℕ → Text → Text → Listener Socket

-- How the start ends early: by an error that `main` returns, or by a panic (`expects_…`). `unsettled`
-- would be a validation that needs more rounds.
pub data BootError (L D N T : Type 0) : Type 0 where
  unsettled expects_domain expects_email : BootError L D N T
  not_loaded : L → BootError L D N T
  no_engine : D → BootError L D N T
  not_bound : N → BootError L D N T
  not_registered : T → BootError L D N T

-- What stands when `main` comes to its `select!`.
pub record Booted (Engine Socket Limiter : Type 0) : Type 0 where
  pub engine : Engine
  pub name_servers : List NameServer
  pub server : Server Limiter
  pub listeners : List (Listener Socket)
  pub acme : Option AcmeConfig
  pub admin_port : ℕ
  pub tasks : Tasks

abbrev pub is_nil : {A : Type 0} → List A → Bool
is_nil [] = true
is_nil (x ∷ xs) = false

module _ {E C D Engine T Limiter : Type 0} {Location : Type 0} (net : Sockets)
    (loads : ℕ → Result E C) (new_engine : Location → Result D Engine) (keyed : ℕ → Limiter)
    (register_tls : net.Socket → Result T (Unit {0})) where
  open net use {World, Socket, Error}

  abbrev pub Booting : Type 0 → Type 0
  Booting A = Serve World (BootError E D Error T) A

  unfoldable pub bind_listener : SocketAddr → Booting Socket
  bind_listener addr = serve_map_err not_bound (bind_tcp net addr)

  unfoldable pub bind_socket : SocketAddr → Booting Socket
  bind_socket addr = serve_map_err not_bound (bind_udp net addr)

  -- `net::bind_tcp(addr)?`, then `server.register_tls_listener(…)?` or `register_https_listener`.
  unfoldable pub bind_tls : SocketAddr → Booting Socket
  unfolding bind_listener
  bind_tls addr = do
    socket ← bind_listener addr
    _ ← lift (map_err not_registered (register_tls socket))
    pure socket

  -- The validation of the configuration.
  unfoldable pub boot_validate : Booting (Unit {0})
  boot_validate = elim (validate loads 5 1 5) [
    | none ↦ raise unsettled
    | some slept ↦ lift (map_err not_loaded slept.1)
  ]

  -- The part for TLS.
  unfoldable pub boot_tls : Args Location → Booting (List (Listener Socket) × Option AcmeConfig)
  unfolding bind_tls
  boot_tls args = elim args.tls_domain [
    | none ↦ raise expects_domain
    | some domain ↦ elim args.tls_email [
      | none ↦ raise expects_email
      | some email ↦ do
        dot_v4 ← bind_tls (any_v4 853)
        dot_v6 ← bind_tls (any_v6 853)
        doh_v4 ← bind_tls (any_v4 443)
        doh_v6 ← bind_tls (any_v6 443)
        pure (
          tls dot_v4 tcp_timeout
              ∷ tls dot_v6 tcp_timeout
              ∷ https doh_v4 tcp_timeout domain (codes "/dns-query")
              ∷ https doh_v6 tcp_timeout domain (codes "/dns-query")
              ∷ [],
          some (acme_config domain email args.acme_url args.acme_cache_dir args.acme_insecure),
        )
    ]
  ]

  -- The name servers that queries are forwarded to: BIND where no others are given.
  unfoldable pub name_servers_of : Args Location → List NameServer
  unfolding create_resolver
  name_servers_of args =
      if is_nil args.forwarders
      then create_resolver (bind_ip ∷ []) bind_port
      else create_resolver args.forwarders args.forwarders_port

  unfoldable pub boot : Args Location → Booting (Booted Engine Socket Limiter)
  unfolding boot_validate bind_listener bind_socket boot_tls name_servers_of new_rate_limiter
      spawned_tasks
  boot args = do
    _ ← boot_validate
    engine ← lift (map_err no_engine (new_engine args.config_url))
    tcp_v4 ← bind_listener (any_v4 args.port)
    tcp_v6 ← bind_listener (any_v6 args.port)
    udp_v4 ← bind_socket (any_v4 args.port)
    udp_v6 ← bind_socket (any_v6 args.port)
    over_tls ← (if args.tls_enabled then boot_tls args else pure ([], none))
    pure (record {
      engine = engine;
      name_servers = name_servers_of args;
      server = record {
        query_log = QueryLog.new;
        rate_limiter = new_rate_limiter keyed args.rate_limit;
        rate_limit_ipv4_prefix = args.rate_limit_ipv4_prefix;
        rate_limit_ipv6_prefix = args.rate_limit_ipv6_prefix;
      };
      listeners =
          tcp tcp_v4 tcp_timeout ∷ tcp tcp_v6 tcp_timeout ∷ udp udp_v4 ∷ udp udp_v6 ∷ over_tls.0;
      acme = over_tls.1;
      admin_port = args.admin_port;
      tasks = spawned_tasks (is_nil args.forwarders) args.tls_enabled;
    })
