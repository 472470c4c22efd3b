-- ===== src/Startup/Boot/Listens.antt =====
-- What stands after a start that succeeds (src/main.rs).
use bancuh_dns.Prelude.{ℕ, true, some, List, drop, Result, ok, ◌≡◌}
use bancuh_dns.Text.{Text}
use bancuh_dns.Address.{SocketAddr}
use bancuh_dns.Net.{Sockets, Kind, stream, datagram, Family, family_of}
use bancuh_dns.Net.Ports.{IsSystem}
use bancuh_dns.Tasks.{spawned_tasks}
use bancuh_dns.Startup.Args.{Args}
use bancuh_dns.Startup.Boot.Endpoints.{ServesAll, tls_endpoints, endpoints}
use bancuh_dns.Startup.Boot.{any_v4, any_v6, Listener, Booted, is_nil}

module _ (net : Sockets) where
  open net use {World, Socket}

  -- The port of the address is taken for its family and the kind.
  abbrev pub Listening : World → Kind → SocketAddr → Type 0
  Listening w k addr = net.taken w k (family_of addr) addr.port ≡ true

  -- A port that is taken stays so.
  abbrev pub Grows : World → World → Type 0
  Grows w w' =
      (k : Kind) (f : Family) (p : ℕ) → net.taken w k f p ≡ true → net.taken w' k f p ≡ true

module _ {E C D Engine T Limiter : Type 0} {Location : Type 0} (net : Sockets)
    (loads : ℕ → Result E C) (new_engine : Location → Result D Engine) (keyed : ℕ → Limiter)
    (register_tls : net.Socket → Result T (Unit {0})) (system : IsSystem net)
    (args : Args Location) where
  open net use {World, Socket}

  -- With TLS: who is served, and on which ports.
  pub record ServesTls (w : World) (over_tls : List (Listener Socket)) : Type 0 where
    pub domain : Text
    pub email : Text
    pub has_domain : args.tls_domain ≡ some domain
    pub has_email : args.tls_email ≡ some email
    pub dot_v4 : Listening net w stream (any_v4 853)
    pub dot_v6 : Listening net w stream (any_v6 853)
    pub doh_v4 : Listening net w stream (any_v4 443)
    pub doh_v6 : Listening net w stream (any_v6 443)
    pub registered : ServesAll net register_tls args over_tls tls_endpoints

  -- What stands after the start: the ports for DNS over both protocols and families, those for TLS if it
  -- is enabled, and the tasks that were spawned, BIND among them where no forwarders are given.
  pub record Stands (w : World) (b : Booted Engine Socket Limiter) : Type 0 where
    pub tcp_v4 : Listening net w stream (any_v4 args.port)
    pub tcp_v6 : Listening net w stream (any_v6 args.port)
    pub udp_v4 : Listening net w datagram (any_v4 args.port)
    pub udp_v6 : Listening net w datagram (any_v6 args.port)
    pub over_tls : args.tls_enabled ≡ true → ServesTls w (drop 4 b.listeners)
    pub registered : ServesAll net register_tls args b.listeners (endpoints args)
    pub spawned : b.tasks ≡ spawned_tasks (is_nil args.forwarders) args.tls_enabled
    pub engine : new_engine args.config_url ≡ ok b.engine
