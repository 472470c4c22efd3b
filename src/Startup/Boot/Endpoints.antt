-- ===== src/Startup/Boot/Endpoints.antt =====
-- Where the DNS server of src/main.rs is to listen, and what it takes for a listener to serve there.
use bancuh_dns.Prelude.{List, [], ◌∷◌, ◌++◌, Result, ok, some, if◌then◌else◌, ◌≡◌}
use bancuh_dns.Text.{codes}
use bancuh_dns.Address.{SocketAddr}
use bancuh_dns.Net.{Sockets, bind_tcp, bind_udp}
use bancuh_dns.Startup.Args.{Args}
use bancuh_dns.Startup.Boot.{any_v4, any_v6, tcp_timeout, Listener, tcp, udp, tls, https}

-- DNS over TCP, UDP, TLS and HTTPS.
pub data Endpoint : Type 0 where
  dns_tcp dns_udp dot doh : SocketAddr → Endpoint

abbrev pub plain_endpoints : {Location : Type 0} → Args Location → List Endpoint
plain_endpoints args =
    dns_tcp (any_v4 args.port)
    ∷ dns_tcp (any_v6 args.port)
    ∷ dns_udp (any_v4 args.port)
    ∷ dns_udp (any_v6 args.port)
    ∷ []

abbrev pub tls_endpoints : List Endpoint
tls_endpoints = dot (any_v4 853) ∷ dot (any_v6 853) ∷ doh (any_v4 443) ∷ doh (any_v6 443) ∷ []

-- All of them, those for TLS where it is enabled.
abbrev pub endpoints : {Location : Type 0} → Args Location → List Endpoint
endpoints args = plain_endpoints args ++ (if args.tls_enabled then tls_endpoints else [])

module _ {T : Type 0} {Location : Type 0} (net : Sockets)
    (register_tls : net.Socket → Result T (Unit {0})) (args : Args Location) where
  open net use {World, Socket}

  -- The socket is one that `bind_tcp`, or `bind_udp`, returned for the address.
  abbrev pub BoundTcp : SocketAddr → Socket → Type 0
  BoundTcp addr s = (w : World) × (w' : World) × (bind_tcp net addr w ≡ (w', ok s))

  abbrev pub BoundUdp : SocketAddr → Socket → Type 0
  BoundUdp addr s = (w : World) × (w' : World) × (bind_udp net addr w ≡ (w', ok s))

  -- Bound, and registered with the DNS server for TLS.
  abbrev pub BoundTls : SocketAddr → Socket → Type 0
  BoundTls addr s = BoundTcp addr s × (register_tls s ≡ ok tt)

  -- A listener of the right kind, with a socket bound to the address, and the settings of the program.
  abbrev pub Serves : Listener Socket → Endpoint → Type 0
  Serves (tcp s timeout) (dns_tcp addr) = BoundTcp addr s × (timeout ≡ tcp_timeout)
  Serves (udp s) (dns_udp addr) = BoundUdp addr s
  Serves (tls s timeout) (dot addr) = BoundTls addr s × (timeout ≡ tcp_timeout)
  Serves (https s timeout domain path) (doh addr) =
      BoundTls addr s
      × (timeout ≡ tcp_timeout)
      × (args.tls_domain ≡ some domain)
      × (path ≡ codes "/dns-query")
  Serves _ _ = ⊥

  -- One listener for each endpoint, in their order, and no other.
  abbrev pub ServesAll : List (Listener Socket) → List Endpoint → Type 0
  ServesAll [] [] = Unit
  ServesAll (l ∷ ls) (e ∷ es) = Serves l e × ServesAll ls es
  ServesAll _ _ = ⊥
