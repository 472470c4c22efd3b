-- ===== src/Net.antt =====
-- src/net.rs: the sockets of the listeners. socket2, tokio and the operating system are parameters:
-- each call gives the state of the system after it and may fail.
pub mod Ports
pub mod Toy
mod Tests
use bancuh_dns.Prelude.{ℕ, Bool, true, false, if◌then◌else◌}
use bancuh_dns.Address.{SocketAddr, v4, v6}
use bancuh_dns.Serve.{Serve, ◌>>=◌, pure}

-- socket2's `Domain` and `Type`.
pub data Family : Type 0 where
  ipv4 ipv6 : Family

pub data Kind : Type 0 where
  stream datagram : Kind

abbrev pub is_ipv6 : SocketAddr → Bool
is_ipv6 addr = elim addr.ip [ v4 bits ↦ false | v6 bits ↦ true ]

abbrev pub family_of : SocketAddr → Family
family_of addr = if is_ipv6 addr then ipv6 else ipv4

abbrev pub same_family : Family → Family → Bool
same_family ipv4 ipv4 = true
same_family ipv6 ipv6 = true
same_family _ _ = false

abbrev pub same_kind : Kind → Kind → Bool
same_kind stream stream = true
same_kind datagram datagram = true
same_kind _ _ = false

-- The calls on a socket, and what statements observe of the system: of which family and kind a socket
-- is, whether it is for IPv6 only, and whether a port is taken for a kind and a family.
pub record Sockets : Type 1 where
  pub World : Type 0
  pub Socket : Type 0
  pub Error : Type 0
  pub new : Family → Kind → Serve World Error Socket
  pub set_reuse_address : Socket → Bool → Serve World Error (Unit {0})
  pub set_reuse_port : Socket → Bool → Serve World Error (Unit {0})
  pub set_only_v6 : Socket → Bool → Serve World Error (Unit {0})
  pub bind : Socket → SocketAddr → Serve World Error (Unit {0})
  pub listen : Socket → ℕ → Serve World Error (Unit {0})
  pub set_nonblocking : Socket → Bool → Serve World Error (Unit {0})
  pub from_std : Socket → Serve World Error Socket
  pub family : World → Socket → Family
  pub kind : World → Socket → Kind
  pub only_v6 : World → Socket → Bool
  pub taken : World → Kind → Family → ℕ → Bool

module _ (net : Sockets) where
  open net use {World, Socket, Error}

  -- `bind_tcp`
  unfoldable pub bind_tcp : SocketAddr → Serve World Error Socket
  bind_tcp addr = do
    socket ← net.new (family_of addr) stream
    _ ← net.set_reuse_address socket true
    _ ← (if is_ipv6 addr then net.set_only_v6 socket true else pure tt)
    _ ← net.bind socket addr
    _ ← net.listen socket 1024
    _ ← net.set_nonblocking socket true
    net.from_std socket

  -- `bind_udp`
  unfoldable pub bind_udp : SocketAddr → Serve World Error Socket
  bind_udp addr = do
    socket ← net.new (family_of addr) datagram
    _ ← net.set_reuse_port socket true
    _ ← (if is_ipv6 addr then net.set_only_v6 socket true else pure tt)
    _ ← net.bind socket addr
    _ ← net.set_nonblocking socket true
    net.from_std socket
