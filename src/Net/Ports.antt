-- ===== src/Net/Ports.antt =====
-- Which ports the listeners of src/net.rs take.
use bancuh_dns.Prelude.{
  ℕ, Bool, true, not, ok, if◌then◌else◌, ◌==◌, ◌&&◌, ◌||◌, ◌≡◌, refl, ap, ◌∙◌, Bool-cases, inl, inr,
  arith,
}
use bancuh_dns.Serve.{pure, serve_ok}
use bancuh_dns.Address.{SocketAddr}
use bancuh_dns.Net.{
  Family, ipv6, Kind, stream, datagram, is_ipv6, family_of, same_family, same_kind, Sockets,
  bind_tcp, bind_udp,
}

-- The family of a port that a bound socket takes: its own, and IPv4 too where an IPv6 socket is not
-- for IPv6 only.
abbrev pub reaches : Family → Bool → Family → Bool
reaches family only_v6 f = same_family f family || (same_family family ipv6 && not only_v6)

module _ (net : Sockets) where
  open net use {World, Socket, Error}

  -- Nothing changes that concerns the socket or the ports.
  pub record Quiet (w w' : World) (s : Socket) : Type 0 where
    pub family : net.family w' s ≡ net.family w s
    pub kind : net.kind w' s ≡ net.kind w s
    pub only_v6 : net.only_v6 w' s ≡ net.only_v6 w s
    pub taken : (k : Kind) (f : Family) (p : ℕ) → net.taken w' k f p ≡ net.taken w k f p

  -- What the system promises of the calls that succeed.
  pub record IsSystem : Type 0 where
    pub new_ok :
        (f : Family) (k : Kind) (w : World) {w' : World} {s : Socket}
        → net.new f k w ≡ (w', ok s)
        → (net.family w' s ≡ f)
          × (net.kind w' s ≡ k)
          × ((k' : Kind) (f' : Family) (p : ℕ) → net.taken w' k' f' p ≡ net.taken w k' f' p)
    pub reuse_address_ok :
        (s : Socket) (b : Bool) (w : World) {w' : World}
        → net.set_reuse_address s b w ≡ (w', ok tt)
        → Quiet w w' s
    pub reuse_port_ok :
        (s : Socket) (b : Bool) (w : World) {w' : World}
        → net.set_reuse_port s b w ≡ (w', ok tt)
        → Quiet w w' s
    pub only_v6_ok :
        (s : Socket) (b : Bool) (w : World) {w' : World}
        → net.set_only_v6 s b w ≡ (w', ok tt)
        → (net.only_v6 w' s ≡ b)
          × (net.family w' s ≡ net.family w s)
          × (net.kind w' s ≡ net.kind w s)
          × ((k : Kind) (f : Family) (p : ℕ) → net.taken w' k f p ≡ net.taken w k f p)
    pub bind_ok :
        (s : Socket) (addr : SocketAddr) (w : World) {w' : World}
        → net.bind s addr w ≡ (w', ok tt)
        → (k : Kind) (f : Family) (p : ℕ)
        → net.taken w' k f p ≡ (
            net.taken w k f p
            || (same_kind k (net.kind w s)
                && (p == addr.port && reaches (net.family w s) (net.only_v6 w s) f)))
    pub listen_ok :
        (s : Socket) (n : ℕ) (w : World) {w' : World}
        → net.listen s n w ≡ (w', ok tt)
        → Quiet w w' s
    pub nonblocking_ok :
        (s : Socket) (b : Bool) (w : World) {w' : World}
        → net.set_nonblocking s b w ≡ (w', ok tt)
        → Quiet w w' s
    pub from_std_ok :
        (s : Socket) (w : World) {w' : World} {s' : Socket}
        → net.from_std s w ≡ (w', ok s')
        → Quiet w w' s

  -- The socket is one of the address's family and the kind, and for IPv6 only if it is for IPv6.
  record IsReady (addr : SocketAddr) (k : Kind) (w w' : World) (s : Socket) : Type 0 where
    family : net.family w' s ≡ family_of addr
    kind : net.kind w' s ≡ k
    alone : is_ipv6 addr ≡ true → net.only_v6 w' s ≡ true
    taken : (k' : Kind) (f : Family) (p : ℕ) → net.taken w' k' f p ≡ net.taken w k' f p

  new-IsReady :
      (system : IsSystem) (addr : SocketAddr) (k : Kind) (w w1 w2 w3 : World) (s : Socket)
      → net.new (family_of addr) k w ≡ (w1, ok s)
      → Quiet w1 w2 s
      → (if is_ipv6 addr then net.set_only_v6 s true else pure tt) w2 ≡ (w3, ok tt)
      → IsReady addr k w w3 s
  new-IsReady system addr k w w1 w2 w3 s made quiet only = elim (Bool-cases (is_ipv6 addr)) [
    | inl e ↦
        let (f, kd, t) = system.new_ok (family_of addr) k w made in
        let (o, f', kd', t') = system.only_v6_ok s true w2 (rw e at only) in
        record {
          family = f' ∙ quiet.family ∙ f;
          kind = kd' ∙ quiet.kind ∙ kd;
          alone = λ h. o;
          taken = λ k' f p. t' k' f p ∙ quiet.taken k' f p ∙ t k' f p;
        }
    | inr e ↦
        let (f, kd, t) = system.new_ok (family_of addr) k w made in
        let same : w2 ≡ w3 = ap (λ o. o.0) (rw e at only) in
        rw (← same) (record {
          family = quiet.family ∙ f;
          kind = quiet.kind ∙ kd;
          alone = λ h. cc (e, h);
          taken = λ k' f p. quiet.taken k' f p ∙ t k' f p;
        })
  ]

  -- The ports after a listener: that of the address for its family and kind is new.
  abbrev pub Takes : SocketAddr → Kind → World → World → Type 0
  Takes addr kind w w' =
      (k : Kind) (f : Family) (p : ℕ)
      → net.taken w' k f p ≡ (
          net.taken w k f p
          || (same_kind k kind && (p == addr.port && same_family f (family_of addr))))

  reaches_own :
      (addr : SocketAddr) (only_v6 : Bool) (f : Family)
      → (is_ipv6 addr ≡ true → only_v6 ≡ true)
      → reaches (family_of addr) only_v6 f ≡ same_family f (family_of addr)
  reaches_own addr only_v6 f alone = ground arith

  bind-Takes :
      (system : IsSystem) (addr : SocketAddr) (k : Kind) (w w3 w4 : World) (s : Socket)
      → IsReady addr k w w3 s
      → net.bind s addr w3 ≡ (w4, ok tt)
      → Takes addr k w w4
  bind-Takes system addr k w w3 w4 s ready bound k' f p =
      rw
        (
          system.bind_ok s addr w3 bound k' f p,
          ready.taken k' f p,
          ready.family,
          ready.kind,
          reaches_own addr (net.only_v6 w3 s) f ready.alone,
        )
        refl

  -- A TCP listener takes its port for the family of its address and for no other, so that those of
  -- IPv4 and IPv6 stand side by side.
  pub bind_tcp-Takes :
      (system : IsSystem) (addr : SocketAddr) (w : World) {w' : World} {s : Socket}
      → bind_tcp net addr w ≡ (w', ok s)
      → Takes addr stream w w'
  unfolding bind_tcp
  bind_tcp-Takes system addr w h k f p =
      let (w1, s, made, h1) = serve_ok (net.new (family_of addr) stream) _ w h in
      let (w2, _, reused, h2) = serve_ok (net.set_reuse_address s true) _ w1 h1 in
      let (w3, _, only, h3) =
        serve_ok (if is_ipv6 addr then net.set_only_v6 s true else pure tt) _ w2 h2 in
      let (w4, _, bound, h4) = serve_ok (net.bind s addr) _ w3 h3 in
      let (w5, _, listens, h5) = serve_ok (net.listen s 1024) _ w4 h4 in
      let (w6, _, unblocked, h6) = serve_ok (net.set_nonblocking s true) _ w5 h5 in
      let ready =
        new-IsReady system addr stream w w1 w2 w3 s made (system.reuse_address_ok s true w1 reused)
          only in
      (system.from_std_ok s w6 h6).taken k f p
      ∙ (system.nonblocking_ok s true w5 unblocked).taken k f p
      ∙ (system.listen_ok s 1024 w4 listens).taken k f p
      ∙ bind-Takes system addr stream w w3 w4 s ready bound k f p

  -- So does a UDP socket.
  pub bind_udp-Takes :
      (system : IsSystem) (addr : SocketAddr) (w : World) {w' : World} {s : Socket}
      → bind_udp net addr w ≡ (w', ok s)
      → Takes addr datagram w w'
  unfolding bind_udp
  bind_udp-Takes system addr w h k f p =
      let (w1, s, made, h1) = serve_ok (net.new (family_of addr) datagram) _ w h in
      let (w2, _, reused, h2) = serve_ok (net.set_reuse_port s true) _ w1 h1 in
      let (w3, _, only, h3) =
        serve_ok (if is_ipv6 addr then net.set_only_v6 s true else pure tt) _ w2 h2 in
      let (w4, _, bound, h4) = serve_ok (net.bind s addr) _ w3 h3 in
      let (w5, _, unblocked, h5) = serve_ok (net.set_nonblocking s true) _ w4 h4 in
      let ready =
        new-IsReady system addr datagram w w1 w2 w3 s made (system.reuse_port_ok s true w1 reused)
          only in
      (system.from_std_ok s w5 h5).taken k f p
      ∙ (system.nonblocking_ok s true w4 unblocked).taken k f p
      ∙ bind-Takes system addr datagram w w3 w4 s ready bound k f p
