-- ===== src/Net/Toy.antt =====
-- A system in which a port is bound once for each kind and family; one socket is prepared at a time.
use bancuh_dns.Prelude.{
  ℕ, Bool, false, ok_injective, ok, err, if◌then◌else◌, ◌==◌, ◌&&◌, ◌||◌, ◌≡◌, refl, ap, Bool-cases,
  inl, inr,
}
use bancuh_dns.Address.{SocketAddr}
use bancuh_dns.Serve.{Serve}
use bancuh_dns.Net.{Family, Kind, same_kind, Sockets}
use bancuh_dns.Net.Ports.{reaches, Quiet, IsSystem}

pub record System : Type 0 where
  pub taken : Kind → Family → ℕ → Bool
  pub only_v6 : Bool

abbrev pub with_port : System → Family × Kind → ℕ → System
with_port w socket port = record w {
  taken = λ k f p.
      w.taken k f p || (same_kind k socket.1 && (p == port && reaches socket.0 w.only_v6 f));
}

abbrev pub bind_free : Family × Kind → SocketAddr → Serve System (Unit {0}) (Unit {0})
bind_free socket addr w =
    if w.taken socket.1 socket.0 addr.port
    then (w, err tt)
    else (with_port w socket addr.port, ok tt)

abbrev pub toy : Sockets
toy = record {
  World = System;
  Socket = Family × Kind;
  Error = Unit {0};
  new = λ f k w. (record w { only_v6 = false }, ok (f, k));
  set_reuse_address = λ s b w. (w, ok tt);
  set_reuse_port = λ s b w. (w, ok tt);
  set_only_v6 = λ s b w. (record w { only_v6 = b }, ok tt);
  bind = bind_free;
  listen = λ s n w. (w, ok tt);
  set_nonblocking = λ s b w. (w, ok tt);
  from_std = λ s w. (w, ok s);
  family = λ w s. s.0;
  kind = λ w s. s.1;
  only_v6 = λ w s. w.only_v6;
  taken = λ w. w.taken;
}

same-Quiet : (w w' : System) (s : Family × Kind) → w ≡ w' → Quiet toy w w' s
same-Quiet w w' s e =
    rw (← e) (record { family = refl; kind = refl; only_v6 = refl; taken = λ k f p. refl })

bind_free_ok :
    (s : Family × Kind) (addr : SocketAddr) (w : System) {w' : System}
    → bind_free s addr w ≡ (w', ok tt)
    → with_port w s addr.port ≡ w'
bind_free_ok s addr w h = elim (Bool-cases (w.taken s.1 s.0 addr.port)) [
  | inl e ↦ cc (ap (λ o. o.1) (rw e at h))
  | inr e ↦ ap (λ o. o.0) (rw e at h)
]

pub toy-IsSystem : IsSystem toy
toy-IsSystem = record {
  new_ok = λ f k w {w'} {s} h.
      rw (← ap (λ o. o.0) h, ← ok_injective (ap (λ o. o.1) h)) (refl, refl, λ k' f' p. refl);
  reuse_address_ok = λ s b w {w'} h. same-Quiet w w' s (ap (λ o. o.0) h);
  reuse_port_ok = λ s b w {w'} h. same-Quiet w w' s (ap (λ o. o.0) h);
  only_v6_ok = λ s b w {w'} h. rw (← ap (λ o. o.0) h) (refl, refl, refl, λ k f p. refl);
  bind_ok = λ s addr w {w'} h k f p. rw (← bind_free_ok s addr w h) refl;
  listen_ok = λ s n w {w'} h. same-Quiet w w' s (ap (λ o. o.0) h);
  nonblocking_ok = λ s b w {w'} h. same-Quiet w w' s (ap (λ o. o.0) h);
  from_std_ok = λ s w {w'} h. same-Quiet w w' s (ap (λ o. o.0) h);
}
