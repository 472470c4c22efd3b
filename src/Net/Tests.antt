-- ===== src/Net/Tests.antt =====
-- Listeners of a toy system on one port, for IPv4 and then for IPv6.
use bancuh_dns.Prelude.{true, false, ok, ◌≡◌, refl}
use bancuh_dns.Address.{v4, v6, SocketAddr}
use bancuh_dns.Net.{ipv4, ipv6, stream, bind_tcp}
use bancuh_dns.Net.Ports.{Takes, bind_tcp-Takes}
use bancuh_dns.Net.Toy.{System, toy, toy-IsSystem, with_port}

abbrev free : System
free = record { taken = λ k f p. false; only_v6 = false }

abbrev dns_v4 : SocketAddr
dns_v4 = record { ip = v4 0; port = 53 }

abbrev dns_v6 : SocketAddr
dns_v6 = record { ip = v6 0; port = 53 }

abbrev after_v4 : System
after_v4 = with_port free (ipv4, stream) 53

-- The IPv6 listener comes up beside the IPv4 one.
both_up :
    bind_tcp toy dns_v6 after_v4
    ≡ (with_port (record after_v4 { only_v6 = true }) (ipv6, stream) 53, ok (ipv6, stream))
unfolding bind_tcp
both_up = refl

dns_v6-Takes :
    Takes toy dns_v6 stream after_v4
      (with_port (record after_v4 { only_v6 = true }) (ipv6, stream) 53)
dns_v6-Takes = bind_tcp-Takes toy toy-IsSystem dns_v6 after_v4 both_up
