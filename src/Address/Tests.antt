-- ===== src/Address/Tests.antt =====
-- Addresses as text.
use bancuh_dns.Prelude.{◌≡◌, refl, none, some}
use bancuh_dns.Text.{codes, join}
use bancuh_dns.Address.{v4, v6}
use bancuh_dns.Address.Display.{ip_text, ipv4_text, ipv6_text}
use bancuh_dns.Address.Parse.{parse_ip, read_ipv4, read_ipv6}

home : ip_text (v4 0x7f000001) ≡ codes "127.0.0.1"
unfolding ip_text ipv4_text
home = refl

mapped : ip_text (v6 0xffff0a000001) ≡ codes "::ffff:10.0.0.1"
unfolding ip_text ipv6_text ipv4_text
mapped = refl

documentation : ip_text (v6 0x20010db8000000000001000000000002) ≡ codes "2001:db8::1:0:0:2"
unfolding ip_text ipv6_text join
documentation = refl

read_home : parse_ip (codes "127.0.0.1") ≡ some (v4 0x7f000001)
unfolding parse_ip read_ipv4
read_home = refl

no_leading_zero : parse_ip (codes "127.0.0.01") ≡ none
unfolding parse_ip read_ipv4 read_ipv6
no_leading_zero = refl

read_documentation :
    parse_ip (codes "2001:db8::1:0:0:2") ≡ some (v6 0x20010db8000000000001000000000002)
unfolding parse_ip read_ipv4 read_ipv6
read_documentation = refl

read_embedded : parse_ip (codes "1:2::10.0.0.1") ≡ some (v6 0x0001000200000000000000000a000001)
unfolding parse_ip read_ipv4 read_ipv6
read_embedded = refl

-- Seven groups are no address, nor are eight around a "::".
too_few : parse_ip (codes "1:2:3:4:5:6:7") ≡ none
unfolding parse_ip read_ipv4 read_ipv6
too_few = refl

too_many : parse_ip (codes "1:2:3:4:5:6:7::8") ≡ none
unfolding parse_ip read_ipv4 read_ipv6
too_many = refl
