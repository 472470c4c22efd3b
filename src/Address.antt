-- ===== src/Address.antt =====
-- `std::net::IpAddr`, which the rate limiter, the query log and the handler share: the 32 or 128 bits
-- of an address as a number, its first byte the highest.
pub mod Display
pub mod Parse
pub mod RoundTrip
pub mod Hex
pub mod Groups
pub mod Runs
pub mod V6
mod Tests
use bancuh_dns.Prelude.{
  if◌then◌else◌, Option, none, some, ◌/◌, ◌%◌, ℕ, ◌^◌, ◌<◌, ◌≡◌, ◌↔◌, Bool, true, false, arith,
  ◌==◌, ==_iff, refl,
}

pub data IpAddr : Type 0 where
  v4 : ℕ → IpAddr
  v6 : ℕ → IpAddr

-- `std::net::SocketAddr`
pub record SocketAddr : Type 0 where
  pub ip : IpAddr
  pub port : ℕ

abbrev pub IsAddress : IpAddr → Type 0
IsAddress (v4 bits) = bits < 2 ^ 32
IsAddress (v6 bits) = bits < 2 ^ 128

-- `to_ipv4_mapped`: the last 32 bits of an address whose upper 96 are ::ffff.
abbrev pub to_ipv4_mapped : ℕ → Option ℕ
to_ipv4_mapped bits = if bits / 2 ^ 32 == 0xffff then some (bits % 2 ^ 32) else none

-- `IpAddr: PartialEq`
abbrev pub same_ip : IpAddr → IpAddr → Bool
same_ip (v4 a) (v4 b) = a == b
same_ip (v6 a) (v6 b) = a == b
same_ip _ _ = false

pub same_ip_iff : (a b : IpAddr) → (same_ip a b ≡ true) ↔ (a ≡ b)
same_ip_iff (v4 a) (v4 b) = ground (arith, ==_iff a b)
same_ip_iff (v6 a) (v6 b) = ground (arith, ==_iff a b)
same_ip_iff (v4 a) (v6 b) = (λ h. cc, λ h. cc)
same_ip_iff (v6 a) (v4 b) = (λ h. cc, λ h. cc)

pub same_ip_refl : (a : IpAddr) → same_ip a a ≡ true
same_ip_refl a = (same_ip_iff a a).1 refl
