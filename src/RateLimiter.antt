-- ===== src/RateLimiter.antt =====
-- src/rate_limiter.rs: the key under which the requests of an address are counted.
mod Bits
pub mod Mask
mod Tests
use Prim.Native.Nat.{bit_and}
use bancuh_dns.Address.{IpAddr, v4, v6}
use bancuh_dns.Prelude.{ℕ, ◌-◌, ◌*◌, ◌%◌, ◌^◌, Bool, Option, none, some, leb, ◌==◌, if◌then◌else◌}

-- `x << k` at width w. With overflow checks a shift by w or more panics (`none`); without them, as
-- the release profile builds, only the low bits of k count.
unfoldable pub shl : Bool → ℕ → ℕ → ℕ → Option ℕ
shl checks w x k =
    if leb w k
    then (if checks then none else some ((x * 2 ^ (k % w)) % 2 ^ w))
    else some ((x * 2 ^ k) % 2 ^ w)

-- `bits & (MAX << (w - prefix))`
unfoldable pub mask_bits : Bool → ℕ → ℕ → ℕ → Option ℕ
unfolding shl
mask_bits checks w bits prefix = elim (shl checks w (2 ^ w - 1) (w - prefix)) [
  | none ↦ none
  | some mask ↦ some (bit_and bits mask)
]

-- `mask_ip`; `none` is the panic of a shift that overflows.
unfoldable pub mask_ip : Bool → IpAddr → ℕ → ℕ → Option IpAddr
mask_ip checks (v4 bits) ipv4_prefix ipv6_prefix =
    if leb 32 ipv4_prefix then some (v4 bits) else elim (mask_bits checks 32 bits ipv4_prefix) [
      | none ↦ none
      | some masked ↦ some (v4 masked)
    ]
mask_ip checks (v6 bits) ipv4_prefix ipv6_prefix =
    if leb 128 ipv6_prefix then some (v6 bits) else elim (mask_bits checks 128 bits ipv6_prefix) [
      | none ↦ none
      | some masked ↦ some (v6 masked)
    ]

-- `new_rate_limiter`, over governor's limiter with a quota per second.
unfoldable pub new_rate_limiter : {Limiter : Type 0} → (ℕ → Limiter) → ℕ → Option Limiter
new_rate_limiter keyed requests_per_second =
    if requests_per_second == 0 then none else some (keyed requests_per_second)
