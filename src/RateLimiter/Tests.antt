-- ===== src/RateLimiter/Tests.antt =====
-- The tests of src/rate_limiter.rs, and an instance of each law.
use bancuh_dns.Prelude.{ℕ, ◌+◌, ◌*◌, ◌≡◌, ◌↔◌, refl, false, some, arith}
use bancuh_dns.Address.{IpAddr, v4, v6}
use bancuh_dns.RateLimiter.{mask_ip, mask_bits}
use bancuh_dns.RateLimiter.Mask.{SameNetwork, mask_ip_iff, mask_ip-zero}

abbrev ipv4 : ℕ → ℕ → ℕ → ℕ → IpAddr
ipv4 a b c d = v4 (((a * 256 + b) * 256 + c) * 256 + d)

mask_ipv4 :
    (mask_ip false (ipv4 192 168 1 100) 32 48 ≡ some (ipv4 192 168 1 100))
    × (mask_ip false (ipv4 192 168 1 100) 24 48 ≡ some (ipv4 192 168 1 0))
    × (mask_ip false (ipv4 192 168 1 100) 16 48 ≡ some (ipv4 192 168 0 0))
unfolding mask_ip mask_bits
mask_ipv4 = (refl, refl, refl)

-- 2001:db8:1:2:3:4:5:6 at 128, 48 and 64 bits: at 48 the group 2 is gone.
mask_ipv6 :
    (mask_ip false (v6 0x20010db8000100020003000400050006) 32 128
      ≡ some (v6 0x20010db8000100020003000400050006))
    × (mask_ip false (v6 0x20010db8000100020003000400050006) 32 48
        ≡ some (v6 0x20010db8000100000000000000000000))
    × (mask_ip false (v6 0x20010db8000100020003000400050006) 32 64
        ≡ some (v6 0x20010db8000100020000000000000000))
unfolding mask_ip mask_bits
mask_ipv6 = (refl, refl, refl)

mask_ip_iff_example :
    (mask_ip false (ipv4 192 168 1 100) 24 48 ≡ mask_ip false (ipv4 192 168 1 7) 24 48)
    ↔ SameNetwork 24 48 (ipv4 192 168 1 100) (ipv4 192 168 1 7)
mask_ip_iff_example =
    mask_ip_iff false (ipv4 192 168 1 100) (ipv4 192 168 1 7) 24 48 (omega arith) (omega arith)
      (omega arith) (omega arith)

mask_ip-zero_example : mask_ip false (ipv4 192 168 1 100) 0 0 ≡ some (ipv4 192 168 1 100)
mask_ip-zero_example = mask_ip-zero false (ipv4 192 168 1 100) (omega arith)
