-- ===== src/RateLimiter/Mask.antt =====
-- What `mask_ip` of src/rate_limiter.rs keeps of an address, and which addresses share a key.
use Prim.Native.Nat.{bit_and}
use native.Mathlib.Nat.{one-le-pow}
use bancuh_dns.Prelude.{
  ℕ, zero, suc, ◌+◌, ◌-◌, ◌*◌, ◌/◌, ◌%◌, ◌^◌, ◌≤◌, ◌<◌, ◌≡◌, ◌↔◌, refl, ap, ◌∙◌, Bool, true, Option,
  none, some, ◌&&◌, ◌||◌, arith, leb, ◌==◌, ==_iff, if◌then◌else◌, leb-false_of_lt, leb_sound,
  lt_of_leb, inl, inr, Bool-cases,
}
use bancuh_dns.Address.{IpAddr, v4, v6, IsAddress}
use bancuh_dns.RateLimiter.{mask_bits, mask_ip}
use bancuh_dns.RateLimiter.Bits.{bit_and-ones, bit_and-mask}

-- The bits of an address from its prefix up: the lower ones set to zero.
abbrev pub network : ℕ → ℕ → ℕ → ℕ
network w bits prefix = bits / 2 ^ (w - prefix) * 2 ^ (w - prefix)

-- A test passes at each of n numbers from `start` on.
rows : (ℕ → Bool) → ℕ → ℕ → Bool
rows test start zero = true
rows test start (suc n) = test start && rows test (start + 1) n

rows_sound :
    (test : ℕ → Bool) (start n row : ℕ)
    → rows test start n ≡ true
    → start ≤ row
    → row < start + n
    → test row ≡ true
unfolding rows
rows_sound test start zero row checked from to = absurd (omega arith)
rows_sound test start (suc n) row checked from to = elim (Bool-cases (start == row)) [
  | inl here ↦ rw (← (==_iff start row).0 here) (ground arith)
  | inr later ↦ rows_sound test (start + 1) n row (ground arith) (ground arith) (omega arith)
]

-- `MAX << (w - p)` at width w is p ones above w - p zeros.
abbrev ones : ℕ → ℕ → Bool
ones w p =
    p == 0
    || ((2 ^ w - 1) * 2 ^ (w - p) % 2 ^ w == (2 ^ p - 1) * 2 ^ (w - p))
      && (2 ^ p * 2 ^ (w - p) == 2 ^ w)

ones_32 : rows (ones 32) 0 32 ≡ true
unfolding rows
ones_32 = refl

ones_128 : rows (ones 128) 0 128 ≡ true
unfolding rows
ones_128 = refl

ones_sound :
    (w p : ℕ)
    → ones w p ≡ true
    → 0 < p
    → ((2 ^ w - 1) * 2 ^ (w - p) % 2 ^ w ≡ (2 ^ p - 1) * 2 ^ (w - p))
      × (2 ^ p * 2 ^ (w - p) ≡ 2 ^ w)
ones_sound w p h pos = ground arith

mask_bits_of_ones :
    (checks : Bool) (w bits prefix : ℕ)
    → ones w prefix ≡ true
    → 0 < prefix
    → prefix < w
    → bits < 2 ^ w
    → mask_bits checks w bits prefix ≡ some (network w bits prefix)
unfolding mask_bits
mask_bits_of_ones checks w bits prefix table pos inside fits =
    let (mask, full) = ones_sound w prefix table pos in
    rw (mask_bits, leb-false_of_lt (w - prefix) w (omega arith))
      (ap some (ap (bit_and bits) mask ∙ bit_and-mask (w - prefix) prefix bits (rw full fits)))

network_whole : (w bits prefix : ℕ) → w ≤ prefix → bits ≡ network w bits prefix
network_whole w bits prefix le = let e : w - prefix ≡ 0 = omega arith in rw e (omega arith)

abbrev pub network_of : IpAddr → ℕ → ℕ → IpAddr
network_of (v4 bits) p q = v4 (network 32 bits p)
network_of (v6 bits) p q = v6 (network 128 bits q)

-- Two addresses of one family with the same bits above the prefix.
abbrev pub SameNetwork : ℕ → ℕ → IpAddr → IpAddr → Type 0
SameNetwork p q (v4 a) (v4 b) = a / 2 ^ (32 - p) ≡ b / 2 ^ (32 - p)
SameNetwork p q (v6 a) (v6 b) = a / 2 ^ (128 - q) ≡ b / 2 ^ (128 - q)
SameNetwork p q _ _ = ⊥

scale-injective : (k x y : ℕ) → x * 2 ^ k ≡ y * 2 ^ k → x ≡ y
scale-injective k x y e = grind (arith, one-le-pow k 2)

same_network :
    (a b : IpAddr) (p q : ℕ)
    → (◌≡◌ {A = Option IpAddr} (some (network_of a p q)) (some (network_of b p q)))
      ↔ SameNetwork p q a b
same_network (v4 a) (v4 b) p q = (
  λ e. scale-injective (32 - p) _ _ (ground arith),
  λ e. ap (λ n. some (v4 (n * 2 ^ (32 - p)))) e,
)
same_network (v6 a) (v6 b) p q = (
  λ e. scale-injective (128 - q) _ _ (ground arith),
  λ e. ap (λ n. some (v6 (n * 2 ^ (128 - q)))) e,
)
same_network (v4 a) (v6 b) p q = (λ e. cc, λ e. elim e [ ])
same_network (v6 a) (v4 b) p q = (λ e. cc, λ e. elim e [ ])

module _ (checks : Bool) where
  -- With prefixes of at least one bit `mask_ip` returns, in every build, the address with the bits
  -- below its family's prefix set to zero.
  pub mask_ip_lem :
      (ip : IpAddr) (p q : ℕ)
      → IsAddress ip
      → 0 < p
      → 0 < q
      → mask_ip checks ip p q ≡ some (network_of ip p q)
  unfolding mask_ip
  mask_ip_lem (v4 bits) p q fits pos _ = elim (Bool-cases (leb 32 p)) [
    | inl e ↦ rw e (ap (λ b. some (v4 b)) (network_whole 32 bits p (leb_sound 32 p e)))
    | inr e ↦ rw e (
        ap wrap (
          mask_bits_of_ones checks 32 bits p
            (rows_sound (ones 32) 0 32 p ones_32 (omega arith) (omega (arith, lt_of_leb 32 p e)))
            pos (lt_of_leb 32 p e) fits))
  ]
    where
      wrap : Option ℕ → Option IpAddr
      wrap o = elim o [ none ↦ none | some masked ↦ some (v4 masked) ]
  mask_ip_lem (v6 bits) p q fits _ pos = elim (Bool-cases (leb 128 q)) [
    | inl e ↦ rw e (ap (λ b. some (v6 b)) (network_whole 128 bits q (leb_sound 128 q e)))
    | inr e ↦ rw e (
        ap wrap (
          mask_bits_of_ones checks 128 bits q
            (rows_sound (ones 128) 0 128 q ones_128 (omega arith)
              (omega (arith, lt_of_leb 128 q e)))
            pos (lt_of_leb 128 q e) fits))
  ]
    where
      wrap : Option ℕ → Option IpAddr
      wrap o = elim o [ none ↦ none | some masked ↦ some (v6 masked) ]

  -- With prefixes of at least one bit two addresses share a rate-limit key exactly when they are
  -- of one family and agree above its prefix.
  pub mask_ip_iff :
      (a b : IpAddr) (p q : ℕ)
      → IsAddress a
      → IsAddress b
      → 0 < p
      → 0 < q
      → (mask_ip checks a p q ≡ mask_ip checks b p q) ↔ SameNetwork p q a b
  mask_ip_iff a b p q ha hb hp hq =
      rw (mask_ip_lem a p q ha hp hq, mask_ip_lem b p q hb hp hq) (same_network a b p q)

  -- With prefixes of 0 mask_ip panics in a build with overflow checks, and otherwise leaves every
  -- address as it is.
  pub mask_ip-zero :
      (ip : IpAddr) → IsAddress ip → mask_ip checks ip 0 0 ≡ (if checks then none else some ip)
  unfolding mask_ip mask_bits
  mask_ip-zero (v4 bits) h = ground (arith, bit_and-ones 32 bits h)
  mask_ip-zero (v6 bits) h = ground (arith, bit_and-ones 128 bits h)
