-- ===== src/RateLimiter/Bits.antt =====
-- `x & mask` for a mask of n ones above k zeros, from the digits that the operation stands for.
use Prim.Native.Nat.{bit_and, digits, bit_and-bitwise}
use native.Mathlib.Nat.{div-div-eq-div-mul, pow-suc, one-le-pow, mul_assoc, pow-succ'}
use bancuh_dns.Prelude.{
  ℕ, zero, suc, ◌+◌, ◌-◌, ◌*◌, ◌/◌, ◌%◌, ◌^◌, ◌≤◌, ◌<◌, min, ◌≡◌, refl, sym, ap, ◌∙◌, arith,
}

abbrev and_loop : ℕ → ℕ → ℕ → ℕ
and_loop fuel a b = digits (λ b. zero) min fuel a b

-- Fuel beyond the first operand changes nothing.
and_loop_fuel : (m n a b : ℕ) → a ≤ m → a ≤ n → and_loop m a b ≡ and_loop n a b
and_loop_fuel zero zero a b p q = refl
and_loop_fuel zero (suc n) zero b p q = refl
and_loop_fuel zero (suc n) (suc a) b p q = absurd (omega arith)
and_loop_fuel (suc m) zero zero b p q = refl
and_loop_fuel (suc m) zero (suc a) b p q = absurd (omega arith)
and_loop_fuel (suc m) (suc n) zero b p q = refl
and_loop_fuel (suc m) (suc n) (suc a) b p q =
    omega (arith, and_loop_fuel m n (suc a / 2) (b / 2) (omega arith) (omega arith))

zero-bit_and : (b : ℕ) → bit_and 0 b ≡ 0
zero-bit_and b = bit_and-bitwise 0 b

-- The lowest bit, and the rest.
bit_and-halves : (a b : ℕ) → bit_and a b ≡ bit_and (a / 2) (b / 2) * 2 + min (a % 2) (b % 2)
bit_and-halves zero b = omega (arith, zero-bit_and b, zero-bit_and (b / 2))
bit_and-halves (suc a) b = omega (
  arith,
  and_loop_fuel a (suc a / 2) (suc a / 2) (b / 2) (omega arith) (omega arith),
  bit_and-bitwise (suc a / 2) (b / 2),
  bit_and-bitwise (suc a) b,
)

-- A mask of n ones keeps a number below 2 ^ n.
pub bit_and-ones : (n x : ℕ) → x < 2 ^ n → bit_and x (2 ^ n - 1) ≡ x
bit_and-ones zero x h = let e : x ≡ 0 = omega arith in rw e refl
bit_and-ones (suc n) x h =
    let half : (2 ^ suc n - 1) / 2 ≡ 2 ^ n - 1 =
      omega (arith, pow-suc 2 n, one-le-pow n 2 (omega arith)) in
    let odd : (2 ^ suc n - 1) % 2 ≡ 1 = omega (arith, pow-suc 2 n, one-le-pow n 2 (omega arith)) in
    bit_and-halves x (2 ^ suc n - 1)
    ∙ rw (half, odd) (omega (arith, bit_and-ones n (x / 2) (omega (arith, pow-suc 2 n))))

-- A mask of n ones above k zeros clears the k low bits.
pub bit_and-mask :
    (k n x : ℕ) → x < 2 ^ n * 2 ^ k → bit_and x ((2 ^ n - 1) * 2 ^ k) ≡ x / 2 ^ k * 2 ^ k
bit_and-mask zero n x h =
    let e : (2 ^ n - 1) * 2 ^ 0 ≡ 2 ^ n - 1 = omega arith in
    rw e (bit_and-ones n x (omega arith) ∙ omega arith)
bit_and-mask (suc k) n x h =
    let double : (2 ^ n - 1) * 2 ^ suc k ≡ (2 ^ n - 1) * 2 ^ k * 2 =
      rw pow-suc (sym (mul_assoc _ _ _)) in
    let half : (2 ^ n - 1) * 2 ^ suc k / 2 ≡ (2 ^ n - 1) * 2 ^ k = omega (arith, double) in
    let even : (2 ^ n - 1) * 2 ^ suc k % 2 ≡ 0 = omega (arith, double) in
    let fits : x < 2 ^ n * 2 ^ k * 2 =
      omega (arith, mul_assoc (2 ^ n) (2 ^ k) 2, ap (λ (t : ℕ). 2 ^ n * t) (pow-suc 2 k)) in
    let deeper : x / 2 ^ suc k ≡ x / 2 / 2 ^ k = rw (pow-succ', div-div-eq-div-mul) in
    bit_and-halves x ((2 ^ n - 1) * 2 ^ suc k)
    ∙ rw (half, even, deeper)
        (omega (
          arith,
          bit_and-mask k n (x / 2) (omega arith),
          mul_assoc (x / 2 / 2 ^ k) (2 ^ k) 2,
          ap (λ (t : ℕ). x / 2 / 2 ^ k * t) (pow-suc 2 k),
        ))
