-- ===== src/Address/Hex.antt =====
-- The text of a group of an IPv6 address is read back as that group.
use bancuh_dns.Prelude.{
  ℕ, suc, ◌+◌, ◌*◌, ◌/◌, ◌%◌, ◌≤◌, ◌<◌, ◌≡◌, ◌≢◌, ◌==◌, All, ◌∙◌, refl, false, Option, none, some,
  [], ◌∷◌, ◌++◌, arith, inl, inr, lt_or_le,
}
use bancuh_dns.Text.{Text}
use bancuh_dns.Address.Display.{hex, hex_digit}
use bancuh_dns.Address.Parse.{to_digit16, digits, read_group}

-- The text does not go on with a digit.
abbrev pub Stops : Text → Type 0
Stops [] = Unit
Stops (x ∷ s) = to_digit16 x ≡ none

module _ (to_digit : ℕ → Option ℕ) (radix limit max_digits : ℕ) where
  digits-digit :
      (value x d v : ℕ) (s : Text) (count : ℕ)
      → to_digit x ≡ some d
      → value * radix + d ≡ v
      → v < limit
      → count < max_digits
      → digits to_digit radix limit max_digits value count (x ∷ s)
        ≡ digits to_digit radix limit max_digits v (suc count) s
  digits-digit value x d v s count e e' small few = rw (digits, e, e') (ground arith)

to_digit16-hex_digit : (d : ℕ) → d < 16 → to_digit16 (hex_digit d) ≡ some d
to_digit16-hex_digit d h = ground arith

digits-Stops :
    (s : Text) (value count : ℕ)
    → Stops s
    → digits to_digit16 16 65536 4 value count s ≡ some ((value, count), s)
digits-Stops [] value count h = refl
digits-Stops (x ∷ s) value count h = rw (digits, h) refl

-- One digit after those that make up `value`.
digits-hex_digit :
    (value d v : ℕ) (s : Text) (count : ℕ)
    → d < 16
    → value * 16 + d ≡ v
    → v < 65536
    → count < 4
    → digits to_digit16 16 65536 4 value count (hex_digit d ∷ s)
      ≡ digits to_digit16 16 65536 4 v (suc count) s
digits-hex_digit value d v s count h e small few =
    digits-digit to_digit16 16 65536 4 value (hex_digit d) d v s count (to_digit16-hex_digit d h) e
      small few

pub hex-one : (n : ℕ) → n < 0x10 → hex n ≡ hex_digit n ∷ []
hex-one n h = ground arith

pub hex-two :
    (n : ℕ) → 0x10 ≤ n → n < 0x100 → hex n ≡ hex_digit (n / 0x10) ∷ hex_digit (n % 0x10) ∷ []
hex-two n h k = ground arith

pub hex-three :
    (n : ℕ)
    → 0x100 ≤ n
    → n < 0x1000
    → hex n ≡ hex_digit (n / 0x100) ∷ hex_digit (n / 0x10 % 0x10) ∷ hex_digit (n % 0x10) ∷ []
hex-three n h k = ground arith

pub hex-four :
    (n : ℕ)
    → 0x1000 ≤ n
    → hex n
      ≡ hex_digit (n / 0x1000)
        ∷ hex_digit (n / 0x100 % 0x10)
        ∷ hex_digit (n / 0x10 % 0x10)
        ∷ hex_digit (n % 0x10)
        ∷ []
hex-four n h = ground arith

digits-hex :
    (n : ℕ) (s : Text)
    → n < 65536
    → Stops s
    → (count : ℕ) × (digits to_digit16 16 65536 4 0 0 (hex n ++ s) ≡ some ((n, suc count), s))
digits-hex n s h stops = elim (lt_or_le n 0x10) [
  | inl one ↦ (
    0,
    rw (hex-one n one)
        (digits-hex_digit 0 n n s 0 one (omega arith) h (omega arith) ∙ digits-Stops s n 1 stops),
  )
  | inr ge1 ↦ elim (lt_or_le n 0x100) [
    | inl two ↦ (
      1,
      rw (hex-two n ge1 two) (
          digits-hex_digit 0 (n / 0x10) (n / 0x10) _ 0 (omega arith) (omega arith) (omega arith)
            (omega arith)
          ∙ digits-hex_digit (n / 0x10) (n % 0x10) n s 1 (omega arith) (omega arith) h (omega arith)
          ∙ digits-Stops s n 2 stops),
    )
    | inr ge2 ↦ elim (lt_or_le n 0x1000) [
      | inl three ↦ (
        2,
        rw (hex-three n ge2 three) (
            digits-hex_digit 0 (n / 0x100) (n / 0x100) _ 0 (omega arith) (omega arith) (omega arith)
              (omega arith)
            ∙ digits-hex_digit (n / 0x100) (n / 0x10 % 0x10) (n / 0x10) _ 1 (omega arith)
                (omega arith) (omega arith) (omega arith)
            ∙ digits-hex_digit (n / 0x10) (n % 0x10) n s 2 (omega arith) (omega arith) h
                (omega arith)
            ∙ digits-Stops s n 3 stops),
      )
      | inr ge3 ↦ (
        3,
        rw (hex-four n ge3) (
            digits-hex_digit 0 (n / 0x1000) (n / 0x1000) _ 0 (omega arith) (omega arith)
              (omega arith) (omega arith)
            ∙ digits-hex_digit (n / 0x1000) (n / 0x100 % 0x10) (n / 0x100) _ 1 (omega arith)
                (omega arith) (omega arith) (omega arith)
            ∙ digits-hex_digit (n / 0x100) (n / 0x10 % 0x10) (n / 0x10) _ 2 (omega arith)
                (omega arith) (omega arith) (omega arith)
            ∙ digits-hex_digit (n / 0x10) (n % 0x10) n s 3 (omega arith) (omega arith) h
                (omega arith)
            ∙ digits-Stops s n 4 stops),
      )
    ]
  ]
]

suc-eq_zero : (n : ℕ) → (suc n == 0) ≡ false
suc-eq_zero n = ground arith

pub read_group-hex :
    (n : ℕ) (s : Text) → n < 65536 → Stops s → read_group (hex n ++ s) ≡ some (n, s)
read_group-hex n s h stops =
    let (count, read) = digits-hex n s h stops in rw (read_group, read, suc-eq_zero count) refl

hex_digit-ne : (d c : ℕ) → c < 48 → hex_digit d ≢ c
hex_digit-ne d c h e = ground arith

-- The digits are none of the characters below them.
pub hex-ne : (n c : ℕ) → c < 48 → All (λ x. x ≢ c) (hex n)
hex-ne n c h = elim (lt_or_le n 0x10) [
  | inl one ↦ rw (hex-one n one) (hex_digit-ne _ c h, tt)
  | inr ge1 ↦ elim (lt_or_le n 0x100) [
    | inl two ↦ rw (hex-two n ge1 two) (hex_digit-ne _ c h, (hex_digit-ne _ c h, tt))
    | inr ge2 ↦ elim (lt_or_le n 0x1000) [
      | inl three ↦
          rw (hex-three n ge2 three)
            (hex_digit-ne _ c h, (hex_digit-ne _ c h, (hex_digit-ne _ c h, tt)))
      | inr ge3 ↦
          rw (hex-four n ge3) (
            hex_digit-ne _ c h,
            (hex_digit-ne _ c h, (hex_digit-ne _ c h, (hex_digit-ne _ c h, tt))),
          )
    ]
  ]
]

pub hex_digit-ne_colon : (d : ℕ) → (hex_digit d == b':') ≡ false
hex_digit-ne_colon d = ground arith

pub hex_first : (n : ℕ) → (d : ℕ) × (s : Text) × (hex n ≡ hex_digit d ∷ s)
hex_first n = elim (lt_or_le n 0x10) [
  | inl one ↦ (_, _, hex-one n one)
  | inr ge1 ↦ elim (lt_or_le n 0x100) [
    | inl two ↦ (_, _, hex-two n ge1 two)
    | inr ge2 ↦ elim (lt_or_le n 0x1000) [
      | inl three ↦ (_, _, hex-three n ge2 three)
      | inr ge3 ↦ (_, _, hex-four n ge3)
    ]
  ]
]
