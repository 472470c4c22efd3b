-- ===== src/Address/RoundTrip.antt =====
-- The text of an IPv4 address is read back as that address.
use bancuh_dns.Prelude.{
  ℕ, suc, ◌+◌, ◌*◌, ◌/◌, ◌%◌, ◌^◌, ◌≤◌, ◌<◌, ◌≡◌, refl, ap, none, some, [], ◌∷◌, ◌++◌, arith,
  lt_or_le, inl, inr, append-nil, subst,
}
use bancuh_dns.Text.{Text}
use bancuh_dns.Address.{v4}
use bancuh_dns.Address.Display.{decimal, ipv4_text}
use bancuh_dns.Address.Parse.{to_digit10, digits, read_octet, read_ipv4, parse_ip}

to_digit10-digit : (d : ℕ) → d < 10 → to_digit10 (48 + d) ≡ some d
to_digit10-digit d h = ground arith

-- The text does not go on with a digit.
abbrev Stops : Text → Type 0
Stops [] = Unit
Stops (x ∷ s) = to_digit10 x ≡ none

digits-Stops :
    (s : Text) (value count : ℕ)
    → Stops s
    → digits to_digit10 10 256 3 value count s ≡ some ((value, count), s)
digits-Stops [] value count h = refl
digits-Stops (x ∷ s) value count h = rw (digits, h) refl

digits-digit :
    (value d v : ℕ) (s : Text) (count : ℕ)
    → d < 10
    → value * 10 + d ≡ v
    → v < 256
    → count < 3
    → digits to_digit10 10 256 3 value count ((48 + d) ∷ s)
      ≡ digits to_digit10 10 256 3 v (suc count) s
digits-digit value d v s count h e small few = rw (digits, to_digit10-digit d h, e) (ground arith)

read_octet-one : (n : ℕ) (s : Text) → n < 10 → Stops s → read_octet ((48 + n) ∷ s) ≡ some (n, s)
read_octet-one n s h stops =
    let first : digits to_digit10 10 256 3 0 0 ((48 + n) ∷ s) ≡ digits to_digit10 10 256 3 n 1 s =
      digits-digit 0 n n s 0 h (omega arith) (omega arith) (omega arith) in
    rw (read_octet, first, digits-Stops s n 1 stops) (ground arith)

read_octet-two :
    (a b n : ℕ) (s : Text)
    → 0 < a
    → a < 10
    → b < 10
    → a * 10 + b ≡ n
    → n < 256
    → Stops s
    → read_octet ((48 + a) ∷ (48 + b) ∷ s) ≡ some (n, s)
read_octet-two a b n s pos h k e small stops =
    let first : digits to_digit10 10 256 3 0 0 ((48 + a) ∷ (48 + b) ∷ s)
        ≡ digits to_digit10 10 256 3 a 1 ((48 + b) ∷ s) =
      digits-digit 0 a a ((48 + b) ∷ s) 0 h (omega arith) (omega arith) (omega arith) in
    rw (read_octet, first, digits-digit a b n s 1 k e small (omega arith), digits-Stops s n 2 stops)
      (ground arith)

read_octet-three :
    (a b c m n : ℕ) (s : Text)
    → 0 < a
    → a < 10
    → b < 10
    → c < 10
    → a * 10 + b ≡ m
    → m * 10 + c ≡ n
    → n < 256
    → Stops s
    → read_octet ((48 + a) ∷ (48 + b) ∷ (48 + c) ∷ s) ≡ some (n, s)
read_octet-three a b c m n s pos ha hb hc e e' small stops =
    let first : digits to_digit10 10 256 3 0 0 ((48 + a) ∷ (48 + b) ∷ (48 + c) ∷ s)
        ≡ digits to_digit10 10 256 3 a 1 ((48 + b) ∷ (48 + c) ∷ s) =
      digits-digit 0 a a ((48 + b) ∷ (48 + c) ∷ s) 0 ha (omega arith) (omega arith) (omega arith) in
    rw
      (
        read_octet,
        first,
        digits-digit a b m ((48 + c) ∷ s) 1 hb e (omega arith) (omega arith),
        digits-digit m c n s 2 hc e' small (omega arith),
        digits-Stops s n 3 stops,
      )
      (ground arith)

pub decimal-one : (n : ℕ) → n < 10 → decimal n ≡ (48 + n) ∷ []
decimal-one n h = ground arith

pub decimal-two : (n : ℕ) → 10 ≤ n → n < 100 → decimal n ≡ (48 + n / 10) ∷ (48 + n % 10) ∷ []
decimal-two n h k = ground arith

pub decimal-three :
    (n : ℕ) → 100 ≤ n → decimal n ≡ (48 + n / 100) ∷ (48 + n / 10 % 10) ∷ (48 + n % 10) ∷ []
decimal-three n h = ground arith

read_octet-decimal :
    (n : ℕ) (s : Text) → n < 256 → Stops s → read_octet (decimal n ++ s) ≡ some (n, s)
read_octet-decimal n s h stops = elim (lt_or_le n 10) [
  | inl one ↦ rw (decimal-one n one) (read_octet-one n s one stops)
  | inr more ↦ elim (lt_or_le n 100) [
    | inl two ↦ rw (decimal-two n more two) (
        read_octet-two (n / 10) (n % 10) n s (omega arith) (omega arith) (omega arith) (omega arith)
          h stops)
    | inr three ↦ rw (decimal-three n three) (
        read_octet-three (n / 100) (n / 10 % 10) (n % 10) (n / 10) n s (omega arith) (omega arith)
          (omega arith) (omega arith) (omega arith) (omega arith) h stops)
  ]
]

read_octet-last : (n : ℕ) → n < 256 → read_octet (decimal n) ≡ some (n, [])
read_octet-last n h =
    subst (λ s. read_octet s ≡ some (n, [])) (append-nil (decimal n)) (read_octet-decimal n [] h tt)

pub read_ipv4-ipv4_text : (bits : ℕ) → bits < 2 ^ 32 → read_ipv4 (ipv4_text bits) ≡ some (bits, [])
unfolding read_ipv4 ipv4_text
read_ipv4-ipv4_text bits h =
    rw
      (
        read_ipv4,
        ipv4_text,
        read_octet-decimal (bits / 16777216) _ (omega arith) refl,
        read_octet-decimal (bits / 65536 % 256) _ (omega arith) refl,
        read_octet-decimal (bits / 256 % 256) _ (omega arith) refl,
        read_octet-last (bits % 256) (omega arith),
      )
      (ap (λ b. some (b, [])) (omega arith))

pub parse_ip-ipv4_text : (bits : ℕ) → bits < 2 ^ 32 → parse_ip (ipv4_text bits) ≡ some (v4 bits)
unfolding parse_ip
parse_ip-ipv4_text bits h = rw (parse_ip, read_ipv4-ipv4_text bits h) refl
