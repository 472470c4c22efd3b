-- ===== src/Address/Parse.antt =====
-- `FromStr` of `IpAddr`: the parser of `core::net`. A reader gives what it has read and the rest of
-- the text, or `none`, after which its caller goes on where it stood.
use bancuh_dns.Prelude.{
  ℕ, zero, suc, ◌+◌, ◌-◌, ◌*◌, ◌/◌, ◌%◌, Bool, true, false, ◌&&◌, ◌||◌, Option, none, some, List,
  [], ◌∷◌, ◌++◌, ltb, leb, ◌==◌, if◌then◌else◌, length, and_then,
}
use bancuh_dns.Text.{Text}
use bancuh_dns.Address.{IpAddr, v4, v6}

abbrev pub Reader : Type 0 → Type 0
Reader A = Text → Option (A × Text)

infixl 5 ◌>>=◌ ◌>>◌
abbrev ◌>>=◌ : {A B : Type 0} → Reader A → (A → Reader B) → Reader B
(m >>= f) s = and_then (m s) λ p. f p.0 p.1

abbrev ◌>>◌ : {A B : Type 0} → Reader A → Reader B → Reader B
m >> k = m >>= λ _. k

abbrev pure : {A : Type 0} → A → Reader A
pure a s = some (a, s)

-- `read_given_char`
abbrev pub given : ℕ → Reader (Unit {0})
given c [] = none
given c (x ∷ s) = if x == c then some (tt, s) else none

-- `c.to_digit(10)`
abbrev pub to_digit10 : ℕ → Option ℕ
to_digit10 x = if leb 48 x && leb x 57 then some (x - 48) else none

-- `c.to_digit(16)`
abbrev pub to_digit16 : ℕ → Option ℕ
to_digit16 x =
    if leb 48 x && leb x 57
    then some (x - 48)
    else if leb 97 x && leb x 102
    then some (x - 87)
    else if leb 65 x && leb x 70
    then some (x - 55)
    else none

-- The loop of `read_number`, with the value so far and the count of its digits; `limit` is the first
-- number that the type does not hold.
abbrev pub digits :
    (to_digit : ℕ → Option ℕ) (radix limit max_digits value count : ℕ) → Reader (ℕ × ℕ)
digits to_digit radix limit max_digits value count [] = some ((value, count), [])
digits to_digit radix limit max_digits value count (x ∷ s) = elim (to_digit x) [
  | none ↦ some ((value, count), x ∷ s)
  | some d ↦
      let rest = digits to_digit radix limit max_digits (value * radix + d) (suc count) s in
      if leb limit (value * radix + d) || ltb max_digits (suc count) then none else rest
]

abbrev pub starts_zero : Text → Bool
starts_zero [] = false
starts_zero (x ∷ s) = x == 48

-- `read_number(10, Some(3), false)` of a byte.
abbrev pub read_octet : Reader ℕ
read_octet s =
    and_then (digits to_digit10 10 256 3 0 0 s)
      λ p. if (p.0.1 == 0) || (starts_zero s && ltb 1 p.0.1) then none else some (p.0.0, p.1)

-- `read_number(16, Some(4), true)` of a group.
abbrev pub read_group : Reader ℕ
read_group s =
    and_then (digits to_digit16 16 65536 4 0 0 s)
      λ p. if p.0.1 == 0 then none else some (p.0.0, p.1)

-- `read_separator`
abbrev pub separated : {A : Type 0} → ℕ → ℕ → Reader A → Reader A
separated c zero m = m
separated c (suc i) m = given c >>= λ _. m

-- `read_ipv4_addr`
unfoldable pub read_ipv4 : Reader ℕ
read_ipv4 = do
  a ← read_octet
  given b'.'
  b ← read_octet
  given b'.'
  c ← read_octet
  given b'.'
  d ← read_octet
  pure (a * 16777216 + b * 65536 + c * 256 + d)

-- `read_groups` from the i-th of its groups on, with `left` to go: the groups, and whether the last
-- two are an IPv4 address.
abbrev pub read_groups : (left i : ℕ) → Text → (List ℕ × Bool) × Text
read_groups zero i s = (([], false), s)
read_groups (suc left) i s = elim (if leb 1 left then separated b':' i read_ipv4 s else none) [
  | some p ↦ ((p.0 / 65536 ∷ p.0 % 65536 ∷ [], true), p.1)
  | none ↦ elim (separated b':' i read_group s) [
    | none ↦ (([], false), s)
    | some p ↦ let rest = read_groups left (suc i) p.1 in ((p.0 ∷ rest.0.0, rest.0.1), rest.1)
  ]
]

abbrev pub zeros : ℕ → List ℕ
zeros zero = []
zeros (suc n) = 0 ∷ zeros n

-- The address of eight groups.
abbrev pub of_groups : ℕ → List ℕ → ℕ
of_groups value [] = value
of_groups value (g ∷ gs) = of_groups (value * 65536 + g) gs

-- `read_ipv6_addr`
unfoldable pub read_ipv6 : Reader ℕ
unfolding read_ipv4
read_ipv6 s =
    let head = read_groups 8 0 s in
    let head_size = length head.0.0 in
    if head_size == 8
    then some (of_groups 0 head.0.0, head.1)
    else if head.0.1
    then none
    else (do
      given b':'
      given b':'
      (λ s'.
          let tail = read_groups (7 - head_size) 0 s' in
          some (
            of_groups 0 (head.0.0 ++ (zeros (8 - head_size - length tail.0.0) ++ tail.0.0)),
            tail.1,
          )))
        head.1

-- `read_ip_addr`
abbrev read_ip : Reader IpAddr
read_ip s = elim (read_ipv4 s) [
  | some p ↦ some (v4 p.0, p.1)
  | none ↦ and_then (read_ipv6 s) λ p. some (v6 p.0, p.1)
]

-- `parse`: the text has to end there.
unfoldable pub parse_ip : Text → Option IpAddr
unfolding read_ipv4 read_ipv6
parse_ip s = elim (read_ip s) [ none ↦ none | some (ip, []) ↦ some ip | some (ip, x ∷ rest) ↦ none ]
