-- ===== src/Address/Display.antt =====
-- `Display` of `IpAddr`: dotted decimals for IPv4; for IPv6 the groups in hexadecimal, with the first
-- of the longest runs of at least two zero groups shortened to `::`, and an IPv4-mapped address as
-- `::ffff:` and its IPv4 address.
use bancuh_dns.Prelude.{
  ℕ, zero, suc, ◌+◌, ◌*◌, ◌/◌, ◌%◌, ◌^◌, true, false, none, some, List, [], ◌∷◌, ◌++◌, map, ltb,
  ◌==◌, if◌then◌else◌, drop,
}
use bancuh_dns.Text.{Text, codes, join}
use bancuh_dns.Address.{IpAddr, v4, v6, to_ipv4_mapped}

-- `{}` of a byte.
abbrev pub decimal : ℕ → Text
decimal n =
    if ltb n 10
    then (48 + n) ∷ []
    else if ltb n 100
    then (48 + n / 10) ∷ (48 + n % 10) ∷ []
    else (48 + n / 100) ∷ (48 + n / 10 % 10) ∷ (48 + n % 10) ∷ []

unfoldable pub ipv4_text : ℕ → Text
ipv4_text bits =
    decimal (bits / 16777216)
    ++ b'.'
      ∷ (decimal (bits / 65536 % 256)
          ++ b'.' ∷ (decimal (bits / 256 % 256) ++ b'.' ∷ decimal (bits % 256)))

abbrev pub hex_digit : ℕ → ℕ
hex_digit d = if ltb d 10 then 48 + d else 87 + d

-- `{:x}` of a group.
abbrev pub hex : ℕ → Text
hex n =
    if ltb n 0x10
    then hex_digit n ∷ []
    else if ltb n 0x100
    then hex_digit (n / 0x10) ∷ hex_digit (n % 0x10) ∷ []
    else if ltb n 0x1000
    then hex_digit (n / 0x100) ∷ hex_digit (n / 0x10 % 0x10) ∷ hex_digit (n % 0x10) ∷ []
    else hex_digit (n / 0x1000)
      ∷ hex_digit (n / 0x100 % 0x10)
      ∷ hex_digit (n / 0x10 % 0x10)
      ∷ hex_digit (n % 0x10)
      ∷ []

-- `segments`
abbrev pub segments : ℕ → List ℕ
segments bits = map (λ k. bits / 2 ^ (16 * k) % 65536) (7 ∷ 6 ∷ 5 ∷ 4 ∷ 3 ∷ 2 ∷ 1 ∷ 0 ∷ [])

-- The start and the length of a run of zero groups.
pub record Span : Type 0 where
  pub start : ℕ
  pub len : ℕ

-- One group of the loop that looks for the longest run.
abbrev pub longer : Span → Span → Span
longer current longest = if ltb longest.len current.len then current else longest

abbrev pub longest_from : ℕ → Span → Span → List ℕ → Span
longest_from i current longest [] = longest
longest_from i current longest (g ∷ gs) = elim (g == 0) [
  | true ↦
      let current' : Span = record {
        start = if current.len == 0 then i else current.start;
        len = suc current.len;
      } in
      longest_from (suc i) current' (longer current' longest) gs
  | false ↦ longest_from (suc i) (record { start = 0; len = 0 }) longest gs
]

abbrev pub take : ℕ → List ℕ → List ℕ
take zero gs = []
take (suc n) [] = []
take (suc n) (g ∷ gs) = g ∷ take n gs

-- `fmt_subslice`
abbrev pub hex_groups : List ℕ → Text
hex_groups gs = join (codes ":") (map hex gs)

abbrev pub shortened : List ℕ → Span → Text
shortened gs zeroes =
    if ltb 1 zeroes.len
    then hex_groups (take zeroes.start gs)
      ++ (codes "::" ++ hex_groups (drop (zeroes.start + zeroes.len) gs))
    else hex_groups gs

unfoldable pub ipv6_text : ℕ → Text
unfolding ipv4_text join
ipv6_text bits = elim (to_ipv4_mapped bits) [
  | some b ↦ codes "::ffff:" ++ ipv4_text b
  | none ↦
      let gs = segments bits in
      let nowhere : Span = record { start = 0; len = 0 } in
      shortened gs (longest_from 0 nowhere nowhere gs)
]

-- `ip.to_string()`
unfoldable pub ip_text : IpAddr → Text
unfolding ipv4_text ipv6_text
ip_text (v4 bits) = ipv4_text bits
ip_text (v6 bits) = ipv6_text bits
