-- ===== src/Admin/Markup.antt =====
-- That the page of src/admin.rs has the tags of its template only: what the texts in it may hold.
use bancuh_dns.Prelude.{
  ℕ, zero, suc, ◌+◌, ◌*◌, ◌/◌, ◌%◌, ◌<◌, ◌≡◌, refl, true, false, some, List, [], ◌∷◌, ◌++◌, arith,
  length, drop, All, Bool, ◌^◌, ltb, ◌==◌, if◌then◌else◌, Bool-cases, Option-cases, inl, inr,
}
use bancuh_dns.Text.{Text, codes, join}
use bancuh_dns.Address.{IpAddr, IsAddress, v4, v6, to_ipv4_mapped}
use bancuh_dns.Address.Display.{
  decimal, hex, hex_digit, take, segments, longest_from, ipv4_text, ipv6_text, ip_text, hex_groups,
  shortened, Span,
}
use bancuh_dns.QueryLog.{QueryLog, QueryLogStore}
use bancuh_dns.Admin.{
  get_logs_api, strip_prefix, unwrap_or, normalize_ip, html_escape, number_before, number_text, row,
  rows, get_logs_html,
}
use bancuh_dns.Admin.Escape.{IsPlain, html_escape-IsPlain}

-- The number of tags: each is opened by `<`.
abbrev pub tags : Text → ℕ
tags [] = 0
tags (x ∷ s) = if x == b'<' then suc (tags s) else tags s

tags-append : (s t : Text) → tags (s ++ t) ≡ tags s + tags t
tags-append [] t = omega arith
tags-append (x ∷ s) t = ground (arith, tags-append s t)

tags-IsPlain : (s : Text) → All IsPlain s → tags s ≡ 0
tags-IsPlain [] h = refl
tags-IsPlain (x ∷ s) h = ground (arith, h.0.0, tags-IsPlain s h.1)

tags-html_escape : (s : Text) → tags (html_escape s) ≡ 0
tags-html_escape s = tags-IsPlain (html_escape s) (html_escape-IsPlain s)

tags-both : (s t : Text) → tags s ≡ 0 → tags t ≡ 0 → tags (s ++ t) ≡ 0
tags-both s t h k = omega (arith, tags-append s t)

tags-if : (b : Bool) (s t : Text) → tags s ≡ 0 → tags t ≡ 0 → tags (if b then s else t) ≡ 0
tags-if true s t h k = h
tags-if false s t h k = k

tags-digit : (d : ℕ) (s : Text) → d < 10 → tags s ≡ 0 → tags ((48 + d) ∷ s) ≡ 0
tags-digit d s small h = ground arith

tags-decimal : (n : ℕ) → n < 256 → tags (decimal n) ≡ 0
tags-decimal n h = ground arith

hex_digit-ne : (d : ℕ) → (hex_digit d == b'<') ≡ false
hex_digit-ne d = ground arith

tags-hex : (n : ℕ) → tags (hex n) ≡ 0
tags-hex n = ground (
  arith,
  hex_digit-ne n,
  hex_digit-ne (n / 0x10),
  hex_digit-ne (n / 0x100),
  hex_digit-ne (n / 0x1000),
  hex_digit-ne (n % 0x10),
  hex_digit-ne (n / 0x10 % 0x10),
  hex_digit-ne (n / 0x100 % 0x10),
)

tags-hex_groups : (gs : List ℕ) → tags (hex_groups gs) ≡ 0
unfolding join
tags-hex_groups [] = refl
tags-hex_groups (g ∷ []) = tags-hex g
tags-hex_groups (g ∷ g' ∷ gs) =
    tags-both (hex g) (codes ":" ++ hex_groups (g' ∷ gs)) (tags-hex g) (tags-hex_groups (g' ∷ gs))

tags-number_before : (fuel n : ℕ) (s : Text) → tags s ≡ 0 → tags (number_before fuel n s) ≡ 0
tags-number_before zero n s h = ground arith
tags-number_before (suc fuel) n s h = elim (Bool-cases (ltb n 10)) [
  | inl e ↦ rw (number_before, e) (ground arith)
  | inr e ↦
      rw (number_before, e)
        (tags-number_before fuel (n / 10) ((48 + n % 10) ∷ s)
          (tags-digit (n % 10) s (omega arith) h))
]

tags-ipv4_text : (bits : ℕ) → bits < 2 ^ 32 → tags (ipv4_text bits) ≡ 0
unfolding ipv4_text
tags-ipv4_text bits h =
    tags-both (decimal (bits / 16777216)) _ (tags-decimal (bits / 16777216) (omega arith)) (
      tags-both (decimal (bits / 65536 % 256)) _ (tags-decimal (bits / 65536 % 256) (omega arith)) (
        tags-both (decimal (bits / 256 % 256)) _ (tags-decimal (bits / 256 % 256) (omega arith))
          (tags-decimal (bits % 256) (omega arith))))

tags-shortened : (gs : List ℕ) (zeroes : Span) → tags (shortened gs zeroes) ≡ 0
tags-shortened gs zeroes =
    tags-if (ltb 1 zeroes.len) _ _
      (tags-both (hex_groups (take zeroes.start gs))
        (codes "::" ++ hex_groups (drop (zeroes.start + zeroes.len) gs)) (tags-hex_groups _)
        (tags-hex_groups (drop (zeroes.start + zeroes.len) gs)))
      (tags-hex_groups gs)

mapped-lt : (bits b : ℕ) → to_ipv4_mapped bits ≡ some b → b < 2 ^ 32
mapped-lt bits b h = ground arith

tags-ip_text : (ip : IpAddr) → IsAddress ip → tags (ip_text ip) ≡ 0
unfolding ip_text ipv6_text
tags-ip_text (v4 bits) h = tags-ipv4_text bits h
tags-ip_text (v6 bits) h = elim (Option-cases (to_ipv4_mapped bits)) [
  | inl e ↦
      rw (ip_text, ipv6_text, e)
        (tags-shortened (segments bits) (
          longest_from 0 (record { start = 0; len = 0 }) (record { start = 0; len = 0 })
            (segments bits)))
  | inr (b, e) ↦ rw (ip_text, ipv6_text, e) (tags-ipv4_text b (mapped-lt bits b e))
]

tags-strip_prefix :
    (s p t : Text) → tags s ≡ 0 → tags t ≡ 0 → tags (unwrap_or (strip_prefix s p) t) ≡ 0
tags-strip_prefix s [] t h k = h
tags-strip_prefix [] (c ∷ p) t h k = k
tags-strip_prefix (x ∷ s) (c ∷ p) t h k = elim (Bool-cases (x == c)) [
  | inl e ↦ rw (strip_prefix, e) (tags-strip_prefix s p t (ground arith) k)
  | inr e ↦ rw (strip_prefix, e) k
]

tags-normalize_ip : (ip : IpAddr) → IsAddress ip → tags (normalize_ip ip) ≡ 0
unfolding normalize_ip
tags-normalize_ip ip h =
    tags-strip_prefix (ip_text ip) (codes "::ffff:") (ip_text ip) (tags-ip_text ip h)
      (tags-ip_text ip h)

tags-number_text : (n : ℕ) → tags (number_text n) ≡ 0
tags-number_text n = tags-number_before n n [] refl

module _ (format_time : ℕ → Text) (no_tags : (t : ℕ) → tags (format_time t) ≡ 0) where
  tags-row : (q : QueryLog) → tags (row format_time q) ≡ 8
  unfolding row
  tags-row q = simp (row, tags-append, no_tags, tags-html_escape) refl

  tags-rows : (qs : List QueryLog) → tags (rows format_time qs) ≡ 8 * length qs
  unfolding rows
  tags-rows [] = refl
  tags-rows (q ∷ qs) =
      omega (arith, tags-append (row format_time q) (rows format_time qs), tags-row q, tags-rows qs)

  -- Where a formatted time has no `<`, the page of a client has the 33 tags of its template and 8
  -- for each query that get_logs_api returns, whatever questions and answers clients have had
  -- logged.
  pub tags-get_logs_html :
      (store : QueryLogStore) (src : IpAddr) (now now' : ℕ)
      → IsAddress src
      → tags (get_logs_html format_time store src now now')
        ≡ 33 + 8 * length (get_logs_api store src now).queries
  unfolding get_logs_html get_logs_api
  tags-get_logs_html store src now now' a =
      simp (get_logs_html, tags-append, tags-normalize_ip src a, tags-number_text, tags-rows)
        (omega arith)
