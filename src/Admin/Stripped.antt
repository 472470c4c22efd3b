-- ===== src/Admin/Stripped.antt =====
-- Where src/admin.rs takes `::ffff:` off the text of an address that is not IPv4-mapped: what is left
-- is no address, so that it asks for the logs of the address itself.
use bancuh_dns.Prelude.{
  ℕ, ==_iff, ◌+◌, ◌^◌, ◌<◌, ◌≡◌, ◌∙◌, refl, ap, sym, none, some, List, [], ◌∷◌, ◌++◌, ◌==◌, ltb,
  arith, drop, length, Bool-cases, Option-cases, inl, inr, lt_or_le, some_injective, append_assoc,
  append-nil,
}
use bancuh_dns.Text.{Text, codes, join}
use bancuh_dns.Address.{v6, to_ipv4_mapped}
use bancuh_dns.Address.Display.{
  Span, take, segments, hex, hex_groups, shortened, ipv6_text, ip_text,
}
use bancuh_dns.Address.Parse.{parse_ip}
use bancuh_dns.Address.Hex.{hex-one, hex-two, hex-three, hex-four, hex_first, hex_digit-ne_colon}
use bancuh_dns.Address.Groups.{group_texts, hex_groups-group_texts, hex_groups-cons}
use bancuh_dns.Address.Runs.{IsRun, length-split_run, longest-IsRun}
use bancuh_dns.Address.V6.{
  AreGroups, AreGroups-drop, segments-AreGroups, zero_run, ipv6_text-shortened, parse_ip-ipv6_text,
  parse_ip-few,
}
use bancuh_dns.Admin.{strip_prefix, normalize_ip, log_ip}

strip_prefix_sound : (s p : Text) {t : Text} → strip_prefix s p ≡ some t → s ≡ p ++ t
strip_prefix_sound s [] h = some_injective h
strip_prefix_sound [] (c ∷ p) h = cc h
strip_prefix_sound (x ∷ s) (c ∷ p) h = elim (Bool-cases (x == c)) [
  | inl e ↦ cc ((==_iff x c).0 e, strip_prefix_sound s p (rw (strip_prefix, e) at h))
  | inr e ↦ cc (rw (strip_prefix, e) at h)
]

-- A text that begins with a group does not begin with a colon.
strip_prefix-hex : (g : ℕ) (s p : Text) → strip_prefix (hex g ++ s) (b':' ∷ p) ≡ none
strip_prefix-hex g s p =
    let (d, s', e) = hex_first g in rw (e, strip_prefix, hex_digit-ne_colon d) refl

strip_prefix-hex_groups :
    (g : ℕ) (gs : List ℕ) (s p : Text) → strip_prefix (hex_groups (g ∷ gs) ++ s) (b':' ∷ p) ≡ none
strip_prefix-hex_groups g gs s p =
    ap (λ t. strip_prefix (t ++ s) (b':' ∷ p)) (hex_groups-group_texts (g ∷ gs))
    ∙ ap (λ t. strip_prefix t (b':' ∷ p)) (append_assoc (hex g) (group_texts 1 gs) s)
    ∙ strip_prefix-hex g (group_texts 1 gs ++ s) p

tail : Text → Text
tail [] = []
tail (x ∷ s) = s

-- After a group there is a colon or nothing, no `f`.
no_digit : (gs : List ℕ) (s : Text) → group_texts 1 gs ≡ b'f' ∷ s → ⊥
no_digit [] s h = cc h
no_digit (g ∷ gs) s h = ground arith

after_colon : (gs : List ℕ) (t : Text) → group_texts 1 gs ≡ b':' ∷ t → t ≡ hex_groups gs
unfolding tail
after_colon [] t h = cc h
after_colon (g ∷ gs) t h = ap tail (sym h ∙ sym (hex_groups-cons 0 g gs))

after_ffff :
    (g : ℕ) (gs : List ℕ) (t : Text)
    → hex g ++ group_texts 1 gs ≡ codes "ffff:" ++ t
    → t ≡ hex_groups gs
unfolding tail
after_ffff g gs t h = elim (lt_or_le g 0x10) [
  | inl one ↦ absurd (no_digit gs (codes "ff:" ++ t) (ap tail (rw (hex-one g one) at h)))
  | inr ge1 ↦ elim (lt_or_le g 0x100) [
    | inl two ↦
        absurd
          (no_digit gs (codes "f:" ++ t) (ap (λ s. tail (tail s)) (rw (hex-two g ge1 two) at h)))
    | inr ge2 ↦ elim (lt_or_le g 0x1000) [
      | inl three ↦ absurd (
          no_digit gs (codes ":" ++ t)
            (ap (λ s. tail (tail (tail s))) (rw (hex-three g ge2 three) at h)))
      | inr ge3 ↦
          after_colon gs t (ap (λ s. tail (tail (tail (tail s)))) (rw (hex-four g ge3) at h))
    ]
  ]
]

-- What is left of the groups after `::`.
after_colons :
    (post : List ℕ) (t : Text)
    → length post < 8
    → AreGroups post
    → hex_groups post ≡ codes "ffff:" ++ t
    → parse_ip t ≡ none
unfolding join
after_colons [] t few h e = cc e
after_colons (g ∷ gs) t few h e =
    ap parse_ip (after_ffff g gs t (sym (hex_groups-group_texts (g ∷ gs)) ∙ e))
    ∙ parse_ip-few gs (omega arith) h.1

-- The two parts of the text around `::`, the first of which is empty if it begins with a colon.
after_split :
    (pre post : List ℕ) (t : Text)
    → length post < 8
    → AreGroups post
    → strip_prefix (hex_groups pre ++ (codes "::" ++ hex_groups post)) (codes "::ffff:") ≡ some t
    → parse_ip t ≡ none
unfolding tail join
after_split [] post t few h e = after_colons post t few h (
    ap (λ s. tail (tail s))
      (strip_prefix_sound (codes "::" ++ hex_groups post) (codes "::ffff:") e))
after_split (g ∷ gs) post t few h e =
    cc (strip_prefix-hex_groups g gs (codes "::" ++ hex_groups post) (codes ":ffff:"), e)

whole : (gs : List ℕ) (t : Text) → strip_prefix (hex_groups gs) (codes "::ffff:") ≡ some t → ⊥
unfolding join
whole [] t e = cc e
whole (g ∷ gs) t e = cc (
  ap (λ s. strip_prefix s (codes "::ffff:")) (append-nil (hex_groups (g ∷ gs))),
  strip_prefix-hex_groups g gs [] (codes ":ffff:"),
  e,
)

stripped :
    (gs : List ℕ) (z : Span) (t : Text)
    → length gs ≡ 8
    → AreGroups gs
    → IsRun gs z
    → strip_prefix (shortened gs z) (codes "::ffff:") ≡ some t
    → parse_ip t ≡ none
stripped gs z t eight h run e = elim (Bool-cases (ltb 1 z.len)) [
  | inl long ↦
      let positive : 1 < z.len = ground arith in
      after_split (take z.start gs) (drop (z.start + z.len) gs) t
        (omega (arith, length-split_run gs z run)) (AreGroups-drop (z.start + z.len) gs h)
        (rw (shortened, long) at e)
  | inr short ↦ absurd (whole gs t (rw (shortened, short) at e))
]

-- The logs of a client over IPv6 proper are looked up under its own address.
pub log_ip-v6 :
    (bits : ℕ) → bits < 2 ^ 128 → to_ipv4_mapped bits ≡ none → log_ip (v6 bits) ≡ v6 bits
unfolding log_ip ip_text
log_ip-v6 bits h e = elim (Option-cases (strip_prefix (ipv6_text bits) (codes "::ffff:"))) [
  | inl whole_text ↦ rw (log_ip, normalize_ip, whole_text, parse_ip-ipv6_text bits h e) refl
  | inr (t, rest) ↦
      rw
        (
          log_ip,
          normalize_ip,
          rest,
          stripped (segments bits) (zero_run bits) t refl (segments-AreGroups bits)
              (longest-IsRun (segments bits))
              (ap (λ s. strip_prefix s (codes "::ffff:")) (sym (ipv6_text-shortened bits e))
                ∙ rest),
        )
        refl
]
