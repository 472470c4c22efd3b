-- ===== src/Address/V6.antt =====
-- The text of an IPv6 address that is not IPv4-mapped is read back as that address.
use bancuh_dns.Prelude.{
  ℕ, zero, suc, ◌+◌, ◌-◌, ◌^◌, ◌≤◌, ◌<◌, ◌≡◌, ◌≢◌, ◌∙◌, refl, ap, sym, subst, false, Option, none,
  some, List, [], ◌∷◌, ◌++◌, ◌==◌, ltb, arith, drop, length, All, All-append, Bool-cases, inl, inr,
  append-nil,
}
use bancuh_dns.Text.{Text, codes}
use bancuh_dns.Address.{v6, to_ipv4_mapped}
use bancuh_dns.Address.Display.{
  Span, take, segments, hex_groups, shortened, longest_from, ipv6_text,
}
use bancuh_dns.Address.Parse.{zeros, of_groups, read_groups, read_ipv4, read_ipv6, parse_ip}
use bancuh_dns.Address.Groups.{
  NoDot, rest_text, NoDot-groups, read_ipv4-NoDot, read_groups-group_texts, hex_groups-group_texts,
}
use bancuh_dns.Address.Runs.{IsRun, split_run, length-split_run, longest-IsRun}

abbrev pub AreGroups : List ℕ → Type 0
AreGroups gs = All (λ g. g < 65536) gs

pub segments-AreGroups : (bits : ℕ) → AreGroups (segments bits)
segments-AreGroups bits = omega arith

of_groups-segments : (bits : ℕ) → bits < 2 ^ 128 → of_groups 0 (segments bits) ≡ bits
of_groups-segments bits h = omega arith

NoDot-hex_groups : (gs : List ℕ) → NoDot (hex_groups gs)
NoDot-hex_groups gs = subst NoDot (sym (hex_groups-group_texts gs)) (NoDot-groups 0 gs)

NoDot-append : (s t : Text) → NoDot s → NoDot t → NoDot (s ++ t)
NoDot-append s t = All-append (λ x. x ≢ b'.') s t

NoDot-shortened : (gs : List ℕ) (z : Span) → NoDot (shortened gs z)
NoDot-shortened gs z = elim (Bool-cases (ltb 1 z.len)) [
  | inl e ↦
      rw (shortened, e)
        (NoDot-append (hex_groups (take z.start gs))
          (codes "::" ++ hex_groups (drop (z.start + z.len) gs))
          (NoDot-hex_groups (take z.start gs))
          (omega arith, (omega arith, NoDot-hex_groups (drop (z.start + z.len) gs))))
  | inr e ↦ rw (shortened, e) (NoDot-hex_groups gs)
]

AreGroups-take : (n : ℕ) (gs : List ℕ) → AreGroups gs → AreGroups (take n gs)
AreGroups-take zero gs h = tt
AreGroups-take (suc n) [] h = tt
AreGroups-take (suc n) (g ∷ gs) h = (h.0, AreGroups-take n gs h.1)

pub AreGroups-drop : (n : ℕ) (gs : List ℕ) → AreGroups gs → AreGroups (drop n gs)
AreGroups-drop zero gs h = h
AreGroups-drop (suc n) [] h = tt
AreGroups-drop (suc n) (g ∷ gs) h = AreGroups-drop n gs h.1

-- Groups up to the end, or up to `::`.
read_groups-hex_groups :
    (left : ℕ) (gs : List ℕ) (o : Option Text)
    → length gs ≤ left
    → AreGroups gs
    → NoDot (rest_text o)
    → read_groups left 0 (hex_groups gs ++ rest_text o) ≡ ((gs, false), rest_text o)
read_groups-hex_groups left gs o fits h no_dot =
    ap (λ t. read_groups left 0 (t ++ rest_text o)) (hex_groups-group_texts gs)
    ∙ read_groups-group_texts left 0 gs o fits h no_dot

read_groups-end :
    (left : ℕ) (gs : List ℕ)
    → length gs ≤ left
    → AreGroups gs
    → read_groups left 0 (hex_groups gs) ≡ ((gs, false), [])
read_groups-end left gs fits h =
    ap (read_groups left 0) (sym (append-nil (hex_groups gs)))
    ∙ read_groups-hex_groups left gs none fits h tt

read_ipv6-whole :
    (gs : List ℕ)
    → length gs ≡ 8
    → AreGroups gs
    → read_ipv6 (hex_groups gs) ≡ some (of_groups 0 gs, [])
unfolding read_ipv6
read_ipv6-whole gs eight h = rw (read_ipv6, read_groups-end 8 gs (omega arith) h, eight) refl

==-false_of_lt : (a b : ℕ) → a < b → (a == b) ≡ false
==-false_of_lt a b h = ground arith

-- The run that the text of an address leaves out.
abbrev pub zero_run : ℕ → Span
zero_run bits =
    longest_from 0 (record { start = 0; len = 0 }) (record { start = 0; len = 0 }) (segments bits)

read_ipv6-split :
    (pre post : List ℕ) (n : ℕ)
    → length pre + n + length post ≡ 8
    → 1 < n
    → AreGroups pre
    → AreGroups post
    → read_ipv6 (hex_groups pre ++ (codes "::" ++ hex_groups post))
      ≡ some (of_groups 0 (pre ++ (zeros n ++ post)), [])
unfolding read_ipv6
read_ipv6-split pre post n eight some_left hp hq =
    let head : read_groups 8 0 (hex_groups pre ++ (codes "::" ++ hex_groups post))
        ≡ ((pre, false), codes "::" ++ hex_groups post) =
      read_groups-hex_groups 8 pre (some (hex_groups post)) (omega arith) hp
        (omega arith, (omega arith, NoDot-hex_groups post)) in
    let fewer : (length pre == 8) ≡ false = ==-false_of_lt (length pre) 8 (omega arith) in
    let gap : 8 - length pre - length post ≡ n = omega arith in
    rw (read_ipv6, head, fewer, read_groups-end (7 - length pre) post (omega arith) hq, gap) refl

read_ipv6-shortened :
    (gs : List ℕ) (z : Span)
    → length gs ≡ 8
    → AreGroups gs
    → IsRun gs z
    → read_ipv6 (shortened gs z) ≡ some (of_groups 0 gs, [])
read_ipv6-shortened gs z eight h run = elim (Bool-cases (ltb 1 z.len)) [
  | inl e ↦
      let pre = take z.start gs in
      let post = drop (z.start + z.len) gs in
      rw (shortened, e)
        (read_ipv6-split pre post z.len (length-split_run gs z run ∙ eight) (ground arith)
            (AreGroups-take z.start gs h) (AreGroups-drop (z.start + z.len) gs h)
          ∙ ap (λ t. some (of_groups 0 t, [])) (sym (split_run gs z run)))
  | inr e ↦ rw (shortened, e) (read_ipv6-whole gs eight h)
]

pub ipv6_text-shortened :
    (bits : ℕ)
    → to_ipv4_mapped bits ≡ none
    → ipv6_text bits ≡ shortened (segments bits) (zero_run bits)
unfolding ipv6_text
ipv6_text-shortened bits e = rw (ipv6_text, e) refl

parse_ip-read_ipv6 :
    (s : Text) (bits : ℕ)
    → read_ipv4 s ≡ none
    → read_ipv6 s ≡ some (bits, [])
    → parse_ip s ≡ some (v6 bits)
unfolding parse_ip
parse_ip-read_ipv6 s bits e e' = rw (parse_ip, e, e') refl

-- The text of an address is read back, where it is not IPv4-mapped.
pub parse_ip-ipv6_text :
    (bits : ℕ)
    → bits < 2 ^ 128
    → to_ipv4_mapped bits ≡ none
    → parse_ip (ipv6_text bits) ≡ some (v6 bits)
parse_ip-ipv6_text bits h e =
    let gs = segments bits in
    let z = zero_run bits in
    let read : read_ipv6 (shortened gs z) ≡ some (bits, []) =
      read_ipv6-shortened gs z refl (segments-AreGroups bits) (longest-IsRun gs)
      ∙ ap (λ b. some (b, [])) (of_groups-segments bits h) in
    ap parse_ip (ipv6_text-shortened bits e)
    ∙ parse_ip-read_ipv6 (shortened gs z) bits
        (read_ipv4-NoDot (shortened gs z) (NoDot-shortened gs z)) read

-- Fewer than eight groups without `::` are no address.
pub parse_ip-few : (gs : List ℕ) → length gs < 8 → AreGroups gs → parse_ip (hex_groups gs) ≡ none
unfolding parse_ip read_ipv6
parse_ip-few gs few h =
    rw
      (
        parse_ip,
        read_ipv4-NoDot (hex_groups gs) (NoDot-hex_groups gs),
        read_ipv6,
        read_groups-end 8 gs (omega arith) h,
        ==-false_of_lt (length gs) 8 few,
      )
      refl
