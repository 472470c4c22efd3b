-- ===== src/Address/Groups.antt =====
-- The text of some groups of an IPv6 address is read back as those groups.
use bancuh_dns.Prelude.{
  ℕ, zero, suc, ◌+◌, ◌*◌, ltb, ◌≤◌, ◌<◌, ◌≡◌, ◌≢◌, ◌∙◌, refl, ap, sym, subst, Bool, true, false,
  Option, none, some, List, [], ◌∷◌, ◌++◌, leb, ◌==◌, ◌||◌, ◌&&◌, arith, All, length, append-nil,
  append_assoc, Bool-cases, Option-cases, inl, inr, if◌then◌else◌, and_then-some, some_injective,
  All-append,
}
use bancuh_dns.Text.{Text, join}
use bancuh_dns.Address.Display.{hex, hex_groups}
use bancuh_dns.Address.Parse.{
  starts_zero, digits, read_octet, read_ipv4, read_group, read_groups, separated, given, to_digit10,
}
use bancuh_dns.Address.Hex.{Stops, read_group-hex, hex-ne}

-- A text without dots is no IPv4 address, and begins with none.
abbrev pub NoDot : Text → Type 0
NoDot s = All (λ x. x ≢ b'.') s

digits_rest :
    (value count : ℕ) (s : Text) {p : ℕ × ℕ} {rest : Text}
    → digits to_digit10 10 256 3 value count s ≡ some (p, rest)
    → NoDot s
    → NoDot rest
digits_rest value count [] e h = subst NoDot (ap (λ o. o.1) (some_injective e)) h
digits_rest value count (x ∷ s) e h = elim (Option-cases (to_digit10 x)) [
  | inl stops ↦ subst NoDot (ap (λ o. o.1) (some_injective (rw (digits, stops) at e))) h
  | inr (d, found) ↦ elim (Bool-cases (leb 256 (value * 10 + d) || ltb 3 (suc count))) [
    | inl over ↦ cc (rw (digits, found, over) at e)
    | inr fits ↦ digits_rest (value * 10 + d) (suc count) s (rw (digits, found, fits) at e) h.1
  ]
]

read_octet_rest :
    (s : Text) {n : ℕ} {rest : Text} → read_octet s ≡ some (n, rest) → NoDot s → NoDot rest
read_octet_rest s e h =
    let (p, read, made) = and_then-some (digits to_digit10 10 256 3 0 0 s) _ e in
    elim (Bool-cases ((p.0.1 == 0) || (starts_zero s && ltb 1 p.0.1))) [
      | inl refused ↦ cc (rw refused at made)
      | inr fine ↦
          subst NoDot (ap (λ o. o.1) (some_injective (rw fine at made))) (digits_rest 0 0 s read h)
    ]

given-NoDot : (s : Text) → NoDot s → given b'.' s ≡ none
given-NoDot [] h = refl
given-NoDot (x ∷ s) h = ground (arith, h.0)

pub read_ipv4-NoDot : (s : Text) → NoDot s → read_ipv4 s ≡ none
unfolding read_ipv4
read_ipv4-NoDot s h = elim (Option-cases (read_octet s)) [
  | inl e ↦ rw (read_ipv4, e) refl
  | inr (p, e) ↦ rw (read_ipv4, e, given-NoDot p.1 (read_octet_rest s e h)) refl
]

-- So no group is tried as an IPv4 address with success.
ipv4-NoDot :
    (b : Bool) (i : ℕ) (s : Text)
    → NoDot s
    → (if b then separated b':' i read_ipv4 s else none) ≡ none
ipv4-NoDot false i s h = refl
ipv4-NoDot true zero s h = read_ipv4-NoDot s h
ipv4-NoDot true (suc i) [] h = refl
ipv4-NoDot true (suc i) (x ∷ s) h = elim (Bool-cases (x == b':')) [
  | inl e ↦ rw (separated, given, e) (read_ipv4-NoDot s h.1)
  | inr e ↦ rw (separated, given, e) refl
]

-- Groups from the i-th of an address on, each but the first behind a colon.
abbrev pub group_texts : ℕ → List ℕ → Text
group_texts i [] = []
group_texts zero (g ∷ gs) = hex g ++ group_texts 1 gs
group_texts (suc i) (g ∷ gs) = b':' ∷ (hex g ++ group_texts (suc (suc i)) gs)

-- What may come after groups: nothing, or `::` and more.
abbrev pub rest_text : Option Text → Text
rest_text none = []
rest_text (some t) = b':' ∷ b':' ∷ t

Stops-rest : (o : Option Text) → Stops (rest_text o)
Stops-rest none = tt
Stops-rest (some t) = refl

Stops-groups :
    (i : ℕ) (gs : List ℕ) (o : Option Text) → Stops (group_texts (suc i) gs ++ rest_text o)
Stops-groups i [] o = Stops-rest o
Stops-groups i (g ∷ gs) o = refl

no_group : (i : ℕ) (o : Option Text) → separated b':' i read_group (rest_text o) ≡ none
no_group zero none = refl
no_group zero (some t) = refl
no_group (suc i) none = refl
no_group (suc i) (some t) = refl

pub NoDot-groups : (i : ℕ) (gs : List ℕ) → NoDot (group_texts i gs)
NoDot-groups i [] = tt
NoDot-groups zero (g ∷ gs) =
    All-append (λ x. x ≢ b'.') (hex g) (group_texts 1 gs) (hex-ne g b'.' (omega arith))
      (NoDot-groups 1 gs)
NoDot-groups (suc i) (g ∷ gs) = (
  omega arith,
  All-append (λ x. x ≢ b'.') (hex g) (group_texts (suc (suc i)) gs) (hex-ne g b'.' (omega arith))
      (NoDot-groups (suc (suc i)) gs),
)

-- One group and its separator.
read_one :
    (i g : ℕ) (gs : List ℕ) (o : Option Text)
    → g < 65536
    → separated b':' i read_group (group_texts i (g ∷ gs) ++ rest_text o)
      ≡ some (g, group_texts (suc i) gs ++ rest_text o)
read_one zero g gs o h =
    ap read_group (append_assoc (hex g) (group_texts 1 gs) (rest_text o))
    ∙ read_group-hex g _ h (Stops-groups 0 gs o)
read_one (suc i) g gs o h =
    ap read_group (append_assoc (hex g) (group_texts (suc (suc i)) gs) (rest_text o))
    ∙ read_group-hex g _ h (Stops-groups (suc i) gs o)

pub read_groups-group_texts :
    (left i : ℕ) (gs : List ℕ) (o : Option Text)
    → length gs ≤ left
    → All (λ g. g < 65536) gs
    → NoDot (rest_text o)
    → read_groups left i (group_texts i gs ++ rest_text o) ≡ ((gs, false), rest_text o)
read_groups-group_texts zero i [] o fits h no_dot = refl
read_groups-group_texts zero i (g ∷ gs) o fits h no_dot = absurd (omega arith)
read_groups-group_texts (suc left) i [] o fits h no_dot =
    rw (read_groups, ipv4-NoDot (leb 1 left) i (rest_text o) no_dot, no_group i o) refl
read_groups-group_texts (suc left) i (g ∷ gs) o fits h no_dot =
    rw
      (
        read_groups,
        ipv4-NoDot (leb 1 left) i (group_texts i (g ∷ gs) ++ rest_text o) (
            All-append (λ x. x ≢ b'.') (group_texts i (g ∷ gs)) (rest_text o)
              (NoDot-groups i (g ∷ gs)) no_dot),
        read_one i g gs o h.0,
        read_groups-group_texts left (suc i) gs o (omega arith) h.1 no_dot,
      )
      refl

pub hex_groups-cons :
    (i g : ℕ) (gs : List ℕ) → b':' ∷ hex_groups (g ∷ gs) ≡ group_texts (suc i) (g ∷ gs)
unfolding join
hex_groups-cons i g [] = ap (λ t. b':' ∷ t) (sym (append-nil (hex g)))
hex_groups-cons i g (g' ∷ gs) = ap (λ t. b':' ∷ (hex g ++ t)) (hex_groups-cons (suc i) g' gs)

-- As the text of an address has them.
pub hex_groups-group_texts : (gs : List ℕ) → hex_groups gs ≡ group_texts 0 gs
unfolding join
hex_groups-group_texts [] = refl
hex_groups-group_texts (g ∷ []) = sym (append-nil (hex g))
hex_groups-group_texts (g ∷ g' ∷ gs) = ap (λ t. hex g ++ t) (hex_groups-cons 0 g' gs)
