-- ===== src/Admin/Escape.antt =====
-- What `html_escape` of src/admin.rs leaves of a text.
use bancuh_dns.Prelude.{
  ℕ, ◌≡◌, ◌≢◌, refl, ap, ◌∙◌, [], ◌∷◌, ◌++◌, All, zero, suc, ◌==◌, if◌then◌else◌, arith, Bool-cases,
  inl, inr,
}
use bancuh_dns.Text.{Text, codes, starts_with}
use bancuh_dns.Admin.{replace, html_escape}

-- The text that stands for a character.
abbrev pub escaped : ℕ → Text
escaped x =
    if x == 38
    then codes "&amp;"
    else if x == 60
    then codes "&lt;"
    else if x == 62
    then codes "&gt;"
    else x ∷ []

html_escape-cons : (x : ℕ) (s : Text) → html_escape (x ∷ s) ≡ escaped x ++ html_escape s
unfolding html_escape replace
html_escape-cons x s = ground arith

-- How a browser reads a text with these three entities, past the bytes of one that it has read.
abbrev pub unescape_after : ℕ → Text → Text
unescape_after n [] = []
unescape_after (suc n) (x ∷ s) = unescape_after n s
unescape_after zero (x ∷ s) =
    if starts_with (x ∷ s) (codes "&amp;")
    then 38 ∷ unescape_after 4 s
    else if starts_with (x ∷ s) (codes "&lt;")
    then 60 ∷ unescape_after 3 s
    else if starts_with (x ∷ s) (codes "&gt;")
    then 62 ∷ unescape_after 3 s
    else x ∷ unescape_after 0 s

unescape-escaped : (x : ℕ) (t : Text) → unescape_after 0 (escaped x ++ t) ≡ x ∷ unescape_after 0 t
unescape-escaped x t = ground arith

-- A browser that reads the three entities shows the text that was escaped.
pub unescape-html_escape : (s : Text) → unescape_after 0 (html_escape s) ≡ s
unfolding html_escape replace
unescape-html_escape [] = refl
unescape-html_escape (x ∷ s) =
    ap (unescape_after 0) (html_escape-cons x s)
    ∙ unescape-escaped x (html_escape s)
    ∙ ap (λ t. x ∷ t) (unescape-html_escape s)

abbrev pub IsPlain : ℕ → Type 0
IsPlain c = (c ≢ 60) × (c ≢ 62)

IsPlain-append : (s t : Text) → All IsPlain s → All IsPlain t → All IsPlain (s ++ t)
IsPlain-append [] t h k = k
IsPlain-append (x ∷ s) t h k = (h.0, IsPlain-append s t h.1 k)

escaped-IsPlain : (x : ℕ) → All IsPlain (escaped x)
escaped-IsPlain x = elim (Bool-cases (x == 38)) [
  | inl e ↦ rw e (
    (omega arith, omega arith),
    (
      (omega arith, omega arith),
      ((omega arith, omega arith), ((omega arith, omega arith), ((omega arith, omega arith), tt))),
    ),
  )
  | inr e ↦ elim (Bool-cases (x == 60)) [
    | inl e' ↦
        rw (e, e')
          (
            (omega arith, omega arith),
            (
              (omega arith, omega arith),
              ((omega arith, omega arith), ((omega arith, omega arith), tt)),
            ),
          )
    | inr e' ↦ elim (Bool-cases (x == 62)) [
      | inl e'' ↦
          rw (e, e', e'')
            (
              (omega arith, omega arith),
              (
                (omega arith, omega arith),
                ((omega arith, omega arith), ((omega arith, omega arith), tt)),
              ),
            )
      | inr e'' ↦ rw (e, e', e'') ((ground arith, ground arith), tt)
    ]
  ]
]

-- An escaped text has no angle bracket.
pub html_escape-IsPlain : (s : Text) → All IsPlain (html_escape s)
unfolding html_escape replace
html_escape-IsPlain [] = tt
html_escape-IsPlain (x ∷ s) =
    rw (html_escape-cons x s)
      (IsPlain-append (escaped x) (html_escape s) (escaped-IsPlain x) (html_escape-IsPlain s))
