-- ===== src/Text/Split.antt =====
-- `split` and `join` are inverse on parts without the separator.
use bancuh_dns.Prelude.{ℕ, ◌≡◌, ◌≢◌, refl, [], ◌∷◌, ◌++◌, arith, All}
use bancuh_dns.Text.{Text, split}

-- A label of a domain name: not empty, without the separator.
abbrev pub Avoids : ℕ → Text → Type 0
Avoids c s = All (λ x. x ≢ c) s

split_part : (c : ℕ) (p : Text) → Avoids c p → split c p ≡ p ∷ []
unfolding split
split_part c [] h = refl
split_part c (x ∷ p) h = ground (arith, split_part c p h.1)

-- The first separator ends the first part.
pub split-append : (c : ℕ) (p s : Text) → Avoids c p → split c (p ++ c ∷ s) ≡ p ∷ split c s
unfolding split
split-append c [] s h = ground arith
split-append c (x ∷ p) s h = ground (arith, split-append c p s h.1)
