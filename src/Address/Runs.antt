-- ===== src/Address/Runs.antt =====
-- The run of zero groups that the text of an IPv6 address leaves out.
use bancuh_dns.Prelude.{
  ℕ, zero, suc, ◌+◌, ◌≤◌, ◌<◌, ◌≡◌, ◌⊎◌, ◌∙◌, refl, ap, sym, subst, some, List, [], ◌∷◌, ◌++◌, ◌==◌,
  ==_iff, ltb, arith, drop, get_elem?, length, length-append, Bool-cases, inl, inr, if◌then◌else◌,
  some_injective, lt_or_le,
}
use bancuh_dns.Address.Display.{Span, take, longer, longest_from}
use bancuh_dns.Address.Parse.{zeros}

-- The groups of the span are zero.
abbrev pub IsRun : List ℕ → Span → Type 0
IsRun all z = (k : ℕ) → z.start ≤ k → k < z.start + z.len → get_elem? all k ≡ some 0

longer-IsRun : (all : List ℕ) (a b : Span) → IsRun all a → IsRun all b → IsRun all (longer a b)
longer-IsRun all a b ha hb = elim (Bool-cases (ltb b.len a.len)) [
  | inl e ↦ rw (longer, e) ha
  | inr e ↦ rw (longer, e) hb
]

-- A run that ends before the i-th group, or none, is longer by it if it is zero.
longer_lem :
    (all : List ℕ) (i : ℕ) (z : Span)
    → IsRun all z
    → (z.len ≡ 0) ⊎ (z.start + z.len ≡ i)
    → get_elem? all i ≡ some 0
    → let z' : Span = record { start = if z.len == 0 then i else z.start; len = suc z.len } in
      IsRun all z' × (z'.start + z'.len ≡ suc i)
longer_lem all i z h ends here = elim (Bool-cases (z.len == 0)) [
  | inl e ↦
      rw e ((λ k lo hi. subst (λ j. get_elem? all j ≡ some 0) (ground arith) here), ground arith)
  | inr e ↦ rw e (
    (λ k lo hi. elim (lt_or_le k (z.start + z.len)) [
      | inl before ↦ h k lo before
      | inr last ↦ subst (λ j. get_elem? all j ≡ some 0) (ground arith) here
    ]),
    ground arith,
  )
]

pub nowhere-IsRun : (all : List ℕ) → IsRun all (record { start = 0; len = 0 })
nowhere-IsRun all k lo hi = absurd (omega arith)

next_group :
    (all : List ℕ) (i g : ℕ) (gs : List ℕ)
    → ((k : ℕ) → get_elem? all (i + k) ≡ get_elem? (g ∷ gs) k)
    → (k : ℕ) → get_elem? all (suc i + k) ≡ get_elem? gs k
next_group all i g gs at k = ap (get_elem? all) (omega arith) ∙ at (suc k)

-- `gs` are the groups of `all` from the i-th on.
longest_from-IsRun :
    (all : List ℕ) (i : ℕ) (current longest : Span) (gs : List ℕ)
    → ((k : ℕ) → get_elem? all (i + k) ≡ get_elem? gs k)
    → IsRun all current
    → (current.len ≡ 0) ⊎ (current.start + current.len ≡ i)
    → IsRun all longest
    → IsRun all (longest_from i current longest gs)
longest_from-IsRun all i current longest [] at h ends hl = hl
longest_from-IsRun all i current longest (g ∷ gs) at h ends hl = elim (Bool-cases (g == 0)) [
  | inl e ↦
      let here : get_elem? all i ≡ some 0 =
        ap (get_elem? all) (omega arith) ∙ at 0 ∙ ap some ((==_iff g 0).0 e) in
      let (run, end) = longer_lem all i current h ends here in
      let current' : Span = record {
        start = if current.len == 0 then i else current.start;
        len = suc current.len;
      } in
      rw (longest_from, e)
        (longest_from-IsRun all (suc i) current' (longer current' longest) gs
          (next_group all i g gs at) run (inr end) (longer-IsRun all current' longest run hl))
  | inr e ↦
      rw (longest_from, e)
        (longest_from-IsRun all (suc i) (record { start = 0; len = 0 }) longest gs
          (next_group all i g gs at) (nowhere-IsRun all) (inl refl) hl)
]

take-drop : (s : ℕ) (gs : List ℕ) → gs ≡ take s gs ++ drop s gs
take-drop zero gs = refl
take-drop (suc s) [] = refl
take-drop (suc s) (g ∷ gs) = ap (λ t. g ∷ t) (take-drop s gs)

get_elem?-drop : (s k : ℕ) (gs : List ℕ) → get_elem? (drop s gs) k ≡ get_elem? gs (s + k)
get_elem?-drop zero k gs = ap (get_elem? gs) (omega arith)
get_elem?-drop (suc s) k [] = refl
get_elem?-drop (suc s) k (g ∷ gs) =
    let next : suc (s + k) ≡ suc s + k = omega arith in
    get_elem?-drop s k gs ∙ ap (get_elem? (g ∷ gs)) next

drop-nil : (n : ℕ) → drop {A = ℕ} n [] ≡ []
drop-nil zero = refl
drop-nil (suc n) = refl

drop-drop : (s n : ℕ) (gs : List ℕ) → drop n (drop s gs) ≡ drop (s + n) gs
drop-drop zero n gs = ap (λ m. drop m gs) (omega arith)
drop-drop (suc s) n [] = drop-nil n ∙ sym (drop-nil (suc s + n))
drop-drop (suc s) n (g ∷ gs) =
    let next : suc (s + n) ≡ suc s + n = omega arith in
    drop-drop s n gs ∙ ap (λ m. drop m (g ∷ gs)) next

zeros-drop :
    (n : ℕ) (gs : List ℕ) → ((k : ℕ) → k < n → get_elem? gs k ≡ some 0) → gs ≡ zeros n ++ drop n gs
zeros-drop zero gs h = refl
zeros-drop (suc n) [] h = cc (h 0 (omega arith))
zeros-drop (suc n) (g ∷ gs) h =
    let tail : gs ≡ zeros n ++ drop n gs = zeros-drop n gs (λ k lt. h (suc k) (omega arith)) in
    let head : g ≡ 0 = some_injective (h 0 (omega arith)) in cc (head, tail)

-- The groups are those before the run, the run, and those after it.
pub split_run :
    (gs : List ℕ) (z : Span)
    → IsRun gs z
    → gs ≡ take z.start gs ++ (zeros z.len ++ drop (z.start + z.len) gs)
split_run gs z h =
    take-drop z.start gs
    ∙ ap (λ t. take z.start gs ++ t)
        (zeros-drop z.len (drop z.start gs)
            (λ k lt. get_elem?-drop z.start k gs ∙ h (z.start + k) (omega arith) (omega arith))
          ∙ ap (λ t. zeros z.len ++ t) (drop-drop z.start z.len gs))

length-zeros : (n : ℕ) → length (zeros n) ≡ n
length-zeros zero = refl
length-zeros (suc n) = ap suc (length-zeros n)

pub length-split_run :
    (gs : List ℕ) (z : Span)
    → IsRun gs z
    → length (take z.start gs) + z.len + length (drop (z.start + z.len) gs) ≡ length gs
length-split_run gs z h = omega (
  arith,
  ap length (split_run gs z h),
  length-append (take z.start gs) (zeros z.len ++ drop (z.start + z.len) gs),
  length-append (zeros z.len) (drop (z.start + z.len) gs),
  length-zeros z.len,
)

-- The text of an address leaves out a run of zeros.
pub longest-IsRun :
    (gs : List ℕ)
    → IsRun gs (longest_from 0 (record { start = 0; len = 0 }) (record { start = 0; len = 0 }) gs)
longest-IsRun gs =
    longest_from-IsRun gs 0 (record { start = 0; len = 0 }) (record { start = 0; len = 0 }) gs
      (λ k. ap (get_elem? gs) (omega arith)) (nowhere-IsRun gs) (inl refl) (nowhere-IsRun gs)
