-- ===== src/QueryLog/Deque.antt =====
-- The entries of one address under insertions, against all that was ever inserted.
use bancuh_dns.Prelude.{
  ℕ, zero, suc, ◌-◌, ◌≤◌, ◌<◌, ◌≡◌, refl, sym, ap, ◌∙◌, List, [], ◌∷◌, ◌++◌, arith, ltb, leb,
  length, keep, All, length-append, drop, length-drop, Bool-cases, inl, inr, leb_of_le,
}
use bancuh_dns.QueryLog.{QueryLog, max_per_ip, evict, pop_front, cap_entries, is_fresh}

-- The last n of a list.
abbrev pub latest : ℕ → List QueryLog → List QueryLog
latest n xs = drop (length xs - n) xs

abbrev pub NotAfter : ℕ → List QueryLog → Type 0
NotAfter t xs = All (λ e. e.query_time ≤ t) xs

-- The times go up from the front to the back.
abbrev pub IsAscending : List QueryLog → Type 0
IsAscending [] = Unit
IsAscending (e ∷ xs) = All (λ f. e.query_time ≤ f.query_time) xs × IsAscending xs

-- A deque against the list of all entries that were inserted: bounded, in order, and showing the
-- latest of the entries that are fresh at any limit from `limit` on.
pub record Tracks (entries inserted : List QueryLog) (limit time : ℕ) : Type 0 where
  pub small : length entries ≤ max_per_ip
  pub ascending : IsAscending entries
  pub not_after : NotAfter time entries
  pub view :
      (c : ℕ)
      → limit ≤ c
      → keep (is_fresh c) entries ≡ latest max_per_ip (keep (is_fresh c) inserted)

pub All-mono {ℓ κ μ} :
    {A : Type ℓ} {P : A → Type κ} {Q : A → Type μ} (f : (a : A) → P a → Q a) (xs : List A)
    → All P xs
    → All Q xs
All-mono f [] h = tt
All-mono f (x ∷ xs) h = (f x h.0, All-mono f xs h.1)

pub All-snoc {ℓ κ} :
    {A : Type ℓ} (P : A → Type κ) {last : A} (front : List A)
    → All P front
    → P last
    → All P (front ++ last ∷ [])
All-snoc P [] _ here = (here, tt)
All-snoc P (e ∷ front) (first, rest) here = (first, All-snoc P front rest here)

-- Eviction only shortens the front, and every predicate of all entries survives it.
pub All-evict {κ} :
    (P : QueryLog → Type κ) (c : ℕ) (xs : List QueryLog) → All P xs → All P (evict c xs)
unfolding evict
All-evict P c [] h = tt
All-evict P c (e ∷ xs) h = elim (Bool-cases (ltb e.query_time c)) [
  | inl old ↦ rw old (All-evict P c xs h.1)
  | inr new ↦ rw new h
]

pub IsAscending-evict : (c : ℕ) (xs : List QueryLog) → IsAscending xs → IsAscending (evict c xs)
unfolding evict
IsAscending-evict c [] h = tt
IsAscending-evict c (e ∷ xs) h = elim (Bool-cases (ltb e.query_time c)) [
  | inl old ↦ rw old (IsAscending-evict c xs h.1)
  | inr new ↦ rw new h
]

pub length-evict-le : (c : ℕ) (xs : List QueryLog) → length (evict c xs) ≤ length xs
unfolding evict
length-evict-le c [] = omega arith
length-evict-le c (e ∷ xs) = ground (arith, length-evict-le c xs)

-- What is evicted at a limit is fresh at no later one.
pub keep-evict :
    (c0 c : ℕ) (xs : List QueryLog)
    → c0 ≤ c
    → keep (is_fresh c) (evict c0 xs) ≡ keep (is_fresh c) xs
unfolding evict
keep-evict c0 c [] h = refl
keep-evict c0 c (e ∷ xs) h = ground (arith, keep-evict c0 c xs h)

pub keep-All :
    (c : ℕ) (xs : List QueryLog) → All (λ e. c ≤ e.query_time) xs → keep (is_fresh c) xs ≡ xs
keep-All c [] h = refl
keep-All c (e ∷ xs) h = rw (leb_of_le c e.query_time h.0) (ap (λ r. e ∷ r) (keep-All c xs h.1))

pub length-pop_front : (xs : List QueryLog) → length (pop_front xs) ≡ length xs - 1
length-pop_front [] = omega arith
length-pop_front (e ∷ xs) = omega arith

pub All-cap {κ} : (P : QueryLog → Type κ) (xs : List QueryLog) → All P xs → All P (cap_entries xs)
unfolding cap_entries
All-cap P [] h = h
All-cap P (e ∷ xs) h = elim (Bool-cases (leb max_per_ip (length (e ∷ xs)))) [
  | inl full ↦ rw full h.1
  | inr room ↦ rw room h
]

pub IsAscending-cap : (xs : List QueryLog) → IsAscending xs → IsAscending (cap_entries xs)
unfolding cap_entries
IsAscending-cap [] h = h
IsAscending-cap (e ∷ xs) h = elim (Bool-cases (leb max_per_ip (length (e ∷ xs)))) [
  | inl full ↦ rw full h.1
  | inr room ↦ rw room h
]

pub IsAscending-snoc :
    (xs : List QueryLog) (e : QueryLog)
    → IsAscending xs
    → NotAfter e.query_time xs
    → IsAscending (xs ++ e ∷ [])
IsAscending-snoc [] e h k = (tt, tt)
IsAscending-snoc (x ∷ xs) e h k =
    (All-snoc (λ f. x.query_time ≤ f.query_time) xs h.0 k.0, IsAscending-snoc xs e h.1 k.1)

pub length-cap-lt :
    (xs : List QueryLog) → length xs ≤ max_per_ip → length (cap_entries xs) < max_per_ip
unfolding cap_entries
length-cap-lt xs h = ground (arith, length-pop_front xs)

pub drop-append :
    (m : ℕ) (xs ys : List QueryLog) → m ≤ length xs → drop m (xs ++ ys) ≡ drop m xs ++ ys
drop-append zero xs ys h = refl
drop-append (suc m) [] ys h = absurd (omega arith)
drop-append (suc m) (x ∷ xs) ys h = drop-append m xs ys (omega arith)

pub pop_front-drop : (m : ℕ) (xs : List QueryLog) → pop_front (drop m xs) ≡ drop (suc m) xs
pop_front-drop zero [] = refl
pop_front-drop zero (x ∷ xs) = refl
pop_front-drop (suc m) [] = refl
pop_front-drop (suc m) (x ∷ xs) = pop_front-drop m xs

pub latest_of_short : (n : ℕ) (xs : List QueryLog) → length xs ≤ n → latest n xs ≡ xs
latest_of_short n xs h = let e : length xs - n ≡ 0 = omega arith in rw e

-- One more entry pushes the oldest of the latest n out.
pub latest-snoc :
    (n : ℕ) (xs : List QueryLog) (e : QueryLog)
    → 0 < n
    → n ≤ length xs
    → latest n (xs ++ e ∷ []) ≡ pop_front (latest n xs) ++ e ∷ []
latest-snoc n xs e pos long =
    let one_more : length (xs ++ e ∷ []) - n ≡ suc (length xs - n) =
      omega (arith, length-append xs (e ∷ [])) in
    ap (λ m. drop m (xs ++ e ∷ [])) one_more
    ∙ drop-append (suc (length xs - n)) xs (e ∷ []) (omega arith)
    ∙ ap (λ r. r ++ e ∷ []) (sym (pop_front-drop (length xs - n) xs))

pub length-latest-short : (n : ℕ) (xs : List QueryLog) → length (latest n xs) < n → length xs < n
length-latest-short n xs h = omega (arith, length-drop (length xs - n) xs)
