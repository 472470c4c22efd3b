-- ===== src/Startup/Backoff.antt =====
-- How often, and after which delays, src/main.rs tries to load the configuration.
use bancuh_dns.Prelude.{
  ℕ, zero, suc, ◌+◌, ◌*◌, ◌≤◌, ◌<◌, min, ◌≡◌, ◌⊎◌, refl, some, List, [], ◌∷◌, Result, Result-cases,
  ok, err, leb_of_le, leb-false_of_lt, Bool-cases, inl, inr, ◌==◌, ==_iff, arith,
}
use bancuh_dns.Startup.{validate}

-- The first delays, each twice the one before and at most a minute.
abbrev pub delays : ℕ → ℕ → List ℕ
delays d zero = []
delays d (suc n) = d ∷ delays (min (d * 2) 60) n

abbrev pub total : List ℕ → ℕ
total [] = 0
total (d ∷ ds) = d + total ds

total-delays_le : (k : ℕ) → k < 5 → total (delays 5 k) ≤ 75
total-delays_le zero h = omega arith
total-delays_le (suc zero) h = omega arith
total-delays_le (suc (suc zero)) h = omega arith
total-delays_le (suc (suc (suc zero))) h = omega arith
total-delays_le (suc (suc (suc (suc zero)))) h = omega arith
total-delays_le (suc (suc (suc (suc (suc k))))) h = absurd (omega arith)

module _ {E C : Type 0} (load : ℕ → Result E C) where
  -- The attempt fails.
  abbrev pub Fails : ℕ → Type 0
  Fails i = (e : E) × (load i ≡ err e)

  validate-ok :
      (n rounds i d : ℕ) {config : C}
      → n < rounds
      → i + n ≤ 5
      → ((j : ℕ) → i ≤ j → j < i + n → Fails j)
      → load (i + n) ≡ ok config
      → validate load rounds i d ≡ some (delays d n, ok tt)
  unfolding validate
  validate-ok n zero i d l b fails found = absurd (omega arith)
  validate-ok zero (suc rounds) i d l b fails found =
      let e : i + 0 ≡ i = omega arith in rw (validate, rw e at found) refl
  validate-ok (suc n) (suc rounds) i d l b fails found =
      let (e, failed) = fails i (omega arith) (omega arith) in
      let next : i + suc n ≡ i + 1 + n = omega arith in
      let rest =
        validate-ok n rounds (i + 1) (min (d * 2) 60) (omega arith) (omega arith)
          (λ j p q. fails j (omega arith) (omega arith)) (rw next at found) in
      let early : i < 5 = omega arith in rw (validate, failed, leb-false_of_lt i 5 early, rest) refl

  validate-err :
      (n rounds i d : ℕ) {e : E}
      → n < rounds
      → i + n ≡ 5
      → ((j : ℕ) → i ≤ j → j < 5 → Fails j)
      → load 5 ≡ err e
      → validate load rounds i d ≡ some (delays d n, err e)
  unfolding validate
  validate-err n zero i d l b fails failed = absurd (omega arith)
  validate-err zero (suc rounds) i d l b fails failed =
      let here : 5 ≡ i = omega arith in
      let end : 5 ≤ i = omega arith in rw (validate, rw here at failed, leb_of_le 5 i end) refl
  validate-err (suc n) (suc rounds) i d l b fails failed =
      let early : i < 5 = omega arith in
      let (x, now) = fails i (omega arith) early in
      let rest =
        validate-err n rounds (i + 1) (min (d * 2) 60) (omega arith) (omega arith)
          (λ j p q. fails j (omega arith) q) failed in
      rw (validate, now, leb-false_of_lt i 5 early, rest) refl

  -- In five rounds or more: if attempt k + 1 is the first to load, and it is among the first five,
  -- the startup goes on after k delays.
  pub validate_first :
      (k rounds : ℕ) {config : C}
      → k < 5
      → 5 ≤ rounds
      → ((j : ℕ) → 1 ≤ j → j < 1 + k → Fails j)
      → load (1 + k) ≡ ok config
      → validate load rounds 1 5 ≡ some (delays 5 k, ok tt)
  validate_first k rounds to enough fails found =
      validate-ok k rounds 1 5 (omega arith) (omega arith) fails found

  -- In five rounds or more: if the first five attempts fail, the startup fails with the error of the
  -- fifth, after delays of 5, 10, 20 and 40 seconds.
  pub validate_exhausted :
      (rounds : ℕ) {e : E}
      → 5 ≤ rounds
      → ((j : ℕ) → 1 ≤ j → j < 5 → Fails j)
      → load 5 ≡ err e
      → validate load rounds 1 5 ≡ some (5 ∷ 10 ∷ 20 ∷ 40 ∷ [], err e)
  validate_exhausted rounds enough fails failed =
      validate-err 4 rounds 1 5 (omega arith) (omega arith) fails failed

  first_or_all :
      (n : ℕ)
      → ((k : ℕ) × (k < n)
          × ((j : ℕ) → 1 ≤ j → j < 1 + k → Fails j)
          × (c : C) × (load (1 + k) ≡ ok c))
        ⊎ ((j : ℕ) → 1 ≤ j → j < 1 + n → Fails j)
  first_or_all zero = inr (λ j p q. absurd (omega arith))
  first_or_all (suc n) = elim (first_or_all n) [
    | inl (k, l, fails, c, found) ↦ inl (k, omega arith, fails, c, found)
    | inr fails ↦ elim (Result-cases (load (1 + n))) [
      | inl (c, found) ↦ inl (n, omega arith, fails, c, found)
      | inr (e, failed) ↦ inr (λ j p q. elim (Bool-cases (j == 1 + n)) [
        | inl same ↦ (e, rw ((==_iff j (1 + n)).0 same) failed)
        | inr other ↦ fails j p (ground arith)
      ])
    ]
  ]

  -- Five rounds are enough: from then on the validation ends, whatever the attempts load, and sleeps
  -- 75 seconds at most.
  pub validate_ends :
      (rounds : ℕ)
      → 5 ≤ rounds
      → (slept : List ℕ) × (res : Result E (Unit {0})) × (validate load rounds 1 5
          ≡ some (slept, res))
        × (total slept ≤ 75)
  validate_ends rounds enough = elim (first_or_all 5) [
    | inl (k, to, fails, c, found) ↦
        (delays 5 k, ok tt, validate_first k rounds to enough fails found, total-delays_le k to)
    | inr fails ↦
        let (e, failed) = fails 5 (omega arith) (omega arith) in
        (
          delays 5 4,
          err e,
          validate_exhausted rounds enough (λ j p q. fails j p (omega arith)) failed,
          total-delays_le 4 (omega arith),
        )
  ]
