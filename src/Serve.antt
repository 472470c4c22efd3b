-- ===== src/Serve.antt =====
-- Code that may send a response and may fail: the state of the responder goes through, and comes
-- back beside an error too.
use bancuh_dns.Prelude.{◌≡◌, ◌⊎◌, inl, inr, refl, ◌∙◌, Result, ok, err, map_err}

abbrev pub Serve : Type 0 → Type 0 → Type 0 → Type 0
Serve R E A = R → R × Result E A

module _ {R E A : Type 0} where
  abbrev pub lift : Result E A → Serve R E A
  lift res r = (r, res)

  abbrev pub raise : E → Serve R E A
  raise e r = (r, err e)

  abbrev pub pure : A → Serve R E A
  pure a r = (r, ok a)

  abbrev cleaned : (R → R) → R × Result E A → R × Result E A
  cleaned cleanup (r, ok a) = (r, ok a)
  cleaned cleanup (r, err e) = (cleanup r, err e)

  -- What is dropped where `?` returns early.
  abbrev pub on_error : (R → R) → Serve R E A → Serve R E A
  on_error cleanup m r = cleaned cleanup (m r)

  pub serve_cases :
      (m : Serve R E A) (r : R)
      → ((r' : R) × (a : A) × (m r ≡ (r', ok a))) ⊎ ((r' : R) × (e : E) × (m r ≡ (r', err e)))
  serve_cases m r = settled (m r) refl
    where
      settled :
          (out : R × Result E A)
          → m r ≡ out
          → ((r' : R) × (a : A) × (m r ≡ (r', ok a))) ⊎ ((r' : R) × (e : E) × (m r ≡ (r', err e)))
      settled (r', ok a) e = inl (r', a, e)
      settled (r', err x) e = inr (r', x, e)

  pub on_error_ok :
      (cleanup : R → R) (m : Serve R E A) (r : R) {r' : R} {a : A}
      → on_error cleanup m r ≡ (r', ok a)
      → m r ≡ (r', ok a)
  on_error_ok cleanup m r h = elim (serve_cases m r) [
    | inl (_, _, e) ↦ e ∙ rw e at h
    | inr (_, _, e) ↦ cc (rw e at h)
  ]

module _ {R E A B : Type 0} where
  abbrev pub continue : Result E A → (A → Serve R E B) → Serve R E B
  continue (ok a) next r = next a r
  continue (err e) next r = (r, err e)

  infixl 5 ◌>>=◌
  abbrev pub ◌>>=◌ : Serve R E A → (A → Serve R E B) → Serve R E B
  ◌>>=◌ m next r = let (r', res) = m r in continue res next r'

  -- A success of two is a success of each.
  pub serve_ok :
      (m : Serve R E A) (next : A → Serve R E B) (r : R) {r' : R} {b : B}
      → (m >>= next) r ≡ (r', ok b)
      → (mid : R) × (a : A) × (m r ≡ (mid, ok a)) × (next a mid ≡ (r', ok b))
  serve_ok m next r {r'} {b} h = settled (m r) refl h
    where
      settled :
          (out : R × Result E A)
          → m r ≡ out
          → continue out.1 next out.0 ≡ (r', ok b)
          → (mid : R) × (a : A) × (m r ≡ (mid, ok a)) × (next a mid ≡ (r', ok b))
      settled (mid, ok a) e h = (mid, a, e, h)
      settled (mid, err e') e h = cc

  -- The same, to go on with.
  pub serve_split {κ} :
      {P : Type κ} (m : Serve R E A) (next : A → Serve R E B) (r : R) {r' : R} {b : B}
      → (m >>= next) r ≡ (r', ok b)
      → ((mid : R) (a : A) → m r ≡ (mid, ok a) → next a mid ≡ (r', ok b) → P)
      → P
  serve_split m next r h go = let (mid, a, e, rest) = serve_ok m next r h in go mid a e rest

-- The conversion of an error that `?` applies.
abbrev pub serve_map_err : {R E F A : Type 0} → (E → F) → Serve R E A → Serve R F A
serve_map_err f m r = let (r', res) = m r in (r', map_err f res)

module _ {R E F A : Type 0} where
  pub serve_map_err_ok :
      (f : E → F) (m : Serve R E A) (r : R) {r' : R} {a : A}
      → serve_map_err f m r ≡ (r', ok a)
      → m r ≡ (r', ok a)
  serve_map_err_ok f m r {r'} {a} h = settled (m r) refl h
    where
      settled :
          (out : R × Result E A)
          → m r ≡ out
          → ◌≡◌ {A = R × Result F A} (out.0, map_err f out.1) (r', ok a)
          → m r ≡ (r', ok a)
      settled (mid, ok b) e h = e ∙ cc
      settled (mid, err x) e h = cc
