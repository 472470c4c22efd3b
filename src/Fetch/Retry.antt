-- ===== src/Fetch/Retry.antt =====
-- The retries of `FetchHttp::fetch` in src/fetch/http.rs.
use bancuh_dns.Prelude.{
  ℕ, zero, suc, ◌+◌, ◌≤◌, ◌<◌, ◌≡◌, ◌≢◌, refl, ok, err, map_err, arith, Bool-cases, inl, inr, ◌==◌,
  ==_iff,
}
use bancuh_dns.Fetch.{Io, FetchHttpError, http_error, unknown, attempts, fetch_http}

module _ (io : Io) (url : io.Url) where
  -- Attempt i gets no response.
  abbrev pub Fails : ℕ → Type 0
  Fails i = (e : io.HttpError) × (io.send url i ≡ err e)

  attempts-ok :
      (left i k : ℕ) (last : FetchHttpError io.HttpError) {response : io.Response}
      → i ≤ k
      → k < i + left
      → ((j : ℕ) → i ≤ j → j < k → Fails j)
      → io.send url k ≡ ok response
      → attempts io url left i last ≡ map_err http_error (io.text response)
  unfolding attempts
  attempts-ok zero i k last from to fails found = absurd (omega arith)
  attempts-ok (suc left) i k last from to fails found = elim (Bool-cases (i == k)) [
    | inl here ↦ rw ((==_iff i k).0 here, attempts, found) refl
    | inr later ↦
        let before : i < k = ground arith in
        let (e, failed) = fails i (omega arith) before in
        rw (attempts, failed)
          (attempts-ok left (i + 1) k (http_error e) (omega arith) (omega arith)
            (λ j p q. fails j (omega arith) q) found)
  ]

  attempts-err :
      (left i : ℕ) (last : FetchHttpError io.HttpError) {e : io.HttpError}
      → ((j : ℕ) → i ≤ j → j < i + suc left → Fails j)
      → io.send url (i + left) ≡ err e
      → attempts io url (suc left) i last ≡ err (http_error e)
  unfolding attempts
  attempts-err zero i last fails final =
      let e : i + 0 ≡ i = omega arith in rw (attempts, rw e at final) refl
  attempts-err (suc left) i last fails final =
      let (e, failed) = fails i (omega arith) (omega arith) in
      let e' : i + suc left ≡ i + 1 + left = omega arith in
      rw (attempts, failed)
        (attempts-err left (i + 1) (http_error e) (λ j p q. fails j (omega arith) (omega arith))
          (rw e' at final))

  -- The body of the first response that comes within five attempts is the result, or the error of
  -- reading that body: a body that cannot be read is not asked for again.
  pub fetch_http_first :
      (k : ℕ) {response : io.Response}
      → 1 ≤ k
      → k ≤ 5
      → ((j : ℕ) → 1 ≤ j → j < k → Fails j)
      → io.send url k ≡ ok response
      → fetch_http io url ≡ map_err http_error (io.text response)
  unfolding fetch_http
  fetch_http_first k from to fails found = attempts-ok 5 1 k unknown from (omega arith) fails found

  -- If five attempts get no response, the result is the error of the fifth.
  pub fetch_http_exhausted :
      {e : io.HttpError}
      → ((j : ℕ) → 1 ≤ j → j ≤ 5 → Fails j)
      → io.send url 5 ≡ err e
      → fetch_http io url ≡ err (http_error e)
  unfolding fetch_http
  fetch_http_exhausted fails final =
      attempts-err 4 1 unknown (λ j p q. fails j p (omega arith)) final

  -- The error that stands for no attempt at all is never the result.
  pub fetch_http-ne-unknown : fetch_http io url ≢ err unknown
  unfolding fetch_http
  fetch_http-ne-unknown e = ground arith
