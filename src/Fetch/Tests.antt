-- ===== src/Fetch/Tests.antt =====
-- The retries of src/fetch/http.rs against a server that answers from some attempt on.
use bancuh_dns.Prelude.{ℕ, ◌≤◌, ◌<◌, ◌≡◌, refl, ok, err, leb, if◌then◌else◌, [], ◌∷◌, arith}
use bancuh_dns.Fetch.{Io, http_error, unknown, fetch_http}
use bancuh_dns.Fetch.Retry.{Fails, fetch_http_first, fetch_http_exhausted, fetch_http-ne-unknown}

-- A URL is the number of attempts that fail; the attempt is the body, and the error.
abbrev flaky : Io
flaky = record {
  Url = ℕ;
  FilePath = ℕ;
  Response = ℕ;
  HttpError = ℕ;
  IoError = ℕ;
  send = λ url i. if leb i url then err i else ok i;
  text = λ response. ok (response ∷ []);
  read_to_string = λ path. ok [];
}

two_fail : (j : ℕ) → 1 ≤ j → j < 3 → Fails flaky 2 j
two_fail j from to = (j, ground arith)

fetch_http_first_example : fetch_http flaky 2 ≡ ok (3 ∷ [])
fetch_http_first_example = fetch_http_first flaky 2 3 (omega arith) (omega arith) two_fail refl

five_fail : (j : ℕ) → 1 ≤ j → j ≤ 5 → Fails flaky 9 j
five_fail j from to = (j, ground arith)

no_response : fetch_http flaky 9 ≡ err (http_error 5)
no_response = fetch_http_exhausted flaky 9 five_fail refl

known_error : ¬ (fetch_http flaky 9 ≡ err unknown)
known_error = fetch_http-ne-unknown flaky 9
