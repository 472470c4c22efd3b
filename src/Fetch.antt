-- ===== src/Fetch.antt =====
-- src/fetch: text from a URL, with retries, or from a file. The HTTP client (reqwest) and the reading of
-- files are parameters; attempt i of a request may have another outcome than attempt j.
pub mod Retry
mod Tests
use bancuh_dns.Prelude.{ℕ, zero, suc, ◌+◌, Result, ok, err, map_err}
use bancuh_dns.Text.{Text}

-- What the fetches call: `CLIENT.get(url).send()` at each attempt, `response.text()` and
-- `read_to_string(path)`.
pub record Io : Type 1 where
  pub Url : Type 0
  pub FilePath : Type 0
  pub Response : Type 0
  pub HttpError : Type 0
  pub IoError : Type 0
  pub send : Url → ℕ → Result HttpError Response
  pub text : Response → Result HttpError Text
  pub read_to_string : FilePath → Result IoError Text

-- `FetchHTTPError`
pub data FetchHttpError (E : Type 0) : Type 0 where
  http_error : E → FetchHttpError E
  unknown : FetchHttpError E

-- `FetchFileError`
pub data FetchFileError (E : Type 0) : Type 0 where
  file_error : E → FetchFileError E

-- `FetchError`
pub data FetchError (E F : Type 0) : Type 0 where
  http : FetchHttpError E → FetchError E F
  file : FetchFileError F → FetchError E F

module _ (io : Io) where
  open io use {Url, FilePath, HttpError, IoError}

  -- `Fetch`
  pub data Fetch : Type 0 where
    from_url : Url → Fetch
    from_path : FilePath → Fetch

  -- The loop of `FetchHttp::fetch`: the attempts that are left, the number of the next, and
  -- `last_error`.
  unfoldable pub attempts :
      Url → ℕ → ℕ → FetchHttpError HttpError → Result (FetchHttpError HttpError) Text
  attempts url zero i last_error = err last_error
  attempts url (suc left) i last_error = elim (io.send url i) [
    | ok response ↦ map_err http_error (io.text response)
    | err e ↦ attempts url left (i + 1) (http_error e)
  ]

  -- `FetchHttp::fetch`
  unfoldable pub fetch_http : Url → Result (FetchHttpError HttpError) Text
  unfolding attempts
  fetch_http url = attempts url 5 1 unknown

  -- `FetchFile::fetch`
  unfoldable pub fetch_file : FilePath → Result (FetchFileError IoError) Text
  fetch_file path = map_err file_error (io.read_to_string path)

  -- `Fetch::fetch`
  unfoldable pub fetch : Fetch → Result (FetchError HttpError IoError) Text
  unfolding fetch_http fetch_file
  fetch (from_url url) = map_err http (fetch_http url)
  fetch (from_path path) = map_err file (fetch_file path)
