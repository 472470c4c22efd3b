-- ===== src/Admin.antt =====
-- src/admin.rs: the answers of the admin server about the queries of its client. Its tasks stand in
-- Tasks.antt; the routing and the HTTP servers are axum's.
pub mod Escape
pub mod Stripped
pub mod Own
pub mod Markup
mod Tests
use bancuh_dns.Prelude.{
  ℕ, zero, suc, ◌+◌, ◌/◌, ◌%◌, Option, none, some, List, [], ◌∷◌, ◌++◌, ltb, ◌==◌, true, false,
  if◌then◌else◌, length,
}
use bancuh_dns.Text.{Text, codes}
use bancuh_dns.Address.{IpAddr}
use bancuh_dns.Address.Display.{ip_text}
use bancuh_dns.Address.Parse.{parse_ip}
use bancuh_dns.QueryLog.{QueryLog, QueryLogStore, get_logs, active_ips}

-- `s.strip_prefix(prefix)`
abbrev pub strip_prefix : Text → Text → Option Text
strip_prefix s [] = some s
strip_prefix [] (p ∷ ps) = none
strip_prefix (x ∷ s) (p ∷ ps) = if x == p then strip_prefix s ps else none

abbrev pub unwrap_or : {A : Type 0} → Option A → A → A
unwrap_or none a = a
unwrap_or (some b) a = b

-- `normalize_ip`
unfoldable pub normalize_ip : IpAddr → Text
normalize_ip ip = unwrap_or (strip_prefix (ip_text ip) (codes "::ffff:")) (ip_text ip)

-- `ip_str.parse().unwrap_or(addr.ip())`
unfoldable pub log_ip : IpAddr → IpAddr
unfolding normalize_ip
log_ip ip = unwrap_or (parse_ip (normalize_ip ip)) ip

-- `LogsApiOutput`
pub record LogsApiOutput : Type 0 where
  pub ip : Text
  pub queries : List QueryLog

-- `get_logs_api`; `now` is the clock of `get_logs`.
unfoldable pub get_logs_api : QueryLogStore → IpAddr → ℕ → LogsApiOutput
unfolding log_ip
get_logs_api store ip now = record {
  ip = normalize_ip ip;
  queries = get_logs store (log_ip ip) now;
}

-- `s.replace(c, t)` for an ASCII character.
unfoldable pub replace : ℕ → Text → Text → Text
replace c t [] = []
replace c t (x ∷ s) = let rest = replace c t s in if x == c then t ++ rest else x ∷ rest

-- `html_escape`
unfoldable pub html_escape : Text → Text
unfolding replace
html_escape s =
    replace b'>' (codes "&gt;") (replace b'<' (codes "&lt;") (replace b'&' (codes "&amp;") s))

-- `{}` of a number, before the digits that are already written; `fuel` is at least the number.
abbrev number_before : (fuel n : ℕ) → Text → Text
number_before zero n s = (48 + n % 10) ∷ s
number_before (suc fuel) n s = elim (ltb n 10) [
  | true ↦ (48 + n) ∷ s
  | false ↦ number_before fuel (n / 10) ((48 + n % 10) ∷ s)
]

abbrev number_text : ℕ → Text
number_text n = number_before n n []

-- The page up to its heading.
abbrev page_head : Text
page_head =
    codes "<!DOCTYPE html>\n<html>\n<head>\n  <title>Bancuh DNS - Query Logs</title>\n  <style>\n"
    ++ (codes "    body { font-family: sans-serif; margin: 20px; }\n"
        ++ (codes "    table, th, td { border: 1px solid #ccc; border-collapse: collapse; }\n"
            ++ (codes "    th, td { padding: 8px 12px; text-align: left; }\n"
                ++ (codes "    th { background: #f5f5f5; }\n  </style>\n</head>\n<body>\n"
                    ++ codes "  <h2>Bancuh DNS - Query Logs</h2>\n"))))

module _ (format_time : ℕ → Text) where
  -- A row of the table; `format_time` is chrono's `format("%Y-%m-%d %H:%M:%S")`.
  unfoldable pub row : QueryLog → Text
  unfolding html_escape
  row q =
      codes "<tr><td>"
      ++ (format_time q.query_time
          ++ (codes "</td><td>"
              ++ (html_escape q.question
                  ++ (codes "</td><td>" ++ (html_escape q.answer ++ codes "</td></tr>\n")))))

  -- `for q in &queries { rows.push_str(...) }`
  unfoldable pub rows : List QueryLog → Text
  unfolding row
  rows [] = []
  rows (q ∷ qs) = row q ++ rows qs

  -- `get_logs_html`; `now` is the clock of `get_logs`, `now'` that of `active_ips`.
  unfoldable pub get_logs_html : QueryLogStore → IpAddr → ℕ → ℕ → Text
  unfolding log_ip rows
  get_logs_html store ip now now' =
      let queries = get_logs store (log_ip ip) now in
      page_head
      ++ (codes "  <p>Your IP: <strong>"
          ++ (normalize_ip ip
              ++ (codes "</strong></p>\n  <p>Active IPs (10 min): <strong>"
                  ++ (number_text (active_ips store now')
                      ++ (codes "</strong></p>\n  <p>Showing "
                          ++ (number_text (length queries)
                              ++ (codes " queries</p>\n  <table>\n"
                                  ++ (codes
                                        "    <tr><th>Timestamp</th><th>Query</th><th>Answer</th></tr>\n    "
                                      ++ (rows queries
                                          ++ codes "\n  </table>\n</body>\n</html>")))))))))
