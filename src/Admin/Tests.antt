-- ===== src/Admin/Tests.antt =====
-- Escapes of a toy text, and the answers to a client over the socket of IPv6.
use bancuh_dns.Prelude.{ℕ, ◌+◌, ◌*◌, ◌≡◌, refl, List, [], ◌∷◌, arith, keep, length}
use bancuh_dns.Text.{Text, codes, join}
use bancuh_dns.Address.{IpAddr, v4, v6}
use bancuh_dns.Address.Display.{ip_text, ipv4_text, ipv6_text}
use bancuh_dns.QueryLog.{max_per_ip, cutoff, is_fresh}
use bancuh_dns.QueryLog.Deque.{latest}
use bancuh_dns.QueryLog.History.{Event, run, inserted}
use bancuh_dns.Handler.Server
use bancuh_dns.Admin.{replace, html_escape, normalize_ip, get_logs_api, get_logs_html}
use bancuh_dns.Admin.Own.{get_logs_api_own}
use bancuh_dns.Admin.Markup.{tags, tags-get_logs_html}
use bancuh_dns.Admin.Escape.{unescape_after, unescape-html_escape}

tag : html_escape (codes "<b>&") ≡ codes "&lt;b&gt;&amp;"
unfolding html_escape replace
tag = refl

unescape-html_escape_example : unescape_after 0 (html_escape (codes "<b>&lt;")) ≡ codes "<b>&lt;"
unescape-html_escape_example = unescape-html_escape (codes "<b>&lt;")

abbrev client : IpAddr
client = v6 0xffff0a000001

abbrev history : List Event
history =
    record {
      ip = v4 0x0a000001;
      log = record { query_time = 7; question = codes "<a>. A"; answer = codes "blocked" };
      at = 7;
    }
    ∷ []

shown : normalize_ip client ≡ codes "10.0.0.1"
unfolding normalize_ip ip_text ipv6_text ipv4_text
shown = refl

-- The prefix is taken off an address that is not IPv4-mapped as well; what is left is no address.
cut : normalize_ip (v6 0xffff00000a000001) ≡ codes "0:a00:1"
unfolding normalize_ip ip_text ipv6_text join
cut = refl

client_sees_own : get_logs_api (run history) client 9 ≡ record {
  ip = ipv4_text 0x0a000001;
  queries =
      latest max_per_ip
        (keep (is_fresh (cutoff 9)) (inserted (Server.normalize_ip client) history));
}
unfolding Server.normalize_ip
client_sees_own =
    get_logs_api_own history client 0x0a000001 9 (omega arith) refl (omega arith) (omega arith)

abbrev toy_time : ℕ → Text
toy_time t = codes "1970-01-01 00:00:00"

tags-get_logs_html_example :
    tags (get_logs_html toy_time (run history) client 9 9)
    ≡ 33 + 8 * length (get_logs_api (run history) client 9).queries
tags-get_logs_html_example =
    tags-get_logs_html toy_time (λ t. refl) (run history) client 9 9 (omega arith)
