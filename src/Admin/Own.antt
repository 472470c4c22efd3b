-- ===== src/Admin/Own.antt =====
-- That the admin server of src/admin.rs shows a client the queries that src/handler.rs has logged for it,
-- though each finds the client's address its own way: one from the text of the address, the other from
-- its bits.
use bancuh_dns.Prelude.{
  ℕ, ◌/◌, subst, ◌^◌, ◌≤◌, ◌<◌, ◌≡◌, ◌∙◌, refl, ap, none, some, List, ◌++◌, arith, keep, inl, inr,
  lt_or_le, Option-cases,
}
use bancuh_dns.Text.{Text, codes}
use bancuh_dns.Address.{IpAddr, v4, v6, IsAddress, to_ipv4_mapped}
use bancuh_dns.Address.Display.{decimal, ipv4_text, ipv6_text, ip_text}
use bancuh_dns.Address.RoundTrip.{decimal-one, decimal-two, decimal-three, parse_ip-ipv4_text}
use bancuh_dns.QueryLog.{max_per_ip, cutoff, is_fresh}
use bancuh_dns.QueryLog.Deque.{latest}
use bancuh_dns.QueryLog.History.{Event, run, inserted, last_at, Clocked, get_logs_refines}
use bancuh_dns.Handler.Server
use bancuh_dns.Handler.Server.Total.{normalize_ip-IsAddress}
use bancuh_dns.Admin.Stripped.{log_ip-v6}
use bancuh_dns.Admin.{log_ip, strip_prefix, normalize_ip, get_logs_api}

strip_prefix-decimal :
    (n : ℕ) (s : Text) → n < 256 → strip_prefix (decimal n ++ s) (codes "::ffff:") ≡ none
strip_prefix-decimal n s h = elim (lt_or_le n 10) [
  | inl one ↦ rw (decimal-one n one) (ground arith)
  | inr more ↦ elim (lt_or_le n 100) [
    | inl two ↦ rw (decimal-two n more two) (ground arith)
    | inr three ↦ rw (decimal-three n three) (ground arith)
  ]
]

normalize_ip-v4 : (b : ℕ) → b < 2 ^ 32 → normalize_ip (v4 b) ≡ ipv4_text b
unfolding normalize_ip ip_text ipv4_text
normalize_ip-v4 b h = rw (strip_prefix-decimal (b / 16777216) _ (omega arith)) refl

normalize_ip-mapped :
    (bits b : ℕ) → to_ipv4_mapped bits ≡ some b → normalize_ip (v6 bits) ≡ ipv4_text b
unfolding normalize_ip ip_text ipv6_text
normalize_ip-mapped bits b e = rw (normalize_ip, ip_text, ipv6_text, e) refl

v4_injective : {a b : ℕ} → v4 a ≡ v4 b → a ≡ b
v4_injective h = cc h

-- The two ways agree on the clients of IPv4, also where they come by the socket of IPv6.
normalize_ip_text :
    (src : IpAddr) (b : ℕ)
    → b < 2 ^ 32
    → Server.normalize_ip src ≡ v4 b
    → normalize_ip src ≡ ipv4_text b
unfolding Server.normalize_ip
normalize_ip_text (v4 bits) b small e =
    ap (λ c. normalize_ip (v4 c)) (v4_injective e) ∙ normalize_ip-v4 b small
normalize_ip_text (v6 bits) b small e = elim (Option-cases (to_ipv4_mapped bits)) [
  | inl none_mapped ↦ cc (rw (Server.normalize_ip, none_mapped) at e)
  | inr (c, mapped) ↦
      normalize_ip-mapped bits c mapped
      ∙ ap ipv4_text (v4_injective (rw (Server.normalize_ip, mapped) at e))
]

log_ip-v4 :
    (src : IpAddr) (b : ℕ) → IsAddress src → Server.normalize_ip src ≡ v4 b → log_ip src ≡ v4 b
unfolding log_ip
log_ip-v4 src b a e =
    let small : b < 2 ^ 32 = subst IsAddress e (normalize_ip-IsAddress src a) in
    rw (log_ip, normalize_ip_text src b small e, parse_ip-ipv4_text b small) refl

-- Every client is given the logs of the address that `handle_request` logs for it.
pub log_ip_lem : (src : IpAddr) → IsAddress src → log_ip src ≡ Server.normalize_ip src
unfolding Server.normalize_ip
log_ip_lem (v4 bits) a = log_ip-v4 (v4 bits) bits a refl
log_ip_lem (v6 bits) a = elim (Option-cases (to_ipv4_mapped bits)) [
  | inl proper ↦ rw (Server.normalize_ip, proper) (log_ip-v6 bits a proper)
  | inr (b, mapped) ↦
      rw (Server.normalize_ip, mapped)
        (log_ip-v4 (v6 bits) b a (rw (Server.normalize_ip, mapped) refl))
]

-- After any history of insertions in order of time, a client over IPv4, or over IPv6 with an
-- IPv4-mapped address, is shown its IPv4 address in dotted decimals and the latest 1000 of the
-- entries of the last ten minutes that were inserted under the address that `handle_request` logs for
-- it, oldest first.
pub get_logs_api_own :
    (events : List Event) (src : IpAddr) (b now : ℕ)
    → IsAddress src
    → Server.normalize_ip src ≡ v4 b
    → Clocked events
    → last_at events ≤ now
    → get_logs_api (run events) src now ≡ record {
      ip = ipv4_text b;
      queries =
          latest max_per_ip
            (keep (is_fresh (cutoff now)) (inserted (Server.normalize_ip src) events));
    }
unfolding get_logs_api
get_logs_api_own events src b now a e clocked le =
    let small : b < 2 ^ 32 = subst IsAddress e (normalize_ip-IsAddress src a) in
    let text : normalize_ip src ≡ ipv4_text b = normalize_ip_text src b small e in
    rw
      (
        get_logs_api,
        text,
        parse_ip-ipv4_text b small,
        e,
        get_logs_refines events (v4 b) now clocked le,
      )
      refl
