-- ===== src/QueryLog/Tests.antt =====
-- The query log of src/query_log.rs on a concrete history.
use bancuh_dns.Prelude.{ℕ, ◌*◌, ◌≤◌, ◌≡◌, refl, List, [], ◌∷◌, arith, length, keep}
use bancuh_dns.Text.{codes}
use bancuh_dns.Address.{IpAddr, v4}
use bancuh_dns.QueryLog.{
  QueryLog, max_per_ip, cutoff, is_fresh, evict, push_entry, insert, get_logs, active_ips,
  cap_entries, update_entry, entries_of?, back_is_fresh,
}
use bancuh_dns.QueryLog.Deque.{latest}
use bancuh_dns.QueryLog.Store.{entries, keys, Distinct, is_nonempty}
use bancuh_dns.QueryLog.History.{
  Event, run, inserted, Clocked, get_logs_refines, active_ips_refines, length-run-le,
}

abbrev client : IpAddr
client = v4 1

abbrev other : IpAddr
other = v4 2

abbrev second : ℕ
second = 1_000_000_000

abbrev asked : ℕ → QueryLog
asked t = record { query_time = t; question = codes "a. A"; answer = codes "blocked" }

abbrev event : IpAddr → ℕ → Event
event ip t = record { ip = ip; log = asked t; at = t }

-- The latest first: the client at 1000 s, 1500 s and 1700 s, another in between.
abbrev history : List Event
history =
    event client (1700 * second)
    ∷ event other (1600 * second)
    ∷ event client (1500 * second)
    ∷ event client (1000 * second)
    ∷ []

history-Clocked : Clocked history
history-Clocked = omega arith

-- The entry of 1000 s is evicted at 1700 s.
shown :
    get_logs (run history) client (1700 * second)
    ≡ asked (1500 * second) ∷ asked (1700 * second) ∷ []
unfolding get_logs insert update_entry push_entry evict cap_entries entries_of?
shown = refl

counted : active_ips (run history) (2250 * second) ≡ 1
unfolding active_ips insert update_entry push_entry evict cap_entries back_is_fresh
counted = refl

get_logs_refines_example :
    get_logs (run history) client (1700 * second)
    ≡ latest max_per_ip (keep (is_fresh (cutoff (1700 * second))) (inserted client history))
get_logs_refines_example =
    get_logs_refines history client (1700 * second) history-Clocked (omega arith)

active_ips_refines_example :
    Distinct (keys (run history))
    × (active_ips (run history) (2250 * second)
        ≡ length (
            keep
              (λ ip. is_nonempty (get_logs (run history) ip (2250 * second)))
              (keys (run history))))
active_ips_refines_example = active_ips_refines history (2250 * second) history-Clocked

length-run-le_example : length (entries (run history) client) ≤ max_per_ip
length-run-le_example = length-run-le history client
