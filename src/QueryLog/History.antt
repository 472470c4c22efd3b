-- ===== src/QueryLog/History.antt =====
-- The query log of src/query_log.rs after a whole history of insertions.
use native.Mathlib.Nat.{le_trans}
use bancuh_dns.Prelude.{
  ℕ, ◌≤◌, ◌≡◌, refl, sym, subst, ◌∙◌, List, [], ◌∷◌, ◌++◌, arith, if◌then◌else◌, length, keep,
  length-append, Bool-cases, inl, inr,
}
use bancuh_dns.Address.{IpAddr, same_ip, same_ip_iff}
use bancuh_dns.QueryLog.{
  QueryLog, QueryLogStore, new, max_per_ip, cutoff, push_entry, evict, cap_entries, insert,
  is_fresh, get_logs, active_ips,
}
use bancuh_dns.QueryLog.Deque.{latest, Tracks, All-mono, length-evict-le, length-cap-lt}
use bancuh_dns.QueryLog.Window.{push_entry-Tracks}
use bancuh_dns.QueryLog.Store.{
  entries, get_logs-entries, entries-insert, keys, Distinct, Distinct-insert, is_nonempty,
  active_ips-get_logs,
}

-- A call of `insert`, and the clock at it.
pub record Event : Type 0 where
  pub ip : IpAddr
  pub log : QueryLog
  pub at : ℕ

-- A history has its latest event first.
abbrev pub run : List Event → QueryLogStore
run [] = new
run (e ∷ events) = insert (run events) e.ip e.log e.at

-- All that was ever inserted for an address, in order.
abbrev pub inserted : IpAddr → List Event → List QueryLog
inserted ip [] = []
inserted ip (e ∷ events) =
    let before = inserted ip events in if same_ip e.ip ip then before ++ e.log ∷ [] else before

abbrev pub last_at : List Event → ℕ
last_at [] = 0
last_at (e ∷ events) = e.at

abbrev pub last_time : List Event → ℕ
last_time [] = 0
last_time (e ∷ events) = e.log.query_time

-- The clock does not go back, neither at the insertions nor in the entries.
abbrev pub Clocked : List Event → Type 0
Clocked [] = Unit
Clocked (e ∷ events) =
    (last_at events ≤ e.at) × (last_time events ≤ e.log.query_time) × Clocked events

cutoff_mono : (a b : ℕ) → a ≤ b → cutoff a ≤ cutoff b
cutoff_mono a b h = omega arith

Tracks-later :
    {xs all : List QueryLog} {limit time : ℕ} (limit' time' : ℕ)
    → Tracks xs all limit time
    → limit ≤ limit'
    → time ≤ time'
    → Tracks xs all limit' time'
Tracks-later {xs} limit' time' tr le lt = record {
  small = tr.small;
  ascending = tr.ascending;
  not_after = All-mono (λ e p. le_trans p lt) xs tr.not_after;
  view = λ c h. tr.view c (le_trans le h);
}

pub run-Tracks :
    (events : List Event) (ip : IpAddr)
    → Clocked events
    → Tracks
        (entries (run events) ip)
        (inserted ip events)
        (cutoff (last_at events))
        (last_time events)
run-Tracks [] ip h = record {
  small = omega arith;
  ascending = tt;
  not_after = tt;
  view = λ c le. refl;
}
run-Tracks (e ∷ events) ip h = elim (Bool-cases (same_ip e.ip ip)) [
  | inl same ↦
      rw (entries-insert (run events) e.ip e.log e.at ip, same)
        (push_entry-Tracks e.at e.log (entries (run events) e.ip) (inserted ip events)
          (subst
            (λ j.
              Tracks (entries (run events) j) (inserted ip events) (cutoff (last_at events))
                (last_time events))
            (sym ((same_ip_iff e.ip ip).0 same)) (run-Tracks events ip h.2))
          (cutoff_mono (last_at events) e.at h.0) h.1)
  | inr other ↦
      rw (entries-insert (run events) e.ip e.log e.at ip, other)
        (Tracks-later (cutoff e.at) e.log.query_time (run-Tracks events ip h.2)
          (cutoff_mono (last_at events) e.at h.0) h.1)
]

-- After any history in order of time, `get_logs` returns the latest 1000 of the entries of its
-- address that are at most ten minutes old, oldest first.
pub get_logs_refines :
    (events : List Event) (ip : IpAddr) (now : ℕ)
    → Clocked events
    → last_at events ≤ now
    → get_logs (run events) ip now
      ≡ latest max_per_ip (keep (is_fresh (cutoff now)) (inserted ip events))
get_logs_refines events ip now h le =
    get_logs-entries (run events) ip now
    ∙ (run-Tracks events ip h).view (cutoff now) (cutoff_mono (last_at events) now le)

-- Whatever the clock does, no address has two lists.
pub run-Distinct : (events : List Event) → Distinct (keys (run events))
run-Distinct [] = tt
run-Distinct (e ∷ events) = Distinct-insert (run events) e.ip e.log e.at (run-Distinct events)

-- After any history in order of time, `active_ips` is the number of addresses, each counted once, for
-- which `get_logs` returns something.
pub active_ips_refines :
    (events : List Event) (now : ℕ)
    → Clocked events
    → Distinct (keys (run events))
      × (active_ips (run events) now
          ≡ length (keep (λ ip. is_nonempty (get_logs (run events) ip now)) (keys (run events))))
active_ips_refines events now h = (
  run-Distinct events,
  active_ips-get_logs (run events) now (run-Distinct events)
      (λ ip. (run-Tracks events ip h).ascending),
)

length-push_entry-le :
    (now : ℕ) (log : QueryLog) (xs : List QueryLog)
    → length xs ≤ max_per_ip
    → length (push_entry now log xs) ≤ max_per_ip
unfolding push_entry
length-push_entry-le now log xs small =
    let fewer : length (evict (cutoff now) xs) ≤ max_per_ip =
      le_trans (length-evict-le (cutoff now) xs) small in
    omega (
      arith,
      length-append (cap_entries (evict (cutoff now) xs)) (log ∷ []),
      length-cap-lt (evict (cutoff now) xs) fewer,
    )

-- After any history, also where the clock went back, an address holds at most 1000 entries.
pub length-run-le :
    (events : List Event) (ip : IpAddr) → length (entries (run events) ip) ≤ max_per_ip
length-run-le [] ip = omega arith
length-run-le (e ∷ events) ip = elim (Bool-cases (same_ip e.ip ip)) [
  | inl same ↦
      rw (entries-insert (run events) e.ip e.log e.at ip, same)
        (length-push_entry-le e.at e.log (entries (run events) e.ip) (length-run-le events e.ip))
  | inr other ↦ rw (entries-insert (run events) e.ip e.log e.at ip, other) (length-run-le events ip)
]
