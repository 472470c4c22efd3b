-- ===== src/QueryLog.antt =====
-- src/query_log.rs: the queries of the last ten minutes, by address.
--
-- Instants are nanoseconds, and the clock reads more than ten minutes after their zero. The hash map
-- is an association list in which an address has one entry; the deque has its front at the head.
pub mod Deque
pub mod Window
pub mod Store
pub mod History
pub mod Latest
mod Tests
use bancuh_dns.Prelude.{
  ℕ, ◌-◌, ◌*◌, Bool, false, Option, none, some, List, [], ◌∷◌, ◌++◌, ltb, leb, if◌then◌else◌,
  length, keep,
}
use bancuh_dns.Text.{Text}
use bancuh_dns.Address.{IpAddr, same_ip}

-- `MAX_AGE`
abbrev pub max_age : ℕ
max_age = 600 * 1_000_000_000

-- `MAX_PER_IP`
abbrev pub max_per_ip : ℕ
max_per_ip = 1000

pub record QueryLog : Type 0 where
  pub query_time : ℕ
  pub question : Text
  pub answer : Text

abbrev pub QueryLogStore : Type 0
QueryLogStore = List (IpAddr × List QueryLog)

-- `QueryLogStore::new`
abbrev pub new : QueryLogStore
new = []

-- `Utc::now() - MAX_AGE`
abbrev pub cutoff : ℕ → ℕ
cutoff now = now - max_age

-- `while entries.front().is_some_and(|e| e.query_time < cutoff) { entries.pop_front(); }`
unfoldable pub evict : ℕ → List QueryLog → List QueryLog
evict limit [] = []
evict limit (e ∷ entries) =
    let rest = evict limit entries in if ltb e.query_time limit then rest else e ∷ entries

-- `entries.pop_front()`, its result dropped.
abbrev pub pop_front : List QueryLog → List QueryLog
pop_front [] = []
pop_front (e ∷ entries) = entries

-- `if entries.len() >= MAX_PER_IP { entries.pop_front(); }`
unfoldable pub cap_entries : List QueryLog → List QueryLog
cap_entries entries = if leb max_per_ip (length entries) then pop_front entries else entries

-- What `insert` does to the entries of its address.
unfoldable pub push_entry : ℕ → QueryLog → List QueryLog → List QueryLog
push_entry now log entries = cap_entries (evict (cutoff now) entries) ++ log ∷ []

-- `*store.entry(ip).or_default()` replaced by what the function gives for it.
unfoldable pub update_entry :
    IpAddr → (List QueryLog → List QueryLog) → QueryLogStore → QueryLogStore
update_entry ip change [] = (ip, change []) ∷ []
update_entry ip change ((j, entries) ∷ store) =
    if same_ip j ip
    then (j, change entries) ∷ store
    else (j, entries) ∷ update_entry ip change store

-- `QueryLogStore::insert`; `now` is the clock under the lock.
unfoldable pub insert : QueryLogStore → IpAddr → QueryLog → ℕ → QueryLogStore
insert store ip log now = update_entry ip (push_entry now log) store

-- `store.get(ip)`
unfoldable pub entries_of? : QueryLogStore → IpAddr → Option (List QueryLog)
entries_of? [] ip = none
entries_of? ((j, entries) ∷ store) ip = if same_ip j ip then some entries else entries_of? store ip

abbrev pub is_fresh : ℕ → QueryLog → Bool
is_fresh limit e = leb limit e.query_time

-- `QueryLogStore::get_logs`
unfoldable pub get_logs : QueryLogStore → IpAddr → ℕ → List QueryLog
get_logs store ip now = elim (entries_of? store ip) [
  | none ↦ []
  | some entries ↦ keep (is_fresh (cutoff now)) entries
]

-- `entries.back().is_some_and(|e| e.query_time >= cutoff)`
unfoldable pub back_is_fresh : ℕ → List QueryLog → Bool
back_is_fresh limit [] = false
back_is_fresh limit (e ∷ []) = is_fresh limit e
back_is_fresh limit (e ∷ f ∷ entries) = back_is_fresh limit (f ∷ entries)

-- `QueryLogStore::active_ips`
unfoldable pub active_ips : QueryLogStore → ℕ → ℕ
active_ips store now = length (keep (λ pair. back_is_fresh (cutoff now) pair.1) store)
