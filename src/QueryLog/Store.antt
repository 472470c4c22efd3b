-- ===== src/QueryLog/Store.antt =====
-- The map of `QueryLogStore` in src/query_log.rs: what an insertion does to each address, and what
-- `active_ips` counts.
use bancuh_dns.Prelude.{
  ℕ, ◌≡◌, refl, sym, ap, ◌∙◌, Bool, true, false, List, [], ◌∷◌, map, arith, if◌then◌else◌, length,
  keep, All, Bool-cases, inl, inr,
}
use bancuh_dns.Address.{IpAddr, same_ip, same_ip_iff, same_ip_refl}
use bancuh_dns.QueryLog.{
  QueryLog, QueryLogStore, cutoff, push_entry, update_entry, insert, entries_of?, is_fresh,
  get_logs, back_is_fresh, active_ips,
}
use bancuh_dns.QueryLog.Deque.{IsAscending}

-- The entries of an address, none if it is not in the map.
abbrev pub entries : QueryLogStore → IpAddr → List QueryLog
entries [] ip = []
entries ((j, xs) ∷ store) ip = if same_ip j ip then xs else entries store ip

pub get_logs-entries :
    (store : QueryLogStore) (ip : IpAddr) (now : ℕ)
    → get_logs store ip now ≡ keep (is_fresh (cutoff now)) (entries store ip)
unfolding get_logs entries_of?
get_logs-entries [] ip now = refl
get_logs-entries ((j, xs) ∷ store) ip now = elim (Bool-cases (same_ip j ip)) [
  | inl e ↦ rw (e, get_logs) refl
  | inr e ↦ rw (e, get_logs) (get_logs-entries store ip now)
]

entries-update :
    (ip : IpAddr) (change : List QueryLog → List QueryLog) (store : QueryLogStore) (j : IpAddr)
    → entries (update_entry ip change store) j
      ≡ (if same_ip ip j then change (entries store ip) else entries store j)
unfolding update_entry
entries-update ip change [] j = refl
entries-update ip change ((k, xs) ∷ store) j = ground (
  arith,
  entries-update ip change store j,
  same_ip_iff k ip,
  same_ip_iff ip j,
  same_ip_iff k j,
  same_ip_refl ip,
)

-- An insertion changes the entries of its address and of no other.
pub entries-insert :
    (store : QueryLogStore) (ip : IpAddr) (log : QueryLog) (now : ℕ) (j : IpAddr)
    → entries (insert store ip log now) j
      ≡ (if same_ip ip j then push_entry now log (entries store ip) else entries store j)
unfolding insert
entries-insert store ip log now j = entries-update ip (push_entry now log) store j

abbrev pub keys : QueryLogStore → List IpAddr
keys store = map (λ pair. pair.0) store

-- No address has two entries.
abbrev pub Distinct : List IpAddr → Type 0
Distinct [] = Unit
Distinct (ip ∷ ips) = All (λ j. same_ip ip j ≡ false) ips × Distinct ips

All-keys-update :
    (P : IpAddr → Type 0) (ip : IpAddr) (change : List QueryLog → List QueryLog)
    (store : QueryLogStore)
    → P ip
    → All P (keys store)
    → All P (keys (update_entry ip change store))
unfolding update_entry
All-keys-update P ip change [] p h = (p, tt)
All-keys-update P ip change ((k, xs) ∷ store) p h = elim (Bool-cases (same_ip k ip)) [
  | inl e ↦ rw e h
  | inr e ↦ rw e (h.0, All-keys-update P ip change store p h.1)
]

Distinct-update :
    (ip : IpAddr) (change : List QueryLog → List QueryLog) (store : QueryLogStore)
    → Distinct (keys store)
    → Distinct (keys (update_entry ip change store))
unfolding update_entry
Distinct-update ip change [] h = (tt, tt)
Distinct-update ip change ((k, xs) ∷ store) h = elim (Bool-cases (same_ip k ip)) [
  | inl e ↦ rw e h
  | inr e ↦ rw e (
    All-keys-update (λ j. same_ip k j ≡ false) ip change store e h.0,
    Distinct-update ip change store h.1,
  )
]

pub Distinct-insert :
    (store : QueryLogStore) (ip : IpAddr) (log : QueryLog) (now : ℕ)
    → Distinct (keys store)
    → Distinct (keys (insert store ip log now))
unfolding insert
Distinct-insert store ip log now h = Distinct-update ip (push_entry now log) store h

abbrev pub is_nonempty : List QueryLog → Bool
is_nonempty [] = false
is_nonempty (e ∷ xs) = true

-- In order of time, the back is fresh if anything is.
back-nonempty :
    (c : ℕ) (xs : List QueryLog)
    → IsAscending xs
    → back_is_fresh c xs ≡ is_nonempty (keep (is_fresh c) xs)
unfolding back_is_fresh
back-nonempty c [] h = refl
back-nonempty c (e ∷ []) h = ground arith
back-nonempty c (e ∷ f ∷ xs) h = ground (arith, back-nonempty c (f ∷ xs) h.1, h.0.0)

count-keys :
    (p : List QueryLog → Bool) (q : IpAddr → Bool) (store : QueryLogStore)
    → All (λ pair. p pair.1 ≡ q pair.0) store
    → length (keep (λ pair. p pair.1) store) ≡ length (keep q (keys store))
count-keys p q [] h = refl
count-keys p q ((k, xs) ∷ store) h = ground (arith, count-keys p q store h.1, h.0)

-- A first entry of another address is passed over.
All-entries-skip :
    (k : IpAddr) (xs : List QueryLog) (store pairs : QueryLogStore)
    → All (λ j. same_ip k j ≡ false) (keys pairs)
    → All (λ pair. entries store pair.0 ≡ pair.1) pairs
    → All (λ pair. entries ((k, xs) ∷ store) pair.0 ≡ pair.1) pairs
All-entries-skip k xs store [] d h = tt
All-entries-skip k xs store (pair ∷ pairs) d h =
    (rw d.0 h.0, All-entries-skip k xs store pairs d.1 h.1)

own_entries :
    (store : QueryLogStore)
    → Distinct (keys store)
    → All (λ pair. entries store pair.0 ≡ pair.1) store
own_entries [] d = tt
own_entries ((k, xs) ∷ store) d =
    (rw (same_ip_refl k) refl, All-entries-skip k xs store store d.0 (own_entries store d.1))

back-get_logs :
    (whole : QueryLogStore) (now : ℕ) (pairs : QueryLogStore)
    → ((ip : IpAddr) → IsAscending (entries whole ip))
    → All (λ pair. entries whole pair.0 ≡ pair.1) pairs
    → All
        (λ pair. back_is_fresh (cutoff now) pair.1 ≡ is_nonempty (get_logs whole pair.0 now))
        pairs
back-get_logs whole now [] up own = tt
back-get_logs whole now ((k, xs) ∷ pairs) up own = (
  ap (back_is_fresh (cutoff now)) (sym own.0)
      ∙ back-nonempty (cutoff now) (entries whole k) (up k)
      ∙ ap is_nonempty (sym (get_logs-entries whole k now)),
  back-get_logs whole now pairs up own.1,
)

-- Where each address has one entry, in order of time, `active_ips` counts the addresses for which
-- `get_logs` returns something.
pub active_ips-get_logs :
    (store : QueryLogStore) (now : ℕ)
    → Distinct (keys store)
    → ((ip : IpAddr) → IsAscending (entries store ip))
    → active_ips store now ≡ length (keep (λ ip. is_nonempty (get_logs store ip now)) (keys store))
unfolding active_ips
active_ips-get_logs store now d up =
    count-keys (back_is_fresh (cutoff now)) (λ ip. is_nonempty (get_logs store ip now)) store
      (back-get_logs store now store up (own_entries store d))
