-- ===== src/QueryLog/Latest.antt =====
-- The query log of src/query_log.rs where queries may be logged in another order than they were read the
-- time of: the clock of the insertions does not go back, but `query_time` is read before the lock.
use bancuh_dns.Prelude.{
  ℕ, append_assoc, ◌-◌, ◌≤◌, ◌<◌, ◌≡◌, refl, sym, ap, subst, ◌∙◌, List, [], ◌∷◌, ◌++◌, arith, ltb,
  leb, length, keep, All, All-append, length-append, length-drop, keep-append, Bool-cases, inl, inr,
}
use bancuh_dns.Address.{IpAddr, same_ip, same_ip_iff}
use bancuh_dns.QueryLog.{
  QueryLog, max_per_ip, cutoff, push_entry, evict, pop_front, cap_entries, is_fresh, get_logs,
}
use bancuh_dns.QueryLog.Deque.{latest, All-mono, latest_of_short, latest-snoc}
use bancuh_dns.QueryLog.Store.{entries, get_logs-entries, entries-insert}
use bancuh_dns.QueryLog.History.{Event, run, inserted, last_at}

-- The clock of the insertions does not go back.
abbrev pub Timed : List Event → Type 0
Timed [] = Unit
Timed (e ∷ events) = (last_at events ≤ e.at) × Timed events

abbrev IsOlder : ℕ → List QueryLog → Type 0
IsOlder limit xs = All (λ e. e.query_time < limit) xs

-- What is evicted is a front of older entries.
evict_split :
    (c : ℕ) (xs : List QueryLog)
    → (front : List QueryLog) × (xs ≡ front ++ evict c xs) × IsOlder c front
unfolding evict
evict_split c [] = ([], refl, tt)
evict_split c (e ∷ xs) = elim (Bool-cases (ltb e.query_time c)) [
  | inl old ↦
      let (front, whole, older) = evict_split c xs in
      rw old (e ∷ front, ap (λ r. e ∷ r) whole, (ground arith, older))
  | inr new ↦ rw new ([], refl, tt)
]

-- The deque holds the latest 1000 of all entries but for a front that is older than the limit.
abbrev Misses : ℕ → List QueryLog → List QueryLog → Type 0
Misses limit all xs =
    (front : List QueryLog) × (latest max_per_ip all ≡ front ++ xs) × IsOlder limit front

cap_of_short : (xs : List QueryLog) → length xs < max_per_ip → cap_entries xs ≡ xs
unfolding cap_entries
cap_of_short xs h = ground arith

cap_of_full : (xs : List QueryLog) → max_per_ip ≤ length xs → cap_entries xs ≡ pop_front xs
unfolding cap_entries
cap_of_full xs h = ground arith

-- One more entry, where there were fewer than 1000.
snoc_short :
    (limit : ℕ) (all xs : List QueryLog) (e : QueryLog)
    → length all < max_per_ip
    → Misses limit all xs
    → Misses limit (all ++ e ∷ []) (cap_entries xs ++ e ∷ [])
snoc_short limit all xs e short (front, whole, older) =
    let all_of : all ≡ front ++ xs = sym (latest_of_short max_per_ip all (omega arith)) ∙ whole in
    let few : length xs < max_per_ip = omega (arith, ap length all_of, length-append front xs) in
    rw (cap_of_short xs few) (
      front,
      latest_of_short max_per_ip (all ++ e ∷ []) (omega (arith, length-append all (e ∷ [])))
          ∙ ap (λ r. r ++ e ∷ []) all_of
          ∙ append_assoc front xs (e ∷ []),
      older,
    )

-- One more entry pushes the oldest of the latest 1000 out: from the front that is missed, or from the
-- deque, which is full then.
snoc_full :
    (limit : ℕ) (all xs : List QueryLog) (e : QueryLog)
    → max_per_ip ≤ length all
    → Misses limit all xs
    → Misses limit (all ++ e ∷ []) (cap_entries xs ++ e ∷ [])
snoc_full limit all xs e long ([], whole, older) =
    let full : max_per_ip ≤ length xs =
      omega (arith, ap length whole, length-drop (length all - max_per_ip) all) in
    rw (cap_of_full xs full) (
      [],
      latest-snoc max_per_ip all e (omega arith) long ∙ ap (λ r. pop_front r ++ e ∷ []) whole,
      tt,
    )
snoc_full limit all xs e long (p ∷ front, whole, older) =
    let few : length xs < max_per_ip =
      omega (
        arith,
        ap length whole,
        length-append front xs,
        length-drop (length all - max_per_ip) all,
      ) in
    rw (cap_of_short xs few) (
      front,
      latest-snoc max_per_ip all e (omega arith) long
          ∙ ap (λ r. pop_front r ++ e ∷ []) whole
          ∙ append_assoc front xs (e ∷ []),
      older.1,
    )

push_entry-Misses :
    (now limit : ℕ) (e : QueryLog) (xs all : List QueryLog)
    → limit ≤ cutoff now
    → Misses limit all xs
    → Misses (cutoff now) (all ++ e ∷ []) (push_entry now e xs)
unfolding push_entry
push_entry-Misses now limit e xs all later (front, whole, older) =
    let (popped, split, old) = evict_split (cutoff now) xs in
    let misses : Misses (cutoff now) all (evict (cutoff now) xs) = (
      front ++ popped,
      whole ∙ ap (λ r. front ++ r) split ∙ sym (append_assoc front popped (evict (cutoff now) xs)),
      All-append (λ f. f.query_time < cutoff now) front popped
          (All-mono (λ f p. omega (arith, p, later)) front older) old,
    ) in
    elim (Bool-cases (leb max_per_ip (length all))) [
      | inl long ↦ snoc_full (cutoff now) all (evict (cutoff now) xs) e (ground arith) misses
      | inr short ↦ snoc_short (cutoff now) all (evict (cutoff now) xs) e (ground arith) misses
    ]

cutoff_mono : (a b : ℕ) → a ≤ b → cutoff a ≤ cutoff b
cutoff_mono a b h = omega arith

run-Misses :
    (events : List Event) (ip : IpAddr)
    → Timed events
    → Misses (cutoff (last_at events)) (inserted ip events) (entries (run events) ip)
run-Misses [] ip h = ([], refl, tt)
run-Misses (e ∷ events) ip h = elim (Bool-cases (same_ip e.ip ip)) [
  | inl same ↦
      rw (entries-insert (run events) e.ip e.log e.at ip, same)
        (push_entry-Misses e.at (cutoff (last_at events)) e.log (entries (run events) e.ip)
          (inserted ip events) (cutoff_mono (last_at events) e.at h.0)
          (subst
            (λ j. Misses (cutoff (last_at events)) (inserted ip events) (entries (run events) j))
            (sym ((same_ip_iff e.ip ip).0 same)) (run-Misses events ip h.1)))
  | inr other ↦
      let (front, whole, older) = run-Misses events ip h.1 in
      rw (entries-insert (run events) e.ip e.log e.at ip, other)
        (
          front,
          whole,
          All-mono (λ f p. omega (arith, p, cutoff_mono (last_at events) e.at h.0)) front older,
        )
]

keep_of_older :
    (limit c : ℕ) (xs : List QueryLog) → IsOlder limit xs → limit ≤ c → keep (is_fresh c) xs ≡ []
keep_of_older limit c [] h le = refl
keep_of_older limit c (e ∷ xs) h le = ground (arith, keep_of_older limit c xs h.1 le, h.0)

-- After any history whose insertions are in order of time, whatever times the entries have, `get_logs`
-- returns those that are at most ten minutes old of the latest 1000 entries of its address, in the
-- order of their insertion.
pub get_logs-latest :
    (events : List Event) (ip : IpAddr) (now : ℕ)
    → Timed events
    → last_at events ≤ now
    → get_logs (run events) ip now
      ≡ keep (is_fresh (cutoff now)) (latest max_per_ip (inserted ip events))
get_logs-latest events ip now h le =
    let (front, whole, older) = run-Misses events ip h in
    get_logs-entries (run events) ip now
    ∙ sym (
        ap (keep (is_fresh (cutoff now))) whole
        ∙ keep-append (is_fresh (cutoff now)) front (entries (run events) ip)
        ∙ ap (λ r. r ++ keep (is_fresh (cutoff now)) (entries (run events) ip))
            (keep_of_older (cutoff (last_at events)) (cutoff now) front older
              (cutoff_mono (last_at events) now le)))
