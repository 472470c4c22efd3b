-- ===== src/QueryLog/Window.antt =====
-- An insertion keeps a deque in step with all that was inserted (`insert` of src/query_log.rs).
use native.Mathlib.Nat.{le_refl, le_trans}
use bancuh_dns.Prelude.{
  ℕ, ◌-◌, ◌≤◌, ◌<◌, ◌≡◌, sym, ap, ◌∙◌, List, [], ◌∷◌, ◌++◌, arith, leb, length, keep, All,
  keep-append, length-append, length-keep-le, length-drop, Bool-cases, inl, inr, leb_sound,
  lt_of_leb,
}
use bancuh_dns.QueryLog.{
  QueryLog, max_per_ip, evict, pop_front, cap_entries, push_entry, is_fresh, cutoff,
}
use bancuh_dns.QueryLog.Deque.{
  latest, NotAfter, IsAscending, Tracks, All-mono, All-snoc, All-evict, IsAscending-evict,
  length-evict-le, keep-evict, keep-All, All-cap, IsAscending-cap, IsAscending-snoc, length-cap-lt,
  latest_of_short, latest-snoc, length-latest-short,
}

-- With room left, the new entry joins the window.
view-short :
    (c : ℕ) (zs xs : List QueryLog) (e : QueryLog)
    → length zs < max_per_ip
    → keep (is_fresh c) zs ≡ latest max_per_ip xs
    → keep (is_fresh c) (zs ++ e ∷ []) ≡ latest max_per_ip (xs ++ keep (is_fresh c) (e ∷ []))
view-short c zs xs e room view =
    let short : length xs < max_per_ip =
      length-latest-short max_per_ip xs
        (omega (arith, ap length view, length-keep-le (is_fresh c) zs)) in
    keep-append (is_fresh c) zs (e ∷ [])
    ∙ ap (λ r. r ++ keep (is_fresh c) (e ∷ [])) (view ∙ latest_of_short max_per_ip xs (omega arith))
    ∙ sym (
        latest_of_short max_per_ip (xs ++ keep (is_fresh c) (e ∷ [])) (
          omega (
            arith,
            length-append xs (keep (is_fresh c) (e ∷ [])),
            length-keep-le (is_fresh c) (e ∷ []),
          )))

-- A full deque gives up its front entry, which is either the oldest of the window or not fresh.
view-full :
    (c : ℕ) (d : QueryLog) (zs xs : List QueryLog) (e : QueryLog)
    → max_per_ip ≤ length (d ∷ zs)
    → length zs < max_per_ip
    → IsAscending (d ∷ zs)
    → NotAfter e.query_time (d ∷ zs)
    → keep (is_fresh c) (d ∷ zs) ≡ latest max_per_ip xs
    → keep (is_fresh c) (zs ++ e ∷ []) ≡ latest max_per_ip (xs ++ keep (is_fresh c) (e ∷ []))
view-full c d zs xs e full room up late view = elim (Bool-cases (is_fresh c d)) [
  | inr stale ↦ view-short c zs xs e room (rw stale at view)
  | inl fresh ↦
      let first : c ≤ d.query_time = leb_sound c d.query_time fresh in
      let rest : All (λ f. c ≤ f.query_time) zs = All-mono (λ f p. le_trans first p) zs up.0 in
      let last : c ≤ e.query_time = le_trans first late.0 in
      let whole : d ∷ zs ≡ latest max_per_ip xs = sym (keep-All c (d ∷ zs) (first, rest)) ∙ view in
      let long : max_per_ip ≤ length xs =
        omega (arith, ap length whole, length-drop (length xs - max_per_ip) xs) in
      keep-All c (zs ++ e ∷ []) (All-snoc (λ f. c ≤ f.query_time) zs rest last)
      ∙ ap (λ r. pop_front r ++ e ∷ []) whole
      ∙ sym (latest-snoc max_per_ip xs e (omega arith) long)
      ∙ ap (λ r. latest max_per_ip (xs ++ r)) (sym (keep-All c (e ∷ []) (last, tt)))
]

view-cap :
    (c : ℕ) (zs xs : List QueryLog) (e : QueryLog)
    → length zs ≤ max_per_ip
    → IsAscending zs
    → NotAfter e.query_time zs
    → keep (is_fresh c) zs ≡ latest max_per_ip xs
    → keep (is_fresh c) (cap_entries zs ++ e ∷ [])
      ≡ latest max_per_ip (xs ++ keep (is_fresh c) (e ∷ []))
unfolding cap_entries
view-cap c [] xs e small up late view = view-short c [] xs e (omega arith) view
view-cap c (d ∷ zs) xs e small up late view = elim (Bool-cases (leb max_per_ip (length (d ∷ zs)))) [
  | inl full ↦ rw full (
      view-full c d zs xs e (leb_sound max_per_ip (length (d ∷ zs)) full) (omega arith) up late
        view)
  | inr room ↦
      rw room (view-short c (d ∷ zs) xs e (lt_of_leb max_per_ip (length (d ∷ zs)) room) view)
]

-- An insertion at a later time keeps the deque in step: at most 1000 entries, in order, showing the
-- latest 1000 of the entries that are fresh at any limit from now on.
pub push_entry-Tracks :
    (now : ℕ) (e : QueryLog) (entries inserted : List QueryLog) {limit time : ℕ}
    → Tracks entries inserted limit time
    → limit ≤ cutoff now
    → time ≤ e.query_time
    → Tracks (push_entry now e entries) (inserted ++ e ∷ []) (cutoff now) e.query_time
unfolding push_entry
push_entry-Tracks now e entries inserted tr later after = record {
  small = omega (arith, length-append (cap_entries zs) (e ∷ []), length-cap-lt zs small);
  ascending = IsAscending-snoc (cap_entries zs) e (IsAscending-cap zs up) (All-cap _ zs late);
  not_after =
      All-snoc (λ f. f.query_time ≤ e.query_time) (cap_entries zs) (All-cap _ zs late) (le_refl _);
  view = λ c le.
      view-cap c zs (keep (is_fresh c) inserted) e small up late
        (keep-evict (cutoff now) c entries le ∙ tr.view c (le_trans later le))
      ∙ ap (latest max_per_ip) (sym (keep-append (is_fresh c) inserted (e ∷ [])));
}
  where
    zs : List QueryLog
    zs = evict (cutoff now) entries

    small : length zs ≤ max_per_ip
    small = le_trans (length-evict-le (cutoff now) entries) tr.small

    up : IsAscending zs
    up = IsAscending-evict (cutoff now) entries tr.ascending

    late : NotAfter e.query_time zs
    late = All-mono (λ f p. le_trans p after) zs (All-evict _ (cutoff now) entries tr.not_after)
