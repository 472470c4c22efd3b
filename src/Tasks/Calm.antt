-- ===== src/Tasks/Calm.antt =====
-- Why the program ends.
use bancuh_dns.Prelude.{
  ◌≡◌, ◌≢◌, refl, Bool, true, false, ◌||◌, some, List, [], ◌∷◌, arith, ◌⊎◌, inl, inr, Bool-cases,
}
use bancuh_dns.Tasks.{
  Tasks, Event, bind, acme, challenge, main, spawn_failed, exited, stream_ended, bind_failed,
  signalled, cannot_listen, selecting, step, Run, start, next, spawned_tasks, update_ended,
}

-- A signal or a failure to listen for one, BIND that cannot start or exits, ACME that ends, or the challenge server that cannot bind.
abbrev pub is_cause : Event → Bool
is_cause (main signalled) = true
is_cause (main cannot_listen) = true
is_cause (bind spawn_failed) = true
is_cause (bind exited) = true
is_cause (acme stream_ended) = true
is_cause (challenge bind_failed) = true
is_cause _ = false

abbrev pub has_cause : List Event → Bool
has_cause [] = false
has_cause (e ∷ es) = is_cause e || has_cause es

-- The program runs on.
pub record IsCalm (s : Tasks) : Type 0 where
  pub not_cancelled : s.cancelled ≡ false
  pub serves : s.main ≡ selecting
  pub updates : update_ended s.update ≡ false

step-IsCalm :
    (e : Event) (s u : Tasks) → is_cause e ≡ false → step e s ≡ some u → IsCalm s → IsCalm u
unfolding step
step-IsCalm e s u quiet h c = ground arith

spawned_tasks-IsCalm : (runs_bind tls_enabled : Bool) → IsCalm (spawned_tasks runs_bind tls_enabled)
unfolding spawned_tasks
spawned_tasks-IsCalm runs_bind tls_enabled = record {
  not_cancelled = refl;
  serves = refl;
  updates = refl;
}

Run-IsCalm :
    {s u : Tasks} {es : List Event} → IsCalm s → Run s es u → has_cause es ≡ false → IsCalm u
Run-IsCalm c start h = c
Run-IsCalm c (next {es} {t} {u} e r moves) h = elim (Bool-cases (is_cause e)) [
  | inl q ↦ cc (rw q at h)
  | inr q ↦ step-IsCalm e t u q moves (Run-IsCalm c r (rw q at h))
]

-- The program stops serving, or cancels its tasks, only after a signal, a failure to listen for signals,
-- a BIND that does not start or that exits, an ACME stream that ends, or a challenge server that cannot
-- bind; nothing that happens to the updates or to the admin server ends it.
pub stops_only_by_cause :
    (runs_bind tls_enabled : Bool) {es : List Event} {s : Tasks}
    → Run (spawned_tasks runs_bind tls_enabled) es s
    → (s.cancelled ≡ true) ⊎ (s.main ≢ selecting)
    → has_cause es ≡ true
stops_only_by_cause runs_bind tls_enabled {es} {s} r stops = elim (Bool-cases (has_cause es)) [
  | inl q ↦ q
  | inr q ↦
      let calm = Run-IsCalm (spawned_tasks-IsCalm runs_bind tls_enabled) r q in
      elim stops [ inl gone ↦ cc (gone, calm.not_cancelled) | inr left ↦ absurd (left calm.serves) ]
]
