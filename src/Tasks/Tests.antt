-- ===== src/Tasks/Tests.antt =====
-- Runs of the tasks: a signal without BIND and TLS, and a BIND that exits.
use bancuh_dns.Prelude.{◌≤◌, ◌+◌, ◌≡◌, refl, true, false, List, [], ◌∷◌, length, inl, ◌⊎◌}
use bancuh_dns.Tasks.{
  Tasks, Event, UpdateEvent, UpdatePc, PairEvent, MainEvent, MainPc, Run, start, next, step,
  spawned_tasks,
}
use bancuh_dns.Tasks.Calm.{has_cause, stops_only_by_cause}
use bancuh_dns.Tasks.Shutdown.{IsOver, past_join-IsOver}
use bancuh_dns.Tasks.Progress.{cancelled_returns, cancelled_ends, Nearer}
use bancuh_dns.Tasks.Left.{left}

abbrev signal : List Event
signal = Event.main MainEvent.cancels ∷ Event.main MainEvent.signalled ∷ []

signal_cancels :
    Run
      (spawned_tasks false false)
      signal
      (record (spawned_tasks false false) { main = MainPc.joining; cancelled = true })
unfolding step spawned_tasks
signal_cancels = next _ (next _ start refl) refl

stops_only_by_cause_example : has_cause signal ≡ true
stops_only_by_cause_example = stops_only_by_cause false false signal_cancels (inl refl)

-- Everything that follows the signal, latest first.
abbrev shutdown : List Event
shutdown =
    Event.main MainEvent.stopped
    ∷ Event.main MainEvent.joined
    ∷ Event.admin
    ∷ Event.admin
    ∷ Event.admin_http PairEvent.joined
    ∷ Event.admin_http PairEvent.v4_drained
    ∷ Event.admin_http PairEvent.v6_failed
    ∷ Event.admin_http PairEvent.bound
    ∷ Event.admin_http PairEvent.bound
    ∷ Event.update UpdateEvent.saw_cancel
    ∷ Event.update UpdateEvent.updated
    ∷ signal

record Finished : Type 0 where
  state : Tasks
  run : Run (spawned_tasks false false) shutdown state
  over : state.main ≡ MainPc.returned

finished : Finished
unfolding step spawned_tasks
finished = record {
  state = _;
  run =
      next _
        (next _
          (next _
            (next _
              (next _
                (next _
                  (next _ (next _ (next _ (next _ (next _ signal_cancels refl) refl) refl) refl)
                    refl)
                  refl)
                refl)
              refl)
            refl)
          refl)
        refl;
  over = refl;
}

past_join-IsOver_example : IsOver finished.state
past_join-IsOver_example = past_join-IsOver false false finished.run (rw finished.over refl)

cancelled_returns_example :
    (es : List Event) × (u : Tasks) × Run (spawned_tasks false false) es u
    × (u.main ≡ MainPc.returned)
    × (length es ≤ 26)
cancelled_returns_example = cancelled_returns signal_cancels refl

-- From the cancelled state on: an update that was going on ends, and sees the token.
abbrev cancelled : Tasks
cancelled = record (spawned_tasks false false) { main = MainPc.joining; cancelled = true }

abbrev two_more : List Event
two_more = Event.update UpdateEvent.saw_cancel ∷ Event.update UpdateEvent.updated ∷ []

abbrev waiting : Tasks
waiting = record cancelled { update = UpdatePc.ended }

two_steps : Run cancelled two_more waiting
unfolding step spawned_tasks
two_steps = next _ (next _ start refl) refl

cancelled_ends_example :
    (waiting.cancelled ≡ true)
    × (2 + left waiting ≤ 24)
    × ((waiting.main ≡ MainPc.returned) ⊎ Nearer waiting)
cancelled_ends_example = cancelled_ends two_steps refl
