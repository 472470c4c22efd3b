-- ===== src/Tasks.antt =====
-- The tasks of the program and their end: src/main.rs from its `select!` on, with the tasks that it,
-- src/tls.rs and src/admin.rs spawn. A task is a program counter; `Bool` is whether the token is
-- cancelled. An event is what a task waits for, chosen by the environment; `none` says that the event
-- cannot happen there. A cancel and the return after it are one step.
pub mod Calm
pub mod Shutdown
pub mod Left
pub mod Progress
mod Tests
use bancuh_dns.Prelude.{
  Bool, true, false, ◌&&◌, Option, none, some, List, [], ◌∷◌, map_option, ◌≡◌, if◌then◌else◌,
}

-- The update task of main.rs.
pub data UpdatePc : Type 0 where
  updating sleeping ended : UpdatePc

pub data UpdateEvent : Type 0 where
  updated woke saw_cancel : UpdateEvent

unfoldable pub update_task : UpdateEvent → Bool → UpdatePc → Option UpdatePc
update_task updated cancelled updating = some sleeping
update_task woke cancelled sleeping = some updating
update_task saw_cancel true sleeping = some ended
update_task _ _ _ = none

-- The task of main.rs that runs BIND.
pub data BindPc : Type 0 where
  starting waiting killing ended : BindPc

pub data BindEvent : Type 0 where
  spawned spawn_failed saw_cancel killed exited : BindEvent

unfoldable pub bind_task : BindEvent → Bool → BindPc → Option (BindPc × Bool)
bind_task spawned cancelled starting = some (waiting, cancelled)
bind_task spawn_failed cancelled starting = some (ended, true)
bind_task saw_cancel true waiting = some (killing, true)
bind_task killed cancelled killing = some (ended, cancelled)
bind_task exited cancelled waiting = some (ended, true)
bind_task _ _ _ = none

-- The ACME polling task of tls.rs.
pub data AcmePc : Type 0 where
  polling ended : AcmePc

pub data AcmeEvent : Type 0 where
  progressed stream_ended saw_cancel : AcmeEvent

unfoldable pub acme_task : AcmeEvent → Bool → AcmePc → Option (AcmePc × Bool)
acme_task progressed cancelled polling = some (polling, cancelled)
acme_task stream_ended cancelled polling = some (ended, true)
acme_task saw_cancel true polling = some (ended, true)
acme_task _ _ _ = none

-- A pair of HTTP servers, for IPv4 and IPv6, up or down, after the binding of their sockets.
pub data PairPc : Type 0 where
  binding_v4 binding_v6 ended : PairPc
  serving : Bool → Bool → PairPc

pub data PairEvent : Type 0 where
  bound bind_failed v4_drained v6_drained v4_failed v6_failed joined : PairEvent

-- The HTTP-01 challenge server of tls.rs: a bind that fails cancels the token.
unfoldable pub challenge_task : PairEvent → Bool → PairPc → Option (PairPc × Bool)
challenge_task bound cancelled binding_v4 = some (binding_v6, cancelled)
challenge_task bind_failed cancelled binding_v4 = some (ended, true)
challenge_task bound cancelled binding_v6 = some (serving true true, cancelled)
challenge_task bind_failed cancelled binding_v6 = some (ended, true)
challenge_task v4_drained true (serving true v6) = some (serving false v6, true)
challenge_task v6_drained true (serving v4 true) = some (serving v4 false, true)
challenge_task v4_failed cancelled (serving true v6) = some (serving false v6, cancelled)
challenge_task v6_failed cancelled (serving v4 true) = some (serving v4 false, cancelled)
challenge_task joined cancelled (serving false false) = some (ended, cancelled)
challenge_task _ _ _ = none

-- The HTTP part of `serve` in admin.rs: a bind that fails ends it and leaves the token.
unfoldable pub admin_http_task : PairEvent → Bool → PairPc → Option PairPc
admin_http_task bound cancelled binding_v4 = some binding_v6
admin_http_task bind_failed cancelled binding_v4 = some ended
admin_http_task bound cancelled binding_v6 = some (serving true true)
admin_http_task bind_failed cancelled binding_v6 = some ended
admin_http_task v4_drained true (serving true v6) = some (serving false v6)
admin_http_task v6_drained true (serving v4 true) = some (serving v4 false)
admin_http_task v4_failed cancelled (serving true v6) = some (serving false v6)
admin_http_task v6_failed cancelled (serving v4 true) = some (serving v4 false)
admin_http_task joined cancelled (serving false false) = some ended
admin_http_task _ _ _ = none

-- The HTTPS part of `serve`; `serving true` is after `handle.shutdown()` by the task that waits for
-- the token.
pub data HttpsPc : Type 0 where
  serving : Bool → HttpsPc
  ended : HttpsPc

pub data HttpsEvent : Type 0 where
  shut stopped failed : HttpsEvent

unfoldable pub admin_https_task : HttpsEvent → Bool → HttpsPc → Option HttpsPc
admin_https_task shut true (serving false) = some (serving true)
admin_https_task stopped cancelled (serving true) = some ended
admin_https_task failed cancelled (serving down) = some ended
admin_https_task _ _ _ = none

-- `serve` itself, which awaits the two.
pub data AdminPc : Type 0 where
  awaiting_http awaiting_https ended : AdminPc

abbrev pub pair_ended : PairPc → Bool
pair_ended ended = true
pair_ended _ = false

abbrev pub https_ended : HttpsPc → Bool
https_ended ended = true
https_ended _ = false

unfoldable pub admin_task : PairPc → HttpsPc → AdminPc → Option AdminPc
admin_task http https awaiting_http = if pair_ended http then some awaiting_https else none
admin_task http https awaiting_https = if https_ended https then some ended else none
admin_task http https ended = none

-- `main` from its `select!` on.
pub data MainPc : Type 0 where
  selecting leaving joining stopping returned : MainPc

pub data MainEvent : Type 0 where
  signalled cannot_listen tasks_ended cancels joined stopped : MainEvent

-- The first `Bool` is whether all tasks of the tracker have ended. `sigint()` and `sigterm()` return
-- with a signal, or because they cannot listen for one: either ends the `select!`.
unfoldable pub main_task : MainEvent → Bool → Bool → MainPc → Option (MainPc × Bool)
main_task signalled all_ended cancelled selecting = some (leaving, cancelled)
main_task cannot_listen all_ended cancelled selecting = some (leaving, cancelled)
main_task tasks_ended true cancelled selecting = some (leaving, cancelled)
main_task cancels all_ended cancelled leaving = some (joining, true)
main_task joined true cancelled joining = some (stopping, cancelled)
main_task stopped all_ended cancelled stopping = some (returned, cancelled)
main_task _ _ _ _ = none

pub record Tasks : Type 0 where
  pub cancelled : Bool
  pub update : UpdatePc
  pub bind : BindPc
  pub acme : AcmePc
  pub challenge : PairPc
  pub admin_http : PairPc
  pub admin_https : HttpsPc
  pub admin : AdminPc
  pub main : MainPc

-- What `main` has spawned when it comes to its `select!`: BIND without forwarders, and the tasks of
-- tls.rs and HTTPS with TLS. A task that is not spawned has ended.
unfoldable pub spawned_tasks : (runs_bind tls_enabled : Bool) → Tasks
spawned_tasks runs_bind tls_enabled = record {
  cancelled = false;
  update = updating;
  bind = if runs_bind then starting else ended;
  acme = if tls_enabled then polling else ended;
  challenge = if tls_enabled then binding_v4 else ended;
  admin_http = binding_v4;
  admin_https = if tls_enabled then serving false else ended;
  admin = awaiting_http;
  main = selecting;
}

abbrev pub update_ended : UpdatePc → Bool
update_ended ended = true
update_ended _ = false

abbrev pub bind_ended : BindPc → Bool
bind_ended ended = true
bind_ended _ = false

abbrev pub acme_ended : AcmePc → Bool
acme_ended ended = true
acme_ended _ = false

abbrev pub admin_ended : AdminPc → Bool
admin_ended ended = true
admin_ended _ = false

-- `tracker.wait()` is over.
abbrev pub all_ended : Tasks → Bool
all_ended s =
    update_ended s.update
    && (bind_ended s.bind && (acme_ended s.acme && (pair_ended s.challenge && admin_ended s.admin)))

pub data Event : Type 0 where
  update : UpdateEvent → Event
  bind : BindEvent → Event
  acme : AcmeEvent → Event
  challenge admin_http : PairEvent → Event
  admin_https : HttpsEvent → Event
  admin : Event
  main : MainEvent → Event

-- A step of one task.
unfoldable pub step : Event → Tasks → Option Tasks
unfolding update_task bind_task acme_task challenge_task admin_http_task admin_https_task admin_task
    main_task
step (update e) s = map_option (λ p. record s { update = p }) (update_task e s.cancelled s.update)
step (bind e) s =
    map_option (λ p. record s { bind = p.0; cancelled = p.1 }) (bind_task e s.cancelled s.bind)
step (acme e) s =
    map_option (λ p. record s { acme = p.0; cancelled = p.1 }) (acme_task e s.cancelled s.acme)
step (challenge e) s =
    map_option (λ p. record s { challenge = p.0; cancelled = p.1 })
      (challenge_task e s.cancelled s.challenge)
step (admin_http e) s =
    map_option (λ p. record s { admin_http = p }) (admin_http_task e s.cancelled s.admin_http)
step (admin_https e) s =
    map_option (λ p. record s { admin_https = p }) (admin_https_task e s.cancelled s.admin_https)
step admin s =
    map_option (λ p. record s { admin = p }) (admin_task s.admin_http s.admin_https s.admin)
step (main e) s =
    map_option (λ p. record s { main = p.0; cancelled = p.1 })
      (main_task e (all_ended s) s.cancelled s.main)

-- A run of the tasks in some order of events.
pub data Run (s : Tasks) : List Event → Tasks → Type 0 where
  start : Run s [] s
  next :
      {es : List Event} {t u : Tasks} (e : Event)
      → Run s es t
      → step e t ≡ some u
      → Run s (e ∷ es) u
