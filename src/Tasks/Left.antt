-- ===== src/Tasks/Left.antt =====
-- How far the tasks are from their end, and how long a run can be.
use bancuh_dns.Prelude.{
  ℕ, suc, ◌+◌, ◌≤◌, ◌≡◌, Bool, true, false, some, List, [], ◌∷◌, length, arith, if◌then◌else◌,
}
use bancuh_dns.Tasks.{
  Tasks, Event, step, Run, start, next, AdminPc, UpdatePc, BindPc, AcmePc, PairPc, HttpsPc, MainPc,
  UpdateEvent, BindEvent, AcmeEvent, PairEvent, HttpsEvent, MainEvent,
}

-- The steps that a task is away from its end.
unfoldable pub update_left : UpdatePc → ℕ
update_left UpdatePc.updating = 2
update_left UpdatePc.sleeping = 1
update_left UpdatePc.ended = 0

unfoldable pub bind_left : BindPc → ℕ
bind_left BindPc.starting = 3
bind_left BindPc.waiting = 2
bind_left BindPc.killing = 1
bind_left BindPc.ended = 0

unfoldable pub acme_left : AcmePc → ℕ
acme_left AcmePc.polling = 1
acme_left AcmePc.ended = 0

abbrev pub one_if : Bool → ℕ
one_if b = if b then 1 else 0

unfoldable pub pair_left : PairPc → ℕ
pair_left PairPc.binding_v4 = 5
pair_left PairPc.binding_v6 = 4
pair_left (PairPc.serving v4 v6) = 1 + one_if v4 + one_if v6
pair_left PairPc.ended = 0

unfoldable pub https_left : HttpsPc → ℕ
https_left (HttpsPc.serving false) = 2
https_left (HttpsPc.serving true) = 1
https_left HttpsPc.ended = 0

unfoldable pub admin_left : AdminPc → ℕ
admin_left AdminPc.awaiting_http = 2
admin_left AdminPc.awaiting_https = 1
admin_left AdminPc.ended = 0

unfoldable pub main_left : MainPc → ℕ
main_left MainPc.selecting = 4
main_left MainPc.leaving = 3
main_left MainPc.joining = 2
main_left MainPc.stopping = 1
main_left MainPc.returned = 0

unfoldable pub left : Tasks → ℕ
left s =
    update_left s.update
    + bind_left s.bind
    + acme_left s.acme
    + pair_left s.challenge
    + pair_left s.admin_http
    + https_left s.admin_https
    + admin_left s.admin
    + main_left s.main

pub left-le : (s : Tasks) → left s ≤ 24
unfolding left update_left bind_left acme_left pair_left https_left admin_left main_left
left-le s = omega (
  arith,
  update_le s.update,
  bind_le s.bind,
  acme_le s.acme,
  pair_le s.challenge,
  pair_le s.admin_http,
  https_le s.admin_https,
  admin_le s.admin,
  main_le s.main,
)
  where
    update_le : (p : UpdatePc) → update_left p ≤ 2
    update_le p = ground arith

    bind_le : (p : BindPc) → bind_left p ≤ 3
    bind_le p = ground arith

    acme_le : (p : AcmePc) → acme_left p ≤ 1
    acme_le p = ground arith

    pair_le : (p : PairPc) → pair_left p ≤ 5
    pair_le p = ground arith

    https_le : (p : HttpsPc) → https_left p ≤ 2
    https_le p = ground arith

    admin_le : (p : AdminPc) → admin_left p ≤ 2
    admin_le p = ground arith

    main_le : (p : MainPc) → main_left p ≤ 4
    main_le p = ground arith

-- The events that bring the program no nearer to its end: an update that starts again, which undoes
-- one step, and news of ACME.
abbrev pub idle : Event → ℕ
idle (Event.update UpdateEvent.woke) = 2
idle (Event.acme AcmeEvent.progressed) = 1
idle _ = 0

abbrev pub idles : List Event → ℕ
idles [] = 0
idles (e ∷ es) = idle e + idles es

left-step_update :
    (e : UpdateEvent) (s u : Tasks)
    → step (Event.update e) s ≡ some u
    → suc (left u) ≤ left s + idle (Event.update e)
unfolding step left update_left
left-step_update e s u h = ground arith

left-step_bind :
    (e : BindEvent) (s u : Tasks)
    → step (Event.bind e) s ≡ some u
    → suc (left u) ≤ left s + idle (Event.bind e)
unfolding step left bind_left
left-step_bind e s u h = ground arith

left-step_acme :
    (e : AcmeEvent) (s u : Tasks)
    → step (Event.acme e) s ≡ some u
    → suc (left u) ≤ left s + idle (Event.acme e)
unfolding step left acme_left
left-step_acme e s u h = ground arith

left-step_challenge :
    (e : PairEvent) (s u : Tasks)
    → step (Event.challenge e) s ≡ some u
    → suc (left u) ≤ left s + idle (Event.challenge e)
unfolding step left pair_left
left-step_challenge e s u h = ground arith

left-step_admin_http :
    (e : PairEvent) (s u : Tasks)
    → step (Event.admin_http e) s ≡ some u
    → suc (left u) ≤ left s + idle (Event.admin_http e)
unfolding step left pair_left
left-step_admin_http e s u h = ground arith

left-step_admin_https :
    (e : HttpsEvent) (s u : Tasks)
    → step (Event.admin_https e) s ≡ some u
    → suc (left u) ≤ left s + idle (Event.admin_https e)
unfolding step left https_left
left-step_admin_https e s u h = ground arith

left-step_main :
    (e : MainEvent) (s u : Tasks)
    → step (Event.main e) s ≡ some u
    → suc (left u) ≤ left s + idle (Event.main e)
unfolding step left main_left
left-step_main e s u h = ground arith

left-step_admin :
    (s u : Tasks) → step Event.admin s ≡ some u → suc (left u) ≤ left s + idle Event.admin
unfolding step left admin_left
left-step_admin s u h = ground arith

left-step : (e : Event) (s u : Tasks) → step e s ≡ some u → suc (left u) ≤ left s + idle e
left-step (Event.update e) s u h = left-step_update e s u h
left-step (Event.bind e) s u h = left-step_bind e s u h
left-step (Event.acme e) s u h = left-step_acme e s u h
left-step (Event.challenge e) s u h = left-step_challenge e s u h
left-step (Event.admin_http e) s u h = left-step_admin_http e s u h
left-step (Event.admin_https e) s u h = left-step_admin_https e s u h
left-step (Event.main e) s u h = left-step_main e s u h
left-step Event.admin s u h = left-step_admin s u h

pub left-run : {s t : Tasks} {es : List Event} → Run s es t → length es + left t ≤ left s + idles es
left-run start = omega arith
left-run (next {es} {t} {u} e r moves) = omega (arith, left-run r, left-step e t u moves)
