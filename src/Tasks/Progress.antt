-- ===== src/Tasks/Progress.antt =====
-- The end is reached: once the token is cancelled, the tasks come to their end, and `main` returns.
use bancuh_dns.Prelude.{
  ℕ, zero, suc, ◌+◌, ◌≤◌, ◌≡◌, refl, Bool, true, false, some, List, length, arith, ◌⊎◌, inl, inr,
  Bool-cases,
}
use bancuh_dns.Tasks.{
  Tasks, Event, step, Run, start, next, all_ended, update_ended, bind_ended, acme_ended,
  admin_ended, pair_ended, https_ended, AdminPc, UpdatePc, BindPc, AcmePc, PairPc, HttpsPc, MainPc,
  UpdateEvent, BindEvent, AcmeEvent, PairEvent, HttpsEvent, MainEvent,
}
use bancuh_dns.Tasks.Left.{
  update_left, bind_left, acme_left, pair_left, https_left, admin_left, main_left, left, left-le,
  left-run, idles,
}

abbrev is_returned : MainPc → Bool
is_returned MainPc.returned = true
is_returned _ = false

-- A step towards the end.
abbrev pub Nearer : Tasks → Type 0
Nearer s =
    (e : Event) × (u : Tasks) × (step e s ≡ some u) × (u.cancelled ≡ true) × (suc (left u) ≤ left s)

-- The event by which each task comes nearer, and where it comes to.
update_event : UpdatePc → UpdateEvent × UpdatePc
update_event UpdatePc.updating = (UpdateEvent.updated, UpdatePc.sleeping)
update_event _ = (UpdateEvent.saw_cancel, UpdatePc.ended)

bind_event : BindPc → BindEvent × BindPc
bind_event BindPc.starting = (BindEvent.spawned, BindPc.waiting)
bind_event BindPc.waiting = (BindEvent.saw_cancel, BindPc.killing)
bind_event _ = (BindEvent.killed, BindPc.ended)

pair_event : PairPc → PairEvent × PairPc
pair_event PairPc.binding_v4 = (PairEvent.bound, PairPc.binding_v6)
pair_event PairPc.binding_v6 = (PairEvent.bound, PairPc.serving true true)
pair_event (PairPc.serving true v6) = (PairEvent.v4_drained, PairPc.serving false v6)
pair_event (PairPc.serving false true) = (PairEvent.v6_drained, PairPc.serving false false)
pair_event _ = (PairEvent.joined, PairPc.ended)

https_event : HttpsPc → HttpsEvent × HttpsPc
https_event (HttpsPc.serving false) = (HttpsEvent.shut, HttpsPc.serving true)
https_event _ = (HttpsEvent.stopped, HttpsPc.ended)

admin_next : AdminPc → AdminPc
admin_next AdminPc.awaiting_http = AdminPc.awaiting_https
admin_next _ = AdminPc.ended

main_event : MainPc → MainEvent × MainPc
main_event MainPc.selecting = (MainEvent.tasks_ended, MainPc.leaving)
main_event MainPc.leaving = (MainEvent.cancels, MainPc.joining)
main_event MainPc.joining = (MainEvent.joined, MainPc.stopping)
main_event _ = (MainEvent.stopped, MainPc.returned)

Nearer-update : (s : Tasks) → s.cancelled ≡ true → (update_ended s.update ≡ true) ⊎ Nearer s
unfolding step left update_left update_event
Nearer-update s c = elim (Bool-cases (update_ended s.update)) [
  | inl over ↦ inl over
  | inr more ↦
      let (e, p) = update_event s.update in
      inr (Event.update e, record s { update = p }, ground arith, c, ground arith)
]

Nearer-bind : (s : Tasks) → s.cancelled ≡ true → (bind_ended s.bind ≡ true) ⊎ Nearer s
unfolding step left bind_left bind_event
Nearer-bind s c = elim (Bool-cases (bind_ended s.bind)) [
  | inl over ↦ inl over
  | inr more ↦
      let (e, p) = bind_event s.bind in
      inr (Event.bind e, record s { bind = p; cancelled = true }, ground arith, refl, ground arith)
]

Nearer-acme : (s : Tasks) → s.cancelled ≡ true → (acme_ended s.acme ≡ true) ⊎ Nearer s
unfolding step left acme_left
Nearer-acme s c = elim (Bool-cases (acme_ended s.acme)) [
  | inl over ↦ inl over
  | inr more ↦ inr (
    Event.acme AcmeEvent.saw_cancel,
    record s { acme = AcmePc.ended; cancelled = true },
    ground arith,
    refl,
    ground arith,
  )
]

Nearer-challenge : (s : Tasks) → s.cancelled ≡ true → (pair_ended s.challenge ≡ true) ⊎ Nearer s
unfolding step left pair_left pair_event
Nearer-challenge s c = elim (Bool-cases (pair_ended s.challenge)) [
  | inl over ↦ inl over
  | inr more ↦
      let (e, p) = pair_event s.challenge in
      inr (
        Event.challenge e,
        record s { challenge = p; cancelled = true },
        ground arith,
        refl,
        ground arith,
      )
]

Nearer-admin_http : (s : Tasks) → s.cancelled ≡ true → (pair_ended s.admin_http ≡ true) ⊎ Nearer s
unfolding step left pair_left pair_event
Nearer-admin_http s c = elim (Bool-cases (pair_ended s.admin_http)) [
  | inl over ↦ inl over
  | inr more ↦
      let (e, p) = pair_event s.admin_http in
      inr (Event.admin_http e, record s { admin_http = p }, ground arith, c, ground arith)
]

Nearer-admin_https :
    (s : Tasks) → s.cancelled ≡ true → (https_ended s.admin_https ≡ true) ⊎ Nearer s
unfolding step left https_left https_event
Nearer-admin_https s c = elim (Bool-cases (https_ended s.admin_https)) [
  | inl over ↦ inl over
  | inr more ↦
      let (e, p) = https_event s.admin_https in
      inr (Event.admin_https e, record s { admin_https = p }, ground arith, c, ground arith)
]

Nearer-admin :
    (s : Tasks)
    → s.cancelled ≡ true
    → pair_ended s.admin_http ≡ true
    → https_ended s.admin_https ≡ true
    → (admin_ended s.admin ≡ true) ⊎ Nearer s
unfolding step left admin_left admin_next
Nearer-admin s c http https = elim (Bool-cases (admin_ended s.admin)) [
  | inl over ↦ inl over
  | inr more ↦
      inr (Event.admin, record s { admin = admin_next s.admin }, ground arith, c, ground arith)
]

Nearer-main :
    (s : Tasks) → s.cancelled ≡ true → all_ended s ≡ true → (s.main ≡ MainPc.returned) ⊎ Nearer s
unfolding step left main_left main_event
Nearer-main s c over = elim (Bool-cases (is_returned s.main)) [
  | inl done ↦ inl (ground arith)
  | inr more ↦
      let (e, p) = main_event s.main in
      inr (Event.main e, record s { main = p; cancelled = true }, ground arith, refl, ground arith)
]

-- A cancelled state is final or has a step towards the end.
nearer : (s : Tasks) → s.cancelled ≡ true → (s.main ≡ MainPc.returned) ⊎ Nearer s
nearer s c = elim (Nearer-update s c) [
  | inr n ↦ inr n
  | inl update_over ↦ elim (Nearer-bind s c) [
    | inr n ↦ inr n
    | inl bind_over ↦ elim (Nearer-acme s c) [
      | inr n ↦ inr n
      | inl acme_over ↦ elim (Nearer-challenge s c) [
        | inr n ↦ inr n
        | inl challenge_over ↦ elim (Nearer-admin_http s c) [
          | inr n ↦ inr n
          | inl http_over ↦ elim (Nearer-admin_https s c) [
            | inr n ↦ inr n
            | inl https_over ↦ elim (Nearer-admin s c http_over https_over) [
              | inr n ↦ inr n
              | inl admin_over ↦
                  Nearer-main s c
                    (rw (update_over, bind_over, acme_over, challenge_over, admin_over) refl)
            ]
          ]
        ]
      ]
    ]
  ]
]

step-cancelled :
    (e : Event) (s u : Tasks) → step e s ≡ some u → s.cancelled ≡ true → u.cancelled ≡ true
unfolding step
step-cancelled e s u h c = ground arith

Run-cancelled :
    {s t : Tasks} {es : List Event} → Run s es t → s.cancelled ≡ true → t.cancelled ≡ true
Run-cancelled start c = c
Run-cancelled (next {es} {t} {u} e r moves) c = step-cancelled e t u moves (Run-cancelled r c)

finishes_within :
    (fuel : ℕ) {s t : Tasks} {es : List Event}
    → Run s es t
    → t.cancelled ≡ true
    → left t ≤ fuel
    → (es' : List Event) × (u : Tasks) × Run s es' u
      × (u.main ≡ MainPc.returned)
      × (length es' ≤ length es + fuel)
finishes_within zero {s} {t} {es} r c enough = elim (nearer t c) [
  | inl over ↦ (es, t, r, over, omega arith)
  | inr (e, u, moves, c', less) ↦ absurd (omega arith)
]
finishes_within (suc fuel) {s} {t} {es} r c enough = elim (nearer t c) [
  | inl over ↦ (es, t, r, over, omega arith)
  | inr (e, u, moves, c', less) ↦
      let (es', v, whole, over, few) = finishes_within fuel (next e r moves) c' (omega arith) in
      (es', v, whole, over, omega arith)
]

-- Whatever the program did before and in whatever order its tasks go on: once the token is cancelled it
-- stays so, the steps after that are at most 24 beyond those that ACME news and updates that start
-- again account for, and as long as `main` has not returned, some step can be taken that leaves the
-- tasks fewer steps to go.
pub cancelled_ends :
    {s t : Tasks} {es : List Event}
    → Run s es t
    → s.cancelled ≡ true
    → (t.cancelled ≡ true)
      × (length es + left t ≤ 24 + idles es)
      × ((t.main ≡ MainPc.returned) ⊎ Nearer t)
cancelled_ends {s} r c =
    let c' = Run-cancelled r c in (c', omega (arith, left-run r, left-le s), nearer _ c')

-- Whatever the program did before: once the token is cancelled, by a signal or by a task, at most 24
-- further steps bring `main` to its return.
pub cancelled_returns :
    {s t : Tasks} {es : List Event}
    → Run s es t
    → t.cancelled ≡ true
    → (es' : List Event) × (u : Tasks) × Run s es' u
      × (u.main ≡ MainPc.returned)
      × (length es' ≤ length es + 24)
cancelled_returns {t} r c = finishes_within 24 r c (left-le t)
