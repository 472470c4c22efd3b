-- ===== src/Tasks/Shutdown.antt =====
-- The order of the end: `main` returns after everything else.
use bancuh_dns.Prelude.{◌≡◌, refl, subst, Bool, true, false, some, List, arith, ◌⊎◌, inl, inr}
use bancuh_dns.Tasks.{
  Tasks, Event, selecting, leaving, stopping, returned, MainPc, step, Run, start, next,
  spawned_tasks, all_ended, pair_ended, https_ended, UpdatePc, BindPc, AcmePc, AdminPc, PairPc,
  HttpsPc, MainEvent,
}

-- Past `tracker.wait().await`.
abbrev pub is_past_join : MainPc → Bool
is_past_join stopping = true
is_past_join returned = true
is_past_join _ = false

abbrev pub is_past_cancel : MainPc → Bool
is_past_cancel selecting = false
is_past_cancel leaving = false
is_past_cancel _ = true

-- What `serve` has awaited is over.
abbrev Awaited : AdminPc → PairPc → HttpsPc → Type 0
Awaited AdminPc.awaiting_http http https = Unit
Awaited AdminPc.awaiting_https http https = pair_ended http ≡ true
Awaited AdminPc.ended http https = (pair_ended http ≡ true) × (https_ended https ≡ true)

pub record IsOrderly (s : Tasks) : Type 0 where
  pub awaited : Awaited s.admin s.admin_http s.admin_https
  pub joined : is_past_join s.main ≡ true → all_ended s ≡ true
  pub cancels : is_past_cancel s.main ≡ true → s.cancelled ≡ true

step-Awaited :
    (e : Event) (s u : Tasks)
    → step e s ≡ some u
    → Awaited s.admin s.admin_http s.admin_https
    → Awaited u.admin u.admin_http u.admin_https
unfolding step
step-Awaited (Event.update e) s u h o = ground arith
step-Awaited (Event.bind e) s u h o = ground arith
step-Awaited (Event.acme e) s u h o = ground arith
step-Awaited (Event.challenge e) s u h o = ground arith
step-Awaited (Event.admin_http e) s u h o = ground arith
step-Awaited (Event.admin_https e) s u h o = ground arith
step-Awaited Event.admin s u h o = ground arith
step-Awaited (Event.main e) s u h o = ground arith

step_cancels :
    (e : Event) (s u : Tasks)
    → step e s ≡ some u
    → (is_past_cancel s.main ≡ true → s.cancelled ≡ true)
    → is_past_cancel u.main ≡ true
    → u.cancelled ≡ true
unfolding step
step_cancels e s u h o past = ground arith

-- Every task of the tracker has ended.
record AllEnded (s : Tasks) : Type 0 where
  update_over : s.update ≡ UpdatePc.ended
  bind_over : s.bind ≡ BindPc.ended
  acme_over : s.acme ≡ AcmePc.ended
  challenge_over : s.challenge ≡ PairPc.ended
  admin_over : s.admin ≡ AdminPc.ended

all_ended_sound : (s : Tasks) → all_ended s ≡ true → AllEnded s
all_ended_sound s h = ground arith

all_ended_complete : (s : Tasks) → AllEnded s → all_ended s ≡ true
all_ended_complete s h =
    rw (h.update_over, h.bind_over, h.acme_over, h.challenge_over, h.admin_over) refl

step-AllEnded : (e : Event) (s u : Tasks) → step e s ≡ some u → AllEnded s → AllEnded u
unfolding step
step-AllEnded (Event.update e) s u h o = ground arith
step-AllEnded (Event.bind e) s u h o = ground arith
step-AllEnded (Event.acme e) s u h o = ground arith
step-AllEnded (Event.challenge e) s u h o = ground arith
step-AllEnded (Event.admin_http e) s u h o = ground arith
step-AllEnded (Event.admin_https e) s u h o = ground arith
step-AllEnded Event.admin s u h o = ground arith
step-AllEnded (Event.main e) s u h o = ground arith

-- `main` comes past the join only from where all tasks have ended.
step_past_join :
    (e : Event) (s u : Tasks)
    → step e s ≡ some u
    → is_past_join u.main ≡ true
    → (is_past_join s.main ≡ true) ⊎ ((all_ended s ≡ true) × (e ≡ Event.main MainEvent.joined))
unfolding step
step_past_join e s u h past = ground arith

step-IsOrderly : (e : Event) (s u : Tasks) → step e s ≡ some u → IsOrderly s → IsOrderly u
step-IsOrderly e s u h o = record {
  awaited = step-Awaited e s u h o.awaited;
  cancels = step_cancels e s u h o.cancels;
  joined = λ past. all_ended_complete u (
      step-AllEnded e s u h (
        all_ended_sound s
          (elim (step_past_join e s u h past) [ inl before ↦ o.joined before | inr now ↦ now.0 ])));
}

spawned_tasks-IsOrderly :
    (runs_bind tls_enabled : Bool) → IsOrderly (spawned_tasks runs_bind tls_enabled)
unfolding spawned_tasks
spawned_tasks-IsOrderly runs_bind tls_enabled = record {
  awaited = tt;
  joined = λ p. cc;
  cancels = λ p. cc;
}

Run-IsOrderly : {s u : Tasks} {es : List Event} → IsOrderly s → Run s es u → IsOrderly u
Run-IsOrderly o start = o
Run-IsOrderly o (next {es} {t} {u} e r moves) = step-IsOrderly e t u moves (Run-IsOrderly o r)

-- Everything that the program has started is over, the servers of the admin page too.
pub record IsOver (s : Tasks) : Type 0 where
  pub cancelled : s.cancelled ≡ true
  pub update_over : s.update ≡ UpdatePc.ended
  pub bind_over : s.bind ≡ BindPc.ended
  pub acme_over : s.acme ≡ AcmePc.ended
  pub challenge_over : s.challenge ≡ PairPc.ended
  pub admin_over : s.admin ≡ AdminPc.ended
  pub http_over : pair_ended s.admin_http ≡ true
  pub https_over : https_ended s.admin_https ≡ true

-- In every run, once `main` is past the wait for its tasks, to stop the DNS server and to return, the
-- token is cancelled and every task is over.
pub past_join-IsOver :
    (runs_bind tls_enabled : Bool) {es : List Event} {s : Tasks}
    → Run (spawned_tasks runs_bind tls_enabled) es s
    → is_past_join s.main ≡ true
    → IsOver s
past_join-IsOver runs_bind tls_enabled {s} r past =
    let o = Run-IsOrderly (spawned_tasks-IsOrderly runs_bind tls_enabled) r in
    let over = all_ended_sound s (o.joined past) in
    let awaited = subst (λ a. Awaited a s.admin_http s.admin_https) over.admin_over o.awaited in
    record {
      cancelled = o.cancels (after_cancel s.main past);
      update_over = over.update_over;
      bind_over = over.bind_over;
      acme_over = over.acme_over;
      challenge_over = over.challenge_over;
      admin_over = over.admin_over;
      http_over = awaited.0;
      https_over = awaited.1;
    }
  where
    after_cancel : (m : MainPc) → is_past_join m ≡ true → is_past_cancel m ≡ true
    after_cancel m h = ground arith
