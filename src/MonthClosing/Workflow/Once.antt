-- ===== src/MonthClosing/Workflow/Once.antt =====
-- The promise of the month's closing: the accountant gets one message, unless an operator has recorded
-- that the one before did not arrive.
use zdrovena_reconciliation.Prelude.{
  ℕ, zero, suc, ◌+◌, ◌≤◌, ◌≡◌, refl, sym, ap, ◌∙◌, String, Bool, true, false, Option, none, some,
  List, [], ◌∷◌, All, if◌then◌else◌, inl, inr, Bool-cases, Option-cases, arith,
}
use zdrovena_reconciliation.Prelude.Result.{Result, ok, err, Result-cases}
use zdrovena_reconciliation.Prelude.Dict.{lookup, lookup-insert_self}
use zdrovena_reconciliation.Sending.{SendAttempt, resolve, classify, default_stale_after}
use zdrovena_reconciliation.Sending.Once.{outstanding, outstanding_le}
use zdrovena_reconciliation.MonthClosing.Run.{Run, Target, new_close_run}
use zdrovena_reconciliation.MonthClosing.RunStore.{
  Runs, RunError, Caller, Period, save, bumped, get_or_create, reset, update, update_retries,
  is_active_stale, abandoned, fresh_run,
}
use zdrovena_reconciliation.MonthClosing.Gates.{
  waiver_stage, granted, sync_waiver_status, recompute_ready, grant_waiver, revoke_waiver, waive,
  unwaive,
}
use zdrovena_reconciliation.MonthClosing.Stage.{Call}
use zdrovena_reconciliation.MonthClosing.Stage.Ends.{outstanding_in, IsHonest}
use zdrovena_reconciliation.MonthClosing.Workflow.{
  World, perform, ResolutionError, is_unresolved, delivered_run, resolve_attempt,
  resolve_email_attempt,
}
use zdrovena_reconciliation.MonthClosing.Workflow.Mail.{
  save_covered, perform_covered, World-IsCovered,
}

-- What happens to one period: an action is performed, the run is opened or reset, an operator settles an
-- attempt, grants a waiver or takes one back. Each is done before the next begins, or dies.
pub data Happening : Type 0 where
  performs : Call → Happening
  opens resets : Caller → Happening
  settles : Caller → Bool → String → Happening
  waives unwaives : Caller → Target → Happening

-- the world, and how many messages an operator has recorded as not delivered, or a reset has forgotten
pub record Log : Type 0 where
  pub world : World
  pub excused : ℕ

abbrev at_period : Period → Call → Call
at_period p call = record call { period = p }

abbrev with_runs : Log → Runs → Log
with_runs log runs = record log { world = record log.world { runs = runs } }

abbrev nobody : ℕ → Runs → Runs
nobody n runs = runs

abbrev settled : Bool → Log → Result ResolutionError Run × Runs → Log
settled delivered log (err e, runs) = with_runs log runs
settled delivered log (ok run, runs) = record (with_runs log runs) {
  excused = log.excused + (if delivered then 0 else 1);
}

unfoldable pub happen : Period → Log → Happening → Log
unfolding perform get_or_create reset resolve_email_attempt waive unwaive
happen p log (performs call) = record log { world = (perform (at_period p call) log.world).1 }
happen p log (opens c) = with_runs log (get_or_create c p log.world.runs).1
happen p log (resets c) = record (with_runs log (reset c p log.world.runs).1) {
  excused = log.excused + outstanding_in (lookup p.key log.world.runs);
}
happen p log (settles c delivered note) =
    settled delivered log (resolve_email_attempt c p delivered note log.world.runs)
happen p log (waives c target) = with_runs log (waive c p nobody target log.world.runs).1
happen p log (unwaives c target) = with_runs log (unwaive c p nobody target log.world.runs).1

unfoldable pub history : Period → Log → List Happening → Log
unfolding happen
history p log [] = log
history p log (h ∷ hs) = history p (happen p log h) hs

abbrev pub IsTruthful : Happening → Type 0
IsTruthful (performs call) = IsHonest call.outside
IsTruthful _ = Unit

abbrev pub empty_log : Log
empty_log = record { world = record { runs = []; sent = 0 }; excused = 0 }

outstanding_in_le : (o : Option Run) → outstanding_in o ≤ 1
outstanding_in_le none = omega arith
outstanding_in_le (some run) = outstanding_le run.email_attempt

abandoned_mail : (run : Run) → (abandoned run).email_attempt ≡ run.email_attempt
abandoned_mail run = ground arith

opened_mail :
    (c : Caller) (p : Period) (runs : Runs)
    → (outstanding_in (lookup p.key (get_or_create c p runs).1)
        ≡ outstanding_in (lookup p.key runs))
      × (outstanding (get_or_create c p runs).0.email_attempt ≡ outstanding_in (lookup p.key runs))
unfolding get_or_create new_close_run
opened_mail c p runs = elim (Option-cases (lookup p.key runs)) [
  | inl e ↦
      rw (e, get_or_create)
        (rw (lookup-insert_self p.key (bumped c.now (fresh_run c p)) runs), refl)
  | inr (existing, e) ↦ elim (Bool-cases (is_active_stale c.now existing)) [
    | inl m ↦
        let kept : outstanding (abandoned existing).email_attempt
            ≡ outstanding existing.email_attempt =
          ap outstanding (abandoned_mail existing) in
        rw (e, get_or_create)
          (rw (m, get_or_create)
            (rw (lookup-insert_self p.key (bumped c.now (abandoned existing)) runs) kept, kept))
    | inr m ↦ rw (e, get_or_create) (rw (m, get_or_create) (rw e, refl))
  ]
]

grant_mail :
    (c : Caller) (t : Target) (run edited : Run)
    → grant_waiver c t run ≡ ok edited
    → edited.email_attempt ≡ run.email_attempt
unfolding grant_waiver sync_waiver_status recompute_ready
grant_mail c t run edited h = elim (Option-cases run.active_action) [
  | inr (active, e) ↦ let f = rw (e, grant_waiver) at h in cc
  | inl e ↦ elim (Result-cases (waiver_stage run t)) [
    | inl (x, q) ↦ let f = rw (q, grant_waiver) at (rw (e, grant_waiver) at h) in cc
    | inr (stage, q) ↦
        let f = rw (q, grant_waiver) at (rw (e, grant_waiver) at h) in
        let kept : (granted c t stage run).email_attempt ≡ run.email_attempt = ground arith in
        sym (ap result_mail f) ∙ kept
  ]
]
  where
    result_mail : Result RunError Run → Option SendAttempt
    result_mail (ok r) = r.email_attempt
    result_mail (err e) = none

revoke_mail :
    (t : Target) (run edited : Run)
    → revoke_waiver t run ≡ ok edited
    → edited.email_attempt ≡ run.email_attempt
unfolding revoke_waiver sync_waiver_status recompute_ready
revoke_mail t run edited h = ground arith

update_covered :
    (c : Caller) (p : Period) (mutate : Run → Result RunError Run)
    → ((run edited : Run) → mutate run ≡ ok edited → edited.email_attempt ≡ run.email_attempt)
    → (retries bound sent : ℕ) (runs : Runs) → sent ≤ bound + outstanding_in (lookup p.key runs)
    → sent ≤ bound + outstanding_in (lookup p.key (update c p nobody mutate retries runs).1)
unfolding update
update_covered c p mutate keeps zero bound sent runs h = h
update_covered c p mutate keeps (suc retries) bound sent runs h =
    let run = (get_or_create c p runs).0 in
    let runs1 = (get_or_create c p runs).1 in
    let (stored_same, run_same) = opened_mail c p runs in
    let h1 : sent ≤ bound + outstanding_in (lookup p.key runs1) = rw stored_same h in
    elim (Result-cases (mutate run)) [
      | inl (e, q) ↦ rw (q, update) h1
      | inr (edited, q) ↦
          let h2 : sent ≤ bound + outstanding edited.email_attempt =
            rw (keeps run edited q) (rw run_same h) in
          let h3 = save_covered bound sent c.now p.key (some run.rev) edited runs1 h2 h1 in
          elim (Result-cases (save c.now p.key (some run.rev) edited runs1).0) [
            | inl (e, s) ↦
                rw (q, update)
                  (rw (s, update)
                    (update_covered c p mutate keeps retries bound sent
                      (save c.now p.key (some run.rev) edited runs1).1 h3))
            | inr (saved, s) ↦ rw (q, update) (rw (s, update) h3)
          ]
    ]

resolve_mail :
    (now : ℕ) (delivered : Bool) (user note : String) (attempt resolved : SendAttempt)
    → resolve now delivered user note attempt ≡ ok resolved
    → outstanding (some resolved) ≡ (if delivered then 1 else 0)
unfolding resolve
resolve_mail now delivered user note attempt resolved h = ground arith

resolved_covered :
    (c : Caller) (p : Period) (delivered : Bool) (run : Run) (resolved : SendAttempt) (log : Log)
    (runs : Runs)
    → outstanding (some resolved) ≡ (if delivered then 1 else 0)
    → log.world.sent ≤ log.excused + outstanding_in (lookup p.key runs)
    → let run' = delivered_run c.now delivered (record run { email_attempt = some resolved }) in
      log.world.sent
      ≤ log.excused
        + (if delivered then 0 else 1)
        + outstanding_in (lookup p.key (save c.now p.key none run' runs).1)
unfolding save
resolved_covered c p true run resolved log runs h k =
    let run' = delivered_run c.now true (record run { email_attempt = some resolved }) in
    let l = outstanding_in_le (lookup p.key runs) in
    rw (lookup-insert_self p.key (bumped c.now run') runs) (rw h (omega arith))
resolved_covered c p false run resolved log runs h k =
    let run' = delivered_run c.now false (record run { email_attempt = some resolved }) in
    let l = outstanding_in_le (lookup p.key runs) in
    rw (lookup-insert_self p.key (bumped c.now run') runs) (rw h (omega arith))

attempt_covered :
    (c : Caller) (p : Period) (delivered : Bool) (note : String) (log : Log) (run : Run)
    (runs : Runs) (o : Option SendAttempt)
    → log.world.sent ≤ log.excused + outstanding_in (lookup p.key runs)
    → let log' = settled delivered log (resolve_attempt c p delivered note run runs o) in
      World-IsCovered log'.excused p.key log'.world
attempt_covered c p delivered note log run runs none h = h
attempt_covered c p delivered note log run runs (some attempt) h =
    elim (Bool-cases (is_unresolved (classify c.now default_stale_after (some attempt)))) [
      | inr e ↦ rw (e, resolve_attempt) h
      | inl e ↦ elim (Result-cases (resolve c.now delivered c.user note attempt)) [
        | inl (x, q) ↦ rw (e, resolve_attempt) (rw (q, resolve_attempt) h)
        | inr (resolved, q) ↦
            rw (e, resolve_attempt)
              (rw (q, resolve_attempt)
                (resolved_covered c p delivered run resolved log runs
                  (resolve_mail c.now delivered c.user note attempt resolved q) h))
      ]
    ]

settle_covered :
    (c : Caller) (p : Period) (delivered : Bool) (note : String) (log : Log)
    → World-IsCovered log.excused p.key log.world
    → let log' = settled delivered log (resolve_email_attempt c p delivered note log.world.runs) in
      World-IsCovered log'.excused p.key log'.world
unfolding resolve_email_attempt
settle_covered c p delivered note log h =
    let (stored_same, run_same) = opened_mail c p log.world.runs in
    let run = (get_or_create c p log.world.runs).0 in
    attempt_covered c p delivered note log run (get_or_create c p log.world.runs).1
      run.email_attempt (rw stored_same h)

happen_covered :
    (p : Period) (log : Log) (h : Happening)
    → IsTruthful h
    → World-IsCovered log.excused p.key log.world
    → World-IsCovered (happen p log h).excused p.key (happen p log h).world
unfolding happen waive unwaive reset new_close_run
happen_covered p log (performs call) honest k =
    perform_covered log.excused (at_period p call) log.world honest k
happen_covered p log (opens c) honest k = rw (opened_mail c p log.world.runs).0 k
happen_covered p log (resets c) honest k =
    rw (lookup-insert_self p.key _ log.world.runs) (omega (arith, k))
happen_covered p log (settles c delivered note) honest k = settle_covered c p delivered note log k
happen_covered p log (waives c target) honest k =
    update_covered c p (grant_waiver c target) (grant_mail c target) update_retries log.excused
      log.world.sent log.world.runs k
happen_covered p log (unwaives c target) honest k =
    update_covered c p (revoke_waiver target) (revoke_mail target) update_retries log.excused
      log.world.sent log.world.runs k

history_covered :
    (p : Period) (log : Log) (hs : List Happening)
    → All IsTruthful hs
    → World-IsCovered log.excused p.key log.world
    → World-IsCovered (history p log hs).excused p.key (history p log hs).world
unfolding history
history_covered p log [] a k = k
history_covered p log (h ∷ hs) (honest, a) k =
    history_covered p (happen p log h) hs a (happen_covered p log h honest k)

-- Whatever is performed, opened, reset, settled or waived in a period, one thing after the other, with any
-- inspections, reports, exceptions and deaths of the process, and with any delay between: each message
-- that the mail server accepted is one that an operator recorded as not delivered, or that a reset
-- forgot, or the one whose attempt is stored as pending, unknown or confirmed. So at most one message
-- more goes out than were excused. Assumed of the outside: where the mail server answers with a
-- refusal, it has not accepted the message, and the history raises no such answer.
pub mails_once :
    (p : Period) (hs : List Happening)
    → All IsTruthful hs
    → let log = history p empty_log hs in
      (log.world.sent ≤ log.excused + outstanding_in (lookup p.key log.world.runs))
      × (log.world.sent ≤ log.excused + 1)
mails_once p hs a =
    let log = history p empty_log hs in
    let k = history_covered p empty_log hs a (omega arith) in
    let l = outstanding_in_le (lookup p.key log.world.runs) in (k, omega arith)
