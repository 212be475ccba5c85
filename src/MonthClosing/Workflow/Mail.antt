-- ===== src/MonthClosing/Workflow/Mail.antt =====
-- What one call of `perform` does to the message that may have gone out.
use zdrovena_reconciliation.Prelude.{
  ℕ, ◌+◌, ◌≤◌, ◌≡◌, ◌⊎◌, refl, String, Bool, true, false, Option, none, some, inl, inr, Bool-cases,
  Option-cases, arith,
}
use zdrovena_reconciliation.Prelude.Result.{Result, ok, err}
use zdrovena_reconciliation.Prelude.Dict.{lookup, insert, lookup-insert_self}
use zdrovena_reconciliation.Sending.{SendAttempt}
use zdrovena_reconciliation.Sending.Once.{outstanding}
use zdrovena_reconciliation.MonthClosing.Run.{
  StepId, Run, read_step, step_name, check, sales, costs, reports, bank, package_step, send,
  new_close_run,
}
use zdrovena_reconciliation.MonthClosing.RunStore.{
  Runs, RunError, Caller, Period, save, bumped, try_claim, claim, claimed_run, or_fresh,
  finish_action, is_active_stale, mark_claimed, moved_on,
}
use zdrovena_reconciliation.MonthClosing.Gates.{recompute_ready}
use zdrovena_reconciliation.MonthClosing.Outside.{
  Ending, Attempt, unbound, begun, Working, Raised, exception, died,
}
use zdrovena_reconciliation.MonthClosing.Stage.{Call, body}
use zdrovena_reconciliation.MonthClosing.Stage.Ends.{
  outstanding_in, is_begun, IsCovered, Ends, IsHonest,
}
use zdrovena_reconciliation.MonthClosing.Stage.Mail.{body-Ends}
use zdrovena_reconciliation.MonthClosing.Workflow.{
  World, finish_run, answered, failed_attempt, failed_run, failure, finish_failed, on_exception,
  conclude_run, conclude_body, claimed_working, perform_claimed, perform, run_error_text,
}

-- a write leaves the runs as they were, or puts the run there
save_cases :
    (now : ℕ) (key : String) (expect_rev : Option ℕ) (run : Run) (runs : Runs)
    → ((save now key expect_rev run runs).1 ≡ runs)
      ⊎ ((save now key expect_rev run runs).1 ≡ insert key (bumped now run) runs)
unfolding save
save_cases now key expect_rev run runs =
    elim (Bool-cases (moved_on (lookup key runs) run expect_rev)) [
      | inl e ↦ inl (rw (e, save))
      | inr e ↦ inr (rw (e, save))
    ]

pub save_covered :
    (bound : ℕ) (sent : ℕ) (now : ℕ) (key : String) (expect_rev : Option ℕ) (run : Run)
    (runs : Runs)
    → sent ≤ bound + outstanding run.email_attempt
    → sent ≤ bound + outstanding_in (lookup key runs)
    → sent ≤ bound + outstanding_in (lookup key (save now key expect_rev run runs).1)
save_covered bound sent now key expect_rev run runs h k =
    elim (save_cases now key expect_rev run runs) [
      | inl e ↦ rw e k
      | inr e ↦ rw e (rw (lookup-insert_self key (bumped now run) runs) h)
    ]

finish_covered :
    (forgiven : ℕ) (call : Call) (ending : Ending) (w : Working)
    → IsCovered forgiven call.period.key w
    → w.sent
      ≤ forgiven + outstanding_in (lookup call.period.key (finish_run call ending w.run w.runs).1)
unfolding finish_action recompute_ready
finish_covered forgiven call ending w c =
    save_covered forgiven w.sent call.caller.now call.period.key (some w.run.rev) _ w.runs c.by_run
      c.by_stored

answered_covered :
    (forgiven : ℕ) (call : Call) (ending : Ending) (w w' : Working)
    → w'.sent ≡ w.sent
    → IsCovered forgiven call.period.key w
    → (answered w' (finish_run call ending w.run w.runs)).1.sent
      ≤ forgiven
        + outstanding_in
            (lookup call.period.key (answered w' (finish_run call ending w.run w.runs)).1.runs)
answered_covered forgiven call ending w w' same c =
    by_outcome (finish_run call ending w.run w.runs)
      (rw same (finish_covered forgiven call ending w c))
  where
    by_outcome :
        (o : Result RunError Run × Runs)
        → w'.sent ≤ forgiven + outstanding_in (lookup call.period.key o.1)
        → (answered w' o).1.sent
          ≤ forgiven + outstanding_in (lookup call.period.key (answered w' o).1.runs)
    by_outcome (ok run, runs) h = h
    by_outcome (err e, runs) h = h

failed_bound :
    (forgiven sent : ℕ) (call : Call) (message : String) (smtp : Bool) (a : Attempt)
    (old : Option SendAttempt)
    → sent ≤ forgiven + outstanding old
    → (smtp ≡ true → is_begun a ≡ true → sent ≤ forgiven)
    → sent ≤ forgiven + outstanding (failed_attempt call smtp message a old)
failed_bound forgiven sent call message true unbound old h k = h
failed_bound forgiven sent call message true Attempt.no_attempt old h k = h
failed_bound forgiven sent call message true (begun x) old h k = let l = k refl refl in omega arith
failed_bound forgiven sent call message false unbound old h k = h
failed_bound forgiven sent call message false Attempt.no_attempt old h k = h
failed_bound forgiven sent call message false (begun x) old h k = h

abbrev pub World-IsCovered : ℕ → String → World → Type 0
World-IsCovered forgiven key world = world.sent ≤ forgiven + outstanding_in (lookup key world.runs)

finish_failed_covered :
    (forgiven : ℕ) (call : Call) (smtp : Bool) (message : String) (w : Working)
    → IsCovered forgiven call.period.key w
    → (smtp ≡ true → is_begun w.attempt ≡ true → w.sent ≤ forgiven)
    → World-IsCovered forgiven call.period.key (finish_failed call smtp message w).1
finish_failed_covered forgiven call smtp message w c h =
    let w' : Working = record w { run = failed_run call smtp message w } in
    answered_covered forgiven call (failure message) w' w refl (record {
      by_run =
          failed_bound forgiven w.sent call message smtp w.attempt w.run.email_attempt c.by_run h;
      by_stored = c.by_stored;
    })

exception_at :
    (forgiven : ℕ) (call : Call) (smtp : Bool) (message : String) (w : Working) (action : StepId)
    (a : Attempt)
    → IsCovered forgiven call.period.key (record w { attempt = a })
    → (smtp ≡ true → is_begun a ≡ true → w.sent ≤ forgiven)
    → World-IsCovered forgiven call.period.key
        (on_exception
          (record call { action = action })
          (exception smtp message)
          (record w { attempt = a })).1
unfolding on_exception
exception_at forgiven call smtp message w check a c h =
    finish_failed_covered forgiven (record call { action = check }) smtp message
      (record w { attempt = a }) c h
exception_at forgiven call smtp message w sales a c h =
    finish_failed_covered forgiven (record call { action = sales }) smtp message
      (record w { attempt = a }) c h
exception_at forgiven call smtp message w costs a c h =
    finish_failed_covered forgiven (record call { action = costs }) smtp message
      (record w { attempt = a }) c h
exception_at forgiven call smtp message w reports a c h =
    finish_failed_covered forgiven (record call { action = reports }) smtp message
      (record w { attempt = a }) c h
exception_at forgiven call smtp message w bank a c h =
    finish_failed_covered forgiven (record call { action = bank }) smtp message
      (record w { attempt = a }) c h
exception_at forgiven call smtp message w package_step a c h =
    finish_failed_covered forgiven (record call { action = package_step }) smtp message
      (record w { attempt = a }) c h
exception_at forgiven call smtp message w send unbound c h = c.by_stored
exception_at forgiven call smtp message w send Attempt.no_attempt c h =
    finish_failed_covered forgiven (record call { action = send }) smtp message
      (record w { attempt = Attempt.no_attempt }) c h
exception_at forgiven call smtp message w send (begun x) c h =
    finish_failed_covered forgiven (record call { action = send }) smtp message
      (record w { attempt = begun x }) c h

on_exception_covered :
    (forgiven : ℕ) (call : Call) (e : Raised) (w : Working)
    → Ends {A = Ending} forgiven call.period.key (err e, w)
    → World-IsCovered forgiven call.period.key (on_exception call e w).1
on_exception_covered forgiven call died w h = unfold on_exception in h
on_exception_covered forgiven call (exception smtp message) w (c, h) =
    exception_at forgiven call smtp message w call.action w.attempt c h

conclude_run_covered :
    (forgiven : ℕ) (call : Call) (ending : Ending) (w : Working)
    → IsCovered forgiven call.period.key w
    → World-IsCovered forgiven call.period.key
        (conclude_run call w (finish_run call ending w.run w.runs)).1
conclude_run_covered forgiven call ending w c =
    by_outcome (finish_run call ending w.run w.runs) (finish_covered forgiven call ending w c)
  where
    by_outcome :
        (o : Result RunError Run × Runs)
        → w.sent ≤ forgiven + outstanding_in (lookup call.period.key o.1)
        → World-IsCovered forgiven call.period.key (conclude_run call w o).1
    by_outcome (ok run, runs) h = h
    by_outcome (err e, runs) h =
        on_exception_covered forgiven call (exception false (run_error_text e))
          (record w { runs = runs }) (record { by_run = c.by_run; by_stored = h }, λ s. cc)

conclude_body_covered :
    (forgiven : ℕ) (call : Call) (o : Result Raised Ending × Working)
    → Ends forgiven call.period.key o
    → World-IsCovered forgiven call.period.key (conclude_body call o).1
conclude_body_covered forgiven call (ok ending, w) h = conclude_run_covered forgiven call ending w h
conclude_body_covered forgiven call (err e, w) h = on_exception_covered forgiven call e w h

-- a claim carries the stored attempt over
abbrev IsCarried : String → Runs → Result RunError Run × Runs → Type 0
IsCarried key runs (err e, runs') = runs' ≡ runs
IsCarried key runs (ok run, runs') =
    (outstanding run.email_attempt ≡ outstanding_in (lookup key runs))
    × (outstanding_in (lookup key runs') ≡ outstanding_in (lookup key runs))

or_fresh_mail :
    (c : Caller) (p : Period) (o : Option Run)
    → outstanding (or_fresh c p o).email_attempt ≡ outstanding_in o
unfolding new_close_run
or_fresh_mail c p none = refl
or_fresh_mail c p (some run) = refl

claim-IsCarried :
    (c : Caller) (p : Period) (step : StepId) (run : Run) (runs : Runs)
    → outstanding run.email_attempt ≡ outstanding_in (lookup p.key runs)
    → IsCarried p.key runs (claim c p step run runs)
unfolding mark_claimed
claim-IsCarried c p step run runs h = elim (Option-cases run.active_action) [
  | inl e ↦ rw (e, claim) (h, rw (lookup-insert_self p.key (claimed_run c step run) runs) h)
  | inr (active, e) ↦ elim (Bool-cases (is_active_stale c.now run)) [
    | inl m ↦
        rw (e, claim)
          (rw (m, claim) (h, rw (lookup-insert_self p.key (claimed_run c step run) runs) h))
    | inr m ↦ rw (e, claim) (rw (m, claim) refl)
  ]
]

try_claim-IsCarried :
    (c : Caller) (p : Period) (action : String) (runs : Runs)
    → IsCarried p.key runs (try_claim c p action runs)
unfolding try_claim
try_claim-IsCarried c p action runs = elim (Option-cases (read_step action)) [
  | inl e ↦ rw (e, try_claim) refl
  | inr (step, e) ↦
      rw (e, try_claim)
        (claim-IsCarried c p step (or_fresh c p (lookup p.key runs)) runs
          (or_fresh_mail c p (lookup p.key runs)))
]

pub perform_covered :
    (forgiven : ℕ) (call : Call) (world : World)
    → IsHonest call.outside
    → World-IsCovered forgiven call.period.key world
    → World-IsCovered forgiven call.period.key (perform call world).1
unfolding perform
perform_covered forgiven call world honest h =
    by_claim (try_claim call.caller call.period (step_name call.action) world.runs)
      (try_claim-IsCarried call.caller call.period (step_name call.action) world.runs)
  where
    by_claim :
        (o : Result RunError Run × Runs)
        → IsCarried call.period.key world.runs o
        → World-IsCovered forgiven call.period.key (perform_claimed call world o).1
    by_claim (err e, runs) k = rw k h
    by_claim (ok run, runs) (r, s) =
        conclude_body_covered forgiven call (body call (claimed_working world run runs)) (
          body-Ends forgiven call honest (claimed_working world run runs) refl
            (record { by_run = rw r h; by_stored = rw s h }))
