-- ===== src/MonthClosing/Workflow.antt =====
-- zdrovena/month_closing/workflow.py: one action of a period is performed, from its claim to its result.
-- The flags that `_decorate` stamps on the answer are derived, and left out.
pub mod Mail
pub mod Once
pub mod Stuck
use Prim.Native.String.{◌++◌ as str_append}
use zdrovena_reconciliation.Prelude.{
  ℕ, ◌+◌, ◌-◌, String, Bool, true, false, not, ◌&&◌, ◌||◌, ltb, is_some, Option, none, some, List,
  [], ◌∷◌, ◌++◌, map, length, str_eq, if◌then◌else◌,
}
use zdrovena_reconciliation.Prelude.Result.{Result, ok, err}
use zdrovena_reconciliation.Prelude.Dict.{Dict, lookup, insert, update as update_dict}
use zdrovena_reconciliation.Sending.{
  SendAttempt, SendAttemptError, Reason, already_sent, in_progress, ambiguous, begin, confirm, fail,
  resolve, classify, may_send, default_stale_after, State, pending, unknown, is_open, truncate,
  instant, Timestamp,
}
use zdrovena_reconciliation.MonthClosing.Run.{
  StepId, check, sales, costs, reports, bank, package_step, send, StepStatus, RunStatus, Severity,
  blocker, error, warning, Issue, Document, Artifact, Metric, flag, figure, names, vendors,
  Override, Run, Step, Steps, step_of, set_step, step_name, same_step, read_step,
}
use zdrovena_reconciliation.MonthClosing.RunStore.{
  Runs, RunError, Caller, Period, get_or_create, save, try_claim, finish_action,
}
use zdrovena_reconciliation.MonthClosing.Gates.{
  Refusal, check_first, missing_steps, blocked_package, package_first, blocked_send, unconfirmed,
  unexplained_warnings, validate_action, next_status, recompute_ready, is_ready, is_done, take_last,
  drop,
}
use zdrovena_reconciliation.MonthClosing.Package.{Mismatch, PackageIntegrityError}
use zdrovena_reconciliation.Prelude.Text.{contains, starts_with, join_comma, sorted}
use zdrovena_reconciliation.MonthClosing.Outside.{
  Inspection, Report, Outside, Order, Ending, Attempt, unbound, no_attempt, begun, Working, Action,
  ◌>>=◌, ◌>>◌, pure, raising, edit, Raised, exception, died,
}
use zdrovena_reconciliation.MonthClosing.Reports.{
  not_of_stage, of_stage, refusal_text, reason_text, find_package, apply_known_email_sources,
  apply_report, stage_result,
}
use zdrovena_reconciliation.MonthClosing.Stage.{Call, new_issue, with_issue, body}

-- the stored runs, and how many messages the mail server has accepted
pub record World : Type 0 where
  pub runs : Runs
  pub sent : ℕ

-- what `perform` raises: an error of the store, the `UnboundLocalError` of a handler that reads `attempt`
-- too early, or nothing, since the process died
pub data PerformError : Type 0 where
  of_store : RunError → PerformError
  unbound_attempt stopped : PerformError

abbrev pub finish_run : Call → Ending → Run → Runs → Result RunError Run × Runs
finish_run call ending run runs =
    finish_action call.caller.now call.period.key call.action ending.success ending.message
      ending.status (recompute_ready run) runs

abbrev answered : Working → Result RunError Run × Runs → Result PerformError Run × World
answered w (ok run, runs) = (ok run, record { runs = runs; sent = w.sent })
answered w (err e, runs) = (err (of_store e), record { runs = runs; sent = w.sent })

-- `fail(attempt, str(exc))` for a refusal by the mail server
abbrev failed_attempt : Call → Bool → String → Attempt → Option SendAttempt → Option SendAttempt
failed_attempt call true message (begun a) old = elim (fail call.caller.now message a) [
  | ok a' ↦ some a'
  | err e ↦ old
]
failed_attempt call _ message _ old = old

abbrev failure : String → Ending
failure message = record { success = false; message = message; status = RunStatus.failed }

abbrev failed_run : Call → Bool → String → Working → Run
failed_run call smtp message w = with_issue call.action "-error" error message (record w.run {
  email_attempt = failed_attempt call smtp message w.attempt w.run.email_attempt;
})

abbrev finish_failed : Call → Bool → String → Working → Result PerformError Run × World
finish_failed call smtp message w =
    answered w (finish_run call (failure message) (failed_run call smtp message w) w.runs)

abbrev world_of : Working → World
world_of w = record { runs = w.runs; sent = w.sent }

-- the `except` branch
unfoldable pub on_exception : Call → Raised → Working → Result PerformError Run × World
unfolding finish_action recompute_ready not_of_stage fail
on_exception call died w = (err stopped, world_of w)
on_exception call (exception smtp message) w = elim call.action [
  | send ↦ elim w.attempt [
    | unbound ↦ (err unbound_attempt, world_of w)
    | _ ↦ finish_failed call smtp message w
  ]
  | _ ↦ finish_failed call smtp message w
]

-- the message of the conflict, without its key and its revisions
abbrev run_error_text : RunError → String
run_error_text e = "Run zmienił się w trakcie zapisu."

-- `_finish` stands in the `try`: a conflict that it raises meets the `except` branch
abbrev conclude_run : Call → Working → Result RunError Run × Runs → Result PerformError Run × World
conclude_run call w (ok run, runs) = (ok run, record { runs = runs; sent = w.sent })
conclude_run call w (err e, runs) =
    on_exception call (exception false (run_error_text e)) (record w { runs = runs })

abbrev conclude_body : Call → Result Raised Ending × Working → Result PerformError Run × World
conclude_body call (err e, w) = on_exception call e w
conclude_body call (ok ending, w) = conclude_run call w (finish_run call ending w.run w.runs)

abbrev claimed_working : World → Run → Runs → Working
claimed_working world run runs = record {
  run = run;
  runs = runs;
  attempt = unbound;
  sent = world.sent;
}

abbrev perform_claimed : Call → World → Result RunError Run × Runs → Result PerformError Run × World
perform_claimed call world (err e, runs) = (err (of_store e), record world { runs = runs })
perform_claimed call world (ok run, runs) =
    conclude_body call (body call (claimed_working world run runs))

unfoldable pub perform : Call → World → Result PerformError Run × World
unfolding try_claim finish_action recompute_ready on_exception body
perform call world =
    perform_claimed call world
      (try_claim call.caller call.period (step_name call.action) world.runs)

-- `EmailAttemptResolutionError`, or an error of the attempt itself
pub data ResolutionError : Type 0 where
  nothing_to_resolve : ResolutionError
  of_attempt : SendAttemptError → ResolutionError

abbrev delivered_run : ℕ → Bool → Run → Run
delivered_run now delivered run =
    if delivered
    then record run {
      steps = record run.steps { send = record run.steps.send { status = StepStatus.done } };
      status = RunStatus.completed;
    }
    else run

abbrev is_unresolved : Option State → Bool
is_unresolved (some state) = is_open state
is_unresolved none = false

abbrev resolve_attempt :
    Caller
    → Period
    → Bool
    → String
    → Run
    → Runs
    → Option SendAttempt
    → Result ResolutionError Run × Runs
resolve_attempt c p delivered note run runs none = (err nothing_to_resolve, runs)
resolve_attempt c p delivered note run runs (some attempt) =
    if is_unresolved (classify c.now default_stale_after (some attempt))
    then elim (resolve c.now delivered c.user note attempt) [
      | err e ↦ (err (of_attempt e), runs)
      | ok resolved ↦
          let run' = delivered_run c.now delivered (record run { email_attempt = some resolved }) in
          (ok run', (save c.now p.key none run' runs).1)
    ]
    else (err nothing_to_resolve, runs)

unfoldable pub resolve_email_attempt :
    Caller → Period → Bool → String → Runs → Result ResolutionError Run × Runs
unfolding get_or_create classify resolve save
resolve_email_attempt c p delivered note runs =
    let (run, runs1) = get_or_create c p runs in
    resolve_attempt c p delivered note run runs1 run.email_attempt
