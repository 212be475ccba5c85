-- ===== src/MonthClosing/Stage.antt =====
-- zdrovena/month_closing/workflow.py: the `try` body of `_perform`, up to its result.
pub mod Quiet
pub mod Ends
pub mod Mail
use Prim.Native.String.{◌++◌ as str_append}
use zdrovena_reconciliation.Prelude.{
  ℕ, ◌+◌, ◌-◌, String, Bool, true, false, not, ◌&&◌, ◌||◌, ltb, is_some, Option, none, some, List,
  [], ◌∷◌, ◌++◌, map, length, str_eq, if◌then◌else◌,
}
use zdrovena_reconciliation.Prelude.Result.{Result, ok, err}
use zdrovena_reconciliation.Prelude.Dict.{Dict, lookup, insert, update as update_dict}
use zdrovena_reconciliation.Sending.{
  SendAttempt, SendAttemptError, Reason, already_sent, in_progress, ambiguous, begin, confirm, fail,
  resolve, classify, may_send, default_stale_after, State, pending, unknown, is_open, truncate,
  instant, Timestamp,
}
use zdrovena_reconciliation.MonthClosing.Run.{
  StepId, check, sales, costs, reports, bank, package_step, send, StepStatus, RunStatus, Severity,
  blocker, error, warning, Issue, Document, Artifact, Metric, flag, figure, names, vendors,
  Override, Run, Step, Steps, step_of, set_step, step_name, same_step, read_step,
}
use zdrovena_reconciliation.MonthClosing.RunStore.{
  Runs, RunError, Caller, Period, get_or_create, save, try_claim, finish_action,
}
use zdrovena_reconciliation.MonthClosing.Gates.{
  Refusal, check_first, missing_steps, blocked_package, package_first, blocked_send, unconfirmed,
  unexplained_warnings, validate_action, next_status, recompute_ready, is_ready, is_done, take_last,
  drop,
}
use zdrovena_reconciliation.MonthClosing.Package.{Mismatch, PackageIntegrityError}
use zdrovena_reconciliation.Prelude.Text.{contains, starts_with, join_comma, sorted}
use zdrovena_reconciliation.MonthClosing.Outside.{
  Inspection, Report, Outside, Order, Ending, Attempt, unbound, no_attempt, begun, Working, Action,
  ◌>>=◌, ◌>>◌, pure, raising, edit, Raised, exception, died,
}
use zdrovena_reconciliation.MonthClosing.Reports.{
  not_of_stage, of_stage, refusal_text, reason_text, find_package, apply_known_email_sources,
  apply_report, stage_result,
}

abbrev pub new_issue : StepId → String → Severity → String → Issue
new_issue action suffix severity message = record {
  id = str_append (step_name action) suffix;
  severity = severity;
  message = message;
  stage = action;
}

abbrev pub with_issue : StepId → String → Severity → String → Run → Run
with_issue action suffix severity message run = record run {
  issues = not_of_stage action run.issues ++ new_issue action suffix severity message ∷ [];
}

abbrev pub is_collection : StepId → Bool
is_collection sales = true
is_collection costs = true
is_collection reports = true
is_collection bank = true
is_collection _ = false

abbrev pub should_refresh : StepId → Order → Run → Bool
should_refresh package_step order run = true
should_refresh send order run = order.confirm && is_done run.steps.package_step.status
should_refresh _ order run = false

-- the inspection's documents and issues, its metrics over the old ones
abbrev inspected : Inspection → Run → Run
inspected i run = record run {
  documents = i.documents;
  issues = i.issues;
  metrics = update_dict run.metrics i.metrics;
}

abbrev replaced : Inspection → Run → Run
replaced i run = record run { documents = i.documents; issues = i.issues; metrics = i.metrics }

-- the call: its period, its action, its arguments and the world outside
pub record Call : Type 0 where
  pub caller : Caller
  pub period : Period
  pub action : StepId
  pub order : Order
  pub outside : Outside

unfoldable pub refresh_inputs : Call → Action (Unit {0})
unfolding apply_known_email_sources
refresh_inputs call w =
    if should_refresh call.action call.order w.run
    then (do
      i ← raising call.outside.inspect
      edit (λ run. apply_known_email_sources call.outside.casefold (inspected i run)))
        w
    else (ok tt, w)

abbrev sendable : Call → Run → Option String
sendable call run = elim (call.outside.verify (find_package run.artifacts)) [
  | some mismatch ↦ some (call.outside.mismatch_text mismatch)
  | none ↦
      if (may_send call.caller.now default_stale_after run.email_attempt).0
      then none
      else some (reason_text (may_send call.caller.now default_stale_after run.email_attempt).1)
]

-- why the action may not start, if there is a reason
unfoldable pub prerequisite_error : Call → Run → Option String
unfolding validate_action refusal_text find_package
prerequisite_error call run =
    elim (validate_action run call.action call.order.confirm call.order.override_reason) [
      | some refusal ↦ some (refusal_text refusal)
      | none ↦ elim call.action [ send ↦ sendable call run | _ ↦ none ]
    ]

abbrev package_reference : Run → String
package_reference run = elim (find_package run.artifacts) [
  | none ↦ ""
  | some artifact ↦ elim artifact.sha256 [
    | some hash ↦ hash
    | none ↦ elim artifact.key [ some key ↦ key | none ↦ "" ]
  ]
]

-- the attempt is stored before the mail server is reached; this `save` expects no revision
abbrev pub attempt_of : Call → Run → SendAttempt
attempt_of call run = begin call.caller.uuid (package_reference run) call.caller.now

abbrev saved_attempt : Call → Working → Result RunError Run × Runs
saved_attempt call w =
    save call.caller.now call.period.key none
      (record w.run { email_attempt = some (attempt_of call w.run) }) w.runs

begin_send : Call → Working → Working
unfolding begin
begin_send call w = record w {
  run = record w.run {
    email_attempt = some (attempt_of call w.run);
    rev = w.run.rev + 1;
    updated_at = instant call.caller.now;
  };
  runs = (saved_attempt call w).1;
  attempt = begun (attempt_of call w.run);
}

unfoldable pub begin_attempt : Call → Action (Unit {0})
unfolding begin_send
begin_attempt call w = elim call.action [
  | send ↦ (ok tt, begin_send call w)
  | _ ↦ (ok tt, record w { attempt = no_attempt })
]

abbrev accepted_mails : Call → ℕ
accepted_mails call = elim call.action [ send ↦ if call.outside.accepted then 1 else 0 | _ ↦ 0 ]

execute_stage : Call → Action Report
execute_stage call w =
    (call.outside.execute_stage, record w { sent = w.sent + accepted_mails call })

abbrev costs_sources : (String → String) → StepId → Run → Run
costs_sources casefold costs run = apply_known_email_sources casefold run
costs_sources casefold _ run = run

collect_again : Call → Action (Unit {0})
unfolding of_stage apply_known_email_sources
collect_again call w =
    if is_collection call.action
    then (do
      let action_issues = of_stage call.action w.run.issues
      i ← raising call.outside.inspect_again
      edit (λ run. record (inspected i run) { issues = i.issues ++ action_issues })
      edit (costs_sources call.outside.casefold call.action))
        w
    else (ok tt, w)

abbrev overridden : Call → Run → Run
overridden call run = elim call.order.override_reason [
  | none ↦ run
  | some reason ↦ if str_eq reason "" then run else record run {
    overrides =
        run.overrides
        ++ (record { action = call.action; reason = reason; user = call.caller.user }) ∷ [];
  }
]

-- `confirm(attempt)`; an attempt that has just begun is pending, so nothing is raised
abbrev confirmed_attempt : ℕ → Attempt → Option SendAttempt → Option SendAttempt
confirmed_attempt now (begun attempt) old = elim (confirm now none attempt) [
  | ok a ↦ some a
  | err e ↦ old
]
confirmed_attempt now _ old = old

pub confirm_send : Call → Action (Unit {0})
unfolding confirm
confirm_send call w = elim call.action [
  | send ↦ (
    call.outside.append_history,
    record w {
      run = record w.run {
        email_attempt = confirmed_attempt call.caller.now w.attempt w.run.email_attempt;
      };
    },
  )
  | _ ↦ (ok tt, w)
]

ended : Call → String → Action Ending
unfolding next_status
ended call message w =
    (ok (record { success = true; message = message; status = next_status w.run call.action }), w)

succeed : Call → String → Action Ending
unfolding collect_again confirm_send ended
succeed call message =
    collect_again call >> (edit (overridden call) >> (confirm_send call >> ended call message))

abbrev conclude : Call → Bool × String → Action Ending
conclude call (true, message) = succeed call message
conclude call (false, message) =
    pure (record { success = false; message = message; status = RunStatus.needs_input })

abbrev after_report : Call → Report → Action Ending
after_report call report =
    edit (apply_report call.outside call.action report)
    >> conclude call (stage_result call.outside.show call.action report)

unfoldable pub staged : Call → Action Ending
unfolding execute_stage apply_report stage_result succeed
staged call = execute_stage call >>= after_report call

unfoldable pub run_stage : Call → Action Ending
unfolding begin_attempt staged
run_stage call = begin_attempt call >> staged call

abbrev pub start_or_block : Call → Option String → Action Ending
start_or_block call none = run_stage call
start_or_block call (some reason) = do
  edit (with_issue call.action "-blocked" blocker reason)
  pure (record { success = false; message = reason; status = RunStatus.needs_input })

pub inspect_only : Call → Action Ending
inspect_only call = do
  i ← raising call.outside.inspect
  edit (replaced i)
  λ w. (
    ok (record {
      success = true;
      message = "Kontrola zakończona.";
      status = if is_ready w.run then RunStatus.ready else RunStatus.needs_input;
    }),
    w,
  )

-- the `try` body up to `_finish`
unfoldable pub body : Call → Action Ending
unfolding inspect_only refresh_inputs prerequisite_error run_stage
body call = elim call.action [
  | check ↦ inspect_only call
  | _ ↦ do refresh_inputs call; λ w. start_or_block call (prerequisite_error call w.run) w
]
