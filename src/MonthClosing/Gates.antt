-- ===== src/MonthClosing/Gates.antt =====
-- zdrovena/month_closing/workflow.py: what an action must wait for, and the waivers that an operator
-- grants.
pub mod Waivers
use zdrovena_reconciliation.Prelude.{
  ℕ, zero, suc, ◌-◌, String, Bool, true, false, not, ◌&&◌, ◌||◌, Option, none, some, List, [], ◌∷◌,
  ◌++◌, length, str_eq, if◌then◌else◌,
}
use zdrovena_reconciliation.Prelude.Text.{strip}
use zdrovena_reconciliation.Prelude.Result.{Result, ok, err}
use zdrovena_reconciliation.Prelude.Dict.{lookup, insert}
use zdrovena_reconciliation.MonthClosing.Run.{
  StepId, check, sales, costs, reports, bank, package_step, send, StepStatus, pending, running,
  done, failed, Step, RunStatus, Severity, blocker, error, warning, info, Issue, Target,
  step_target, issue_target, other_target, no_target, Waiver, Metric, flag, figure, names, vendors,
  Run, step_of, step_name, same_step, read_step,
}
use zdrovena_reconciliation.MonthClosing.RunStore.{
  Runs, RunError, busy, waiver_target, WaiverTargetError, malformed, not_waivable, unknown_issue,
  unknown_kind, Caller, Period, update, update_retries,
}

abbrev pub collection_actions : List StepId
collection_actions = sales ∷ costs ∷ reports ∷ bank ∷ []

-- `WAIVABLE_STEPS`
abbrev pub is_waivable : StepId → Bool
is_waivable package_step = false
is_waivable send = false
is_waivable _ = true

-- `BLOCKING_SEVERITIES`
abbrev pub is_blocking : Severity → Bool
is_blocking blocker = true
is_blocking error = true
is_blocking _ = false

abbrev pub max_waivers : ℕ
max_waivers = 200

unfoldable pub same_target : Target → Target → Bool
same_target (step_target s) (step_target t) = str_eq s t
same_target (issue_target s) (issue_target t) = str_eq s t
same_target (other_target a s) (other_target b t) = str_eq a b && str_eq s t
same_target (no_target s) (no_target t) = str_eq s t
same_target _ _ = false

-- `target in _waived_targets(run)`
unfoldable pub is_waived : Target → List Waiver → Bool
unfolding same_target
is_waived target [] = false
is_waived target (w ∷ ws) = same_target target w.target || is_waived target ws

unfoldable pub active_issues : List Waiver → List Issue → List Issue
unfolding is_waived
active_issues waivers [] = []
active_issues waivers (issue ∷ issues) =
    let rest = active_issues waivers issues in
    if is_waived (issue_target issue.id) waivers then rest else issue ∷ rest

abbrev pub is_done : StepStatus → Bool
is_done done = true
is_done _ = false

unfoldable pub step_satisfied : Run → StepId → Bool
unfolding is_waived
step_satisfied run step =
    is_done (step_of step run.steps).status || is_waived (step_target (step_name step)) run.waivers

abbrev pub any_blocking : List Issue → Bool
any_blocking [] = false
any_blocking (issue ∷ issues) = is_blocking issue.severity || any_blocking issues

abbrev pub any_warning : List Issue → Bool
any_warning [] = false
any_warning (issue ∷ issues) = elim issue.severity [ warning ↦ true | _ ↦ any_warning issues ]

abbrev pub is_ready : Run → Bool
is_ready run = not (any_blocking (active_issues run.waivers run.issues))

unfoldable pub recompute_ready : Run → Run
unfolding active_issues
recompute_ready run = record run { metrics = insert "ready" (flag (is_ready run)) run.metrics }

abbrev pub synced_status : Bool → RunStatus → RunStatus
synced_status true RunStatus.needs_input = RunStatus.ready
synced_status false RunStatus.ready = RunStatus.needs_input
synced_status _ status = status

-- `bool(run["metrics"].get("ready"))` is what `_recompute_ready` has just stored
unfoldable pub sync_waiver_status : Run → Run
unfolding recompute_ready
sync_waiver_status run = record (recompute_ready run) {
  status = synced_status (is_ready run) run.status;
}

unfoldable pub find_issue : String → List Issue → Option Issue
find_issue reference [] = none
find_issue reference (issue ∷ issues) =
    let rest = find_issue reference issues in if str_eq issue.id reference then some issue else rest

abbrev waivable_stage : String → Option StepId → Result RunError StepId
waivable_stage reference none = err (waiver_target (not_waivable reference))
waivable_stage reference (some step) =
    if is_waivable step then ok step else err (waiver_target (not_waivable reference))

unfoldable pub waiver_stage : Run → Target → Result RunError StepId
unfolding read_step find_issue
waiver_stage run (step_target reference) = waivable_stage reference (read_step reference)
waiver_stage run (issue_target reference) = elim (find_issue reference run.issues) [
  | none ↦ err (waiver_target (unknown_issue reference))
  | some issue ↦ ok issue.stage
]
waiver_stage run (other_target kind reference) = err (waiver_target (unknown_kind kind))
waiver_stage run (no_target target) = err (waiver_target (malformed target))

-- `xs[-n:]` for a positive `n`
unfoldable pub drop : {A : Type 0} → ℕ → List A → List A
drop zero xs = xs
drop (suc n) [] = []
drop (suc n) (x ∷ xs) = drop n xs

abbrev pub take_last : {A : Type 0} → ℕ → List A → List A
take_last n xs = drop (length xs - n) xs

abbrev pub new_waiver : Caller → Target → StepId → Waiver
new_waiver c target stage = record { target = target; stage = stage; user = c.user; at = c.now }

abbrev pub granted : Caller → Target → StepId → Run → Run
granted c target stage run = if is_waived target run.waivers then run else record run {
  waivers = take_last max_waivers (run.waivers ++ new_waiver c target stage ∷ []);
}

-- `_apply` of `waive`
unfoldable pub grant_waiver : Caller → Target → Run → Result RunError Run
unfolding waiver_stage sync_waiver_status drop
grant_waiver c target run = elim run.active_action [
  | some active ↦ err (busy active)
  | none ↦ elim (waiver_stage run target) [
    | err e ↦ err e
    | ok stage ↦ ok (sync_waiver_status (granted c target stage run))
  ]
]

unfoldable pub without_target : Target → List Waiver → List Waiver
unfolding same_target
without_target target [] = []
without_target target (w ∷ ws) =
    let rest = without_target target ws in if same_target w.target target then rest else w ∷ rest

-- `_apply` of `unwaive`
unfoldable pub revoke_waiver : Target → Run → Result RunError Run
unfolding without_target sync_waiver_status
revoke_waiver target run = elim run.active_action [
  | some active ↦ err (busy active)
  | none ↦ ok (sync_waiver_status (record run { waivers = without_target target run.waivers }))
]

unfoldable pub waive :
    Caller → Period → (ℕ → Runs → Runs) → Target → Runs → Result RunError Run × Runs
unfolding grant_waiver update
waive c p others target runs = update c p others (grant_waiver c target) update_retries runs

unfoldable pub unwaive :
    Caller → Period → (ℕ → Runs → Runs) → Target → Runs → Result RunError Run × Runs
unfolding revoke_waiver update
unwaive c p others target runs = update c p others (revoke_waiver target) update_retries runs

-- the reasons of `_validate_action`
pub data Refusal : Type 0 where
  check_first : Refusal
  missing_steps : List StepId → Refusal
  blocked_package package_first blocked_send unconfirmed unexplained_warnings : Refusal

unfoldable pub missing : Run → List StepId → List StepId
unfolding step_satisfied
missing run [] = []
missing run (step ∷ steps) =
    let rest = missing run steps in if step_satisfied run step then rest else step ∷ rest

abbrev pub is_explained : Option String → Bool
is_explained none = false
is_explained (some reason) = not (str_eq reason "") && not (str_eq (strip reason) "")

abbrev refuse_collection : Run → Option Refusal
refuse_collection run = if step_satisfied run check then none else some check_first

abbrev refuse_package : Run → List StepId → Option Refusal
refuse_package run (step ∷ steps) = some (missing_steps (step ∷ steps))
refuse_package run [] =
    if any_blocking (active_issues run.waivers run.issues) then some blocked_package else none

abbrev refuse_send : Run → Bool → Option String → Option Refusal
refuse_send run confirm override_reason =
    if not (is_done run.steps.package_step.status)
    then some package_first
    else if any_blocking (active_issues run.waivers run.issues)
    then some blocked_send
    else if not confirm
    then some unconfirmed
    else if any_warning (active_issues run.waivers run.issues) && not (is_explained override_reason)
    then some unexplained_warnings
    else none

unfoldable pub validate_action : Run → StepId → Bool → Option String → Option Refusal
unfolding step_satisfied active_issues missing
validate_action run package_step confirm override_reason =
    refuse_package run (missing run collection_actions)
validate_action run send confirm override_reason = refuse_send run confirm override_reason
validate_action run check confirm override_reason = none
validate_action run _ confirm override_reason = refuse_collection run

abbrev all_others_satisfied : Run → StepId → List StepId → Bool
all_others_satisfied run action [] = true
all_others_satisfied run action (step ∷ steps) =
    (same_step step action || step_satisfied run step) && all_others_satisfied run action steps

unfoldable pub next_status : Run → StepId → RunStatus
unfolding step_satisfied
next_status run package_step = RunStatus.package_ready
next_status run send = RunStatus.completed
next_status run action =
    if all_others_satisfied run action collection_actions
    then RunStatus.awaiting_review
    else RunStatus.collecting
