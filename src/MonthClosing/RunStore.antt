-- ===== src/MonthClosing/RunStore.antt =====
-- zdrovena/month_closing/run_store.py: the runs of all periods, local backend. A period is its key, such
-- as "2026-01"; each operation that holds the file lock is one step on the stored dict. A file that does
-- not load is an empty one, as in the source; a failing write to the disk is not modelled. `get_or_create`
-- and `reset` take the lock twice, for a read and for a write, and are one step here.
pub mod Revisions
pub mod Update
pub mod Claims
use zdrovena_reconciliation.Prelude.{
  zero, suc, ℕ, ◌+◌, String, Bool, true, false, not, ◌&&◌, ◌||◌, Option, none, some, List, [], ◌∷◌,
  ◌==◌, ltb, str_eq, if◌then◌else◌,
}
use zdrovena_reconciliation.Prelude.Result.{Result, ok, err}
use zdrovena_reconciliation.Prelude.Dict.{Dict, lookup, insert}
use zdrovena_reconciliation.Sending.{Timestamp, instant, unreadable}
use zdrovena_reconciliation.MonthClosing.Run.{
  StepId, Step, StepStatus, RunStatus, Target, step_target, issue_target, other_target, no_target,
  Waiver, Run, step_of, set_step, new_close_run, same_step, step_name, read_step,
}

abbrev pub Runs : Type 0
Runs = Dict Run

-- `WaiverTargetError`, by its four messages
pub data WaiverTargetError : Type 0 where
  malformed : String → WaiverTargetError
  not_waivable unknown_issue unknown_kind : String → WaiverTargetError

-- `RunBusyError`, `RunConflictError`, the `ValueError` of an unknown action, and a refused waiver
pub data RunError : Type 0 where
  busy : StepId → RunError
  conflict unknown_action : RunError
  waiver_target : WaiverTargetError → RunError

-- `timedelta(minutes=30)`
abbrev pub active_action_ttl : ℕ
active_action_ttl = 1800000000

abbrev pub update_retries : ℕ
update_retries = 3

abbrev older_than_ttl : ℕ → Timestamp → Bool
older_than_ttl now (unreadable s) = true
older_than_ttl now (instant t) = ltb (t + active_action_ttl) now

unfoldable pub is_active_stale : ℕ → Run → Bool
is_active_stale now run = elim run.active_action [
  | none ↦ false
  | some action ↦ older_than_ttl now run.updated_at
]

unfoldable pub has_moved_on : Run → Run → ℕ → Bool
has_moved_on stored run expect_rev =
    not (stored.rev == expect_rev) || not (str_eq stored.run_id run.run_id)

unfoldable pub get : String → Runs → Option Run
get period runs = lookup period runs

abbrev pub bumped : ℕ → Run → Run
bumped now run = record run { rev = run.rev + 1; updated_at = instant now }

abbrev pub written : ℕ → String → Run → Runs → Run × Runs
written now period run runs = (bumped now run, insert period (bumped now run) runs)

abbrev pub moved_on : Option Run → Run → Option ℕ → Bool
moved_on stored run none = false
moved_on none run (some expect_rev) = false
moved_on (some stored) run (some expect_rev) = has_moved_on stored run expect_rev

-- `save` returns the run as it has changed the caller's copy
unfoldable pub save : ℕ → String → Option ℕ → Run → Runs → Result RunError Run × Runs
unfolding has_moved_on
save now period expect_rev run runs =
    if moved_on (lookup period runs) run expect_rev
    then (err conflict, runs)
    else (ok (bumped now run), insert period (bumped now run) runs)

abbrev stale_message : String
stale_message = "Etap nie potwierdził zakończenia w ciągu 30 minut. Można go uruchomić ponownie."

abbrev pub fail_step : String → Step → Step
fail_step message step = record step { status = StepStatus.failed; message = some message }

-- what `get_or_create` does to a run whose action is stale
abbrev pub abandoned : Run → Run
abandoned run = elim run.active_action [
  | none ↦ run
  | some action ↦ record run {
    active_action = none;
    status = RunStatus.failed;
    steps = set_step action (fail_step stale_message (step_of action run.steps)) run.steps;
  }
]

-- the period's key, its year and its month
pub record Period : Type 0 where
  pub key : String
  pub year : ℕ
  pub month : ℕ

-- the time of the call, the uuid that it draws where it needs one, and the user
pub record Caller : Type 0 where
  pub now : ℕ
  pub uuid : String
  pub user : String

abbrev pub fresh_run : Caller → Period → Run
fresh_run c p = new_close_run c.now c.uuid p.year p.month c.user

-- One step here. The source reads under the lock, and writes a fresh or an abandoned run under the next,
-- with no expected revision, so that a write that comes between the two is lost.
unfoldable pub get_or_create : Caller → Period → Runs → Run × Runs
unfolding is_active_stale new_close_run
get_or_create c p runs = elim (lookup p.key runs) [
  | none ↦ written c.now p.key (fresh_run c p) runs
  | some existing ↦
      if is_active_stale c.now existing
      then written c.now p.key (abandoned existing) runs
      else (existing, runs)
]

abbrev pub stored_rev : Option Run → ℕ
stored_rev none = 0
stored_rev (some previous) = previous.rev

-- one step here, with the revision and the write under two locks in the source
unfoldable pub reset : Caller → Period → Runs → Run × Runs
unfolding new_close_run
reset c p runs =
    written c.now p.key (record (fresh_run c p) { rev = stored_rev (lookup p.key runs) }) runs

-- a waiver of the action's step, or of an issue of its stage
abbrev pub is_waiver_of : StepId → Waiver → Bool
is_waiver_of action w = elim w.target [
  | step_target s ↦ str_eq s (step_name action) || same_step w.stage action
  | _ ↦ same_step w.stage action
]

unfoldable pub waivers_without : StepId → List Waiver → List Waiver
waivers_without action [] = []
waivers_without action (w ∷ ws) =
    let rest = waivers_without action ws in if is_waiver_of action w then rest else w ∷ rest

unfoldable pub mark_claimed : ℕ → StepId → String → Run → Run
unfolding waivers_without
mark_claimed now action requested_by run = record run {
  waivers = waivers_without action run.waivers;
  active_action = some action;
  status = RunStatus.running;
  requested_by = requested_by;
  updated_at = instant now;
  steps =
      set_step action
        (record {
          status = StepStatus.running;
          started_at = some now;
          completed_at = none;
          message = none;
        })
        run.steps;
}

abbrev pub or_fresh : Caller → Period → Option Run → Run
or_fresh c p none = fresh_run c p
or_fresh c p (some run) = run

abbrev pub claimed_run : Caller → StepId → Run → Run
claimed_run c action run =
    let run' = mark_claimed c.now action c.user run in record run' { rev = run.rev + 1 }

abbrev pub claim : Caller → Period → StepId → Run → Runs → Result RunError Run × Runs
claim c p action run runs = elim run.active_action [
  | none ↦ (ok (claimed_run c action run), insert p.key (claimed_run c action run) runs)
  | some active ↦
      if is_active_stale c.now run
      then (ok (claimed_run c action run), insert p.key (claimed_run c action run) runs)
      else (err (busy active), runs)
]

unfoldable pub try_claim : Caller → Period → String → Runs → Result RunError Run × Runs
unfolding read_step is_active_stale mark_claimed new_close_run
try_claim c p action runs = elim (read_step action) [
  | none ↦ (err unknown_action, runs)
  | some step ↦ claim c p step (or_fresh c p (lookup p.key runs)) runs
]

abbrev pub finished : ℕ → StepId → Bool → String → RunStatus → Run → Run
finished now action success message status run = record run {
  active_action = none;
  status = status;
  updated_at = instant now;
  steps =
      set_step action
        (record (step_of action run.steps) {
          status = if success then StepStatus.done else StepStatus.failed;
          completed_at = some now;
          message = some message;
        })
        run.steps;
}

unfoldable pub finish_action :
    ℕ → String → StepId → Bool → String → RunStatus → Run → Runs → Result RunError Run × Runs
unfolding save
finish_action now period action success message status run runs =
    save now period (some run.rev) (finished now action success message status run) runs

-- `update`: the mutation is replayed while the write loses. `others` is what other callers do to the
-- store between this caller's read and its write, by the attempts that are left.
unfoldable pub update :
    Caller
    → Period
    → (ℕ → Runs → Runs)
    → (Run → Result RunError Run)
    → ℕ
    → Runs
    → Result RunError Run × Runs
update c p others mutate zero runs = (err conflict, runs)
update c p others mutate (suc retries) runs =
    let (run, runs1) = get_or_create c p runs in
    elim (mutate run) [
      | err e ↦ (err e, runs1)
      | ok run' ↦
          let (r, runs2) = save c.now p.key (some run.rev) run' (others retries runs1) in
          let again = update c p others mutate retries runs2 in
          elim r [ ok saved ↦ (ok saved, runs2) | err e ↦ again ]
    ]
