-- ===== src/MonthClosing/Run.antt =====
-- zdrovena/month_closing/run_store.py: the record of one period's run. Times are in microseconds; an
-- `updated_at` text that does not parse is `unreadable`.
use zdrovena_reconciliation.Prelude.{
  ℕ, String, Bool, true, false, Option, none, some, List, [], str_eq, if◌then◌else◌,
}
use zdrovena_reconciliation.Prelude.Dict.{Dict}
use zdrovena_reconciliation.Sending.{SendAttempt, Timestamp, instant}

-- `STEP_IDS`, in their order; `package_step` is the text "package"
pub data StepId : Type 0 where
  check sales costs reports bank package_step send : StepId

pub data StepStatus : Type 0 where
  pending running done failed : StepStatus

pub record Step : Type 0 where
  pub status : StepStatus
  pub started_at : Option ℕ
  pub completed_at : Option ℕ
  pub message : Option String

pub data RunStatus : Type 0 where
  draft running failed ready needs_input collecting awaiting_review package_ready completed :
      RunStatus

pub data Severity : Type 0 where
  blocker error warning info : Severity

pub record Issue : Type 0 where
  pub id : String
  pub severity : Severity
  pub message : String
  pub stage : StepId

pub record Document : Type 0 where
  pub id : String
  pub category : String
  pub label : String
  pub status : String
  pub source : String
  pub message : String

-- `artifact_id`, the start of the hash, is left out
pub record Artifact : Type 0 where
  pub kind : String
  pub key : Option String
  pub sha256 : Option String
  pub size_bytes : Option ℕ
  pub files : Option (List String)

-- A waiver's target, a text read at its first colon: a step's name, an issue's id, a kind that is
-- neither with its reference, or a text with no colon.
pub data Target : Type 0 where
  step_target issue_target : String → Target
  other_target : String → String → Target
  no_target : String → Target

pub record Waiver : Type 0 where
  pub target : Target
  pub stage : StepId
  pub user : String
  pub at : ℕ

pub data Metric : Type 0 where
  flag : Bool → Metric
  figure : String → Metric
  names : List String → Metric
  vendors : Dict String → Metric

pub record Override : Type 0 where
  pub action : StepId
  pub reason : String
  pub user : String

pub record Steps : Type 0 where
  pub check : Step
  pub sales : Step
  pub costs : Step
  pub reports : Step
  pub bank : Step
  pub package_step : Step
  pub send : Step

pub record Run : Type 0 where
  pub run_id : String
  pub year : ℕ
  pub month : ℕ
  pub status : RunStatus
  pub active_action : Option StepId
  pub requested_by : String
  pub created_at : ℕ
  pub updated_at : Timestamp
  pub steps : Steps
  pub documents : List Document
  pub issues : List Issue
  pub metrics : Dict Metric
  pub artifacts : List Artifact
  pub logs : List String
  pub overrides : List Override
  pub waivers : List Waiver
  pub email_attempt : Option SendAttempt
  pub rev : ℕ

-- `run["steps"][action]`
abbrev pub step_of : StepId → Steps → Step
step_of check s = s.check
step_of sales s = s.sales
step_of costs s = s.costs
step_of reports s = s.reports
step_of bank s = s.bank
step_of package_step s = s.package_step
step_of send s = s.send

abbrev pub set_step : StepId → Step → Steps → Steps
set_step check x s = record s { check = x }
set_step sales x s = record s { sales = x }
set_step costs x s = record s { costs = x }
set_step reports x s = record s { reports = x }
set_step bank x s = record s { bank = x }
set_step package_step x s = record s { package_step = x }
set_step send x s = record s { send = x }

abbrev new_step : Step
new_step = record { status = pending; started_at = none; completed_at = none; message = none }

abbrev pub new_steps : Steps
new_steps = record {
  check = new_step;
  sales = new_step;
  costs = new_step;
  reports = new_step;
  bank = new_step;
  package_step = new_step;
  send = new_step;
}

-- the time and the uuid are the caller's
unfoldable pub new_close_run : ℕ → String → ℕ → ℕ → String → Run
new_close_run now uuid year month requested_by = record {
  run_id = uuid;
  year = year;
  month = month;
  status = draft;
  active_action = none;
  requested_by = requested_by;
  created_at = now;
  updated_at = instant now;
  steps = new_steps;
  documents = [];
  issues = [];
  metrics = [];
  artifacts = [];
  logs = [];
  overrides = [];
  waivers = [];
  email_attempt = none;
  rev = 0;
}

abbrev pub step_name : StepId → String
step_name check = "check"
step_name sales = "sales"
step_name costs = "costs"
step_name reports = "reports"
step_name bank = "bank"
step_name package_step = "package"
step_name send = "send"

abbrev pub same_step : StepId → StepId → Bool
same_step check check = true
same_step sales sales = true
same_step costs costs = true
same_step reports reports = true
same_step bank bank = true
same_step package_step package_step = true
same_step send send = true
same_step _ _ = false

-- `action in STEP_IDS`
unfoldable pub read_step : String → Option StepId
read_step s =
    if str_eq s "check"
    then some check
    else if str_eq s "sales"
    then some sales
    else if str_eq s "costs"
    then some costs
    else if str_eq s "reports"
    then some reports
    else if str_eq s "bank"
    then some bank
    else if str_eq s "package"
    then some package_step
    else if str_eq s "send"
    then some send
    else none
