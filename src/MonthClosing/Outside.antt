-- ===== src/MonthClosing/Outside.antt =====
-- zdrovena/month_closing/workflow.py: what a call of `perform` meets. The inspector, the orchestrator's
-- stage and the storage are arguments: what they do in this call. A call reads the clock once, and `sent`
-- counts the messages that the mail server has accepted, which the code cannot see.
use zdrovena_reconciliation.Prelude.{ℕ, String, Bool, Option, List}
use zdrovena_reconciliation.Prelude.Result.{Result, ok, err}
use zdrovena_reconciliation.Prelude.Dict.{Dict}
use zdrovena_reconciliation.Sending.{SendAttempt}
use zdrovena_reconciliation.MonthClosing.Run.{RunStatus, Issue, Document, Artifact, Metric, Run}
use zdrovena_reconciliation.MonthClosing.RunStore.{Runs}
use zdrovena_reconciliation.MonthClosing.Package.{Mismatch, PackageIntegrityError}

-- An exception: whether it is an `SMTPResponseException`, and its text. A process that dies raises
-- nothing, and runs no handler.
pub data Raised : Type 0 where
  exception : Bool → String → Raised
  died : Raised

-- what `MonthCloseInspector.inspect` returns
pub record Inspection : Type 0 where
  pub documents : List Document
  pub issues : List Issue
  pub metrics : Dict Metric

-- `CloseReport`
pub record Report : Type 0 where
  pub sales_invoice_count : ℕ
  pub sales_gross_total : String
  pub sales_pdfs_downloaded : ℕ
  pub cost_invoice_count : ℕ
  pub cost_found_vendors : Dict String
  pub cost_missing_vendors : List String
  pub bank_statement_found : Bool
  pub zip_path : Option String
  pub zip_files : Option (List String)
  pub email_sent : Bool
  pub warnings : List String
  pub errors : List String
  pub steps_completed : List String

-- What the world outside does in one call: the inspections before and after the stage, the package's
-- check and record on the storage, the stage with the lines that it prints and whether the mail server
-- accepted a message, and the history. `casefold`, `show` and `mismatch_text` are texts.
pub record Outside : Type 0 where
  pub inspect : Result Raised Inspection
  pub inspect_again : Result Raised Inspection
  pub verify : Option Artifact → Option Mismatch
  pub build : String → List String → Result PackageIntegrityError Artifact
  pub execute_stage : Result Raised Report
  pub accepted : Bool
  pub log_lines : List String
  pub append_history : Result Raised (Unit {0})
  pub casefold : String → String
  pub show : ℕ → String
  pub mismatch_text : Mismatch → String

-- the variable `attempt`, which is not bound until a send begins
pub data Attempt : Type 0 where
  unbound no_attempt : Attempt
  begun : SendAttempt → Attempt

pub record Working : Type 0 where
  pub run : Run
  pub runs : Runs
  pub attempt : Attempt
  pub sent : ℕ

abbrev pub Action : Type 0 → Type 0
Action A = Working → Result Raised A × Working

infixl 5 ◌>>=◌ ◌>>◌
abbrev pub ◌>>=◌ : {A B : Type 0} → Action A → (A → Action B) → Action B
◌>>=◌ m next w = let (r, w') = m w in elim r [ err e ↦ (err e, w') | ok a ↦ next a w' ]

abbrev pub ◌>>◌ : {A B : Type 0} → Action A → Action B → Action B
m >> next = m >>= λ _. next

abbrev pub pure : {A : Type 0} → A → Action A
pure a w = (ok a, w)

abbrev pub raising : {A : Type 0} → Result Raised A → Action A
raising r w = (r, w)

abbrev pub edit : (Run → Run) → Action (Unit {0})
edit f w = (ok tt, record w { run = f w.run })

-- the arguments of `perform`
pub record Order : Type 0 where
  pub confirm : Bool
  pub override_reason : Option String

-- how a call ends, for `_finish`
pub record Ending : Type 0 where
  pub success : Bool
  pub message : String
  pub status : RunStatus
