-- ===== src/Tests/MonthClosing.antt =====
-- The month's closing: runs and instances.
use zdrovena_reconciliation.Prelude.{
  ℕ, zero, suc, ◌≡◌, ◌≤◌, ◌+◌, ◌++◌, refl, String, true, false, none, some, List, [], ◌∷◌, str_eq,
  if◌then◌else◌, All, arith,
}
use zdrovena_reconciliation.Prelude.Result.{Result, ok, err}
use zdrovena_reconciliation.Prelude.Dict.{lookup}
use zdrovena_reconciliation.Prelude.Text.{sorted, precedes}
use zdrovena_reconciliation.MonthClosing.Run.{
  Run, StepId, RunStatus, StepStatus, Artifact, step_target, check, sales, package_step, send,
  new_close_run,
}
use zdrovena_reconciliation.MonthClosing.RunStore.{
  Runs, RunError, conflict, Caller, Period, save, get_or_create, reset, try_claim, update,
  update_retries, bumped, mark_claimed, claimed_run,
}
use zdrovena_reconciliation.MonthClosing.RunStore.Claims.{
  Step, claims as claims_run, writes, claims_won, releases, claims_won-le-releases,
}
use zdrovena_reconciliation.MonthClosing.Gates.{step_satisfied, is_done}
use zdrovena_reconciliation.MonthClosing.Gates.Waivers.{
  Change, grants, claims, changes, changes-step_satisfied, mark_claimed-step_satisfied,
}
use zdrovena_reconciliation.MonthClosing.Package.{
  Payloads, Blobs, build_package_artifact, verify_package_artifact, Mismatch,
}
use zdrovena_reconciliation.MonthClosing.Package.Reviewed.{
  verify_package_artifact-build_package_artifact, verify_package_artifact_same,
}
use zdrovena_reconciliation.Sending.{may_send}
use zdrovena_reconciliation.MonthClosing.Outside.{Inspection, Report, Outside, exception}
use zdrovena_reconciliation.MonthClosing.Stage.{Call, body}
use zdrovena_reconciliation.MonthClosing.Stage.Ends.{outstanding_in, IsHonest as MailHonest}
use zdrovena_reconciliation.MonthClosing.Workflow.{World, unbound_attempt, perform}
use zdrovena_reconciliation.MonthClosing.Workflow.Once.{
  Happening, performs, waives, settles, history, empty_log, IsTruthful, mails_once,
}
use zdrovena_reconciliation.MonthClosing.Workflow.Stuck.{perform_stuck}

abbrev anna : Caller
anna = record { now = 5; uuid = "r1"; user = "anna" }

abbrev later : Caller
later = record { now = 7; uuid = "r2"; user = "jan" }

abbrev january : Period
january = record { key = "2026-01"; year = 2026; month = 1 }

abbrev opened : Runs
opened = (get_or_create anna january []).1

abbrev first_run : Run
first_run = bumped 5 (new_close_run 5 "r1" 2026 1 "anna")

reset_wins : (save 9 "2026-01" (some 1) first_run (reset later january opened).1).0 ≡ err conflict
unfolding save reset get_or_create
reset_wins = refl

abbrev add_log : Run → Result RunError Run
add_log run = ok (record run { logs = "ręcznie" ∷ run.logs })

-- another user resets the period once, and the change is made on the new run
abbrev one_reset : ℕ → Runs → Runs
one_reset (suc (suc zero)) runs = (reset later january runs).1
one_reset _ runs = runs

abbrev result_run : Result RunError Run → Run
result_run (ok run) = run
result_run (err e) = first_run

update_run :
    (result_run (update anna january one_reset add_log update_retries opened).0).run_id ≡ "r2"
unfolding update get_or_create save reset
update_run = refl

-- the second claim loses, and the one after the reset wins
abbrev three_claims : List Step
three_claims =
    claims_run (anna, january, "sales")
    ∷ claims_run (later, january, "check")
    ∷ writes (λ runs. (reset anna january runs).1)
    ∷ claims_run (later, january, "check")
    ∷ []

three_claims_run : claims_won "2026-01" three_claims opened ≡ 2
unfolding claims_won try_claim get_or_create reset
three_claims_run = refl

claims_won-le-releases_example :
    claims_won "2026-01" three_claims opened ≤ 1 + releases 5 "2026-01" three_claims opened
claims_won-le-releases_example = claims_won-le-releases 5 "2026-01" three_claims opened (
  (omega arith, omega arith),
  ((omega arith, omega arith), (tt, ((omega arith, omega arith), tt))),
)

abbrev waived_twice : List Change
waived_twice =
    grants anna (step_target "sales")
    ∷ grants anna (step_target "send")
    ∷ claims 8 package_step "anna"
    ∷ []

waived_twice_run : step_satisfied (changes first_run waived_twice) sales ≡ true
unfolding changes step_satisfied new_close_run
waived_twice_run = refl

changes-step_satisfied_example :
    let run' = changes first_run waived_twice in
    (step_satisfied run' package_step ≡ is_done run'.steps.package_step.status)
    × (step_satisfied run' send ≡ is_done run'.steps.send.status)
changes-step_satisfied_example =
    changes-step_satisfied first_run waived_twice (unfold new_close_run in refl)

mark_claimed-step_satisfied_example :
    step_satisfied (mark_claimed 9 sales "jan" (changes first_run waived_twice)) sales ≡ false
mark_claimed-step_satisfied_example =
    mark_claimed-step_satisfied 9 sales "jan" (changes first_run waived_twice)

abbrev needy_run : Run
needy_run = record first_run { status = RunStatus.needs_input }

-- a digest without collisions, and payloads that are their own listing
abbrev texts : Payloads String
texts = record { digest = λ s. s; size = λ s. 3; namelist = λ s. some ("b.pdf" ∷ s ∷ []) }

abbrev stored : Blobs String
stored key = ok "a.pdf"

-- later on, nothing else is there
abbrev stored_later : Blobs String
stored_later key = if str_eq key "paczka.zip" then ok "a.pdf" else err "BlobNotFound"

abbrev reviewed_package : Artifact
reviewed_package = record {
  kind = "package";
  key = some "paczka.zip";
  sha256 = some "a.pdf";
  size_bytes = some 3;
  files = some ("a.pdf" ∷ "b.pdf" ∷ []);
}

built :
    build_package_artifact texts stored "paczka.zip" ("b.pdf" ∷ "a.pdf" ∷ []) ≡ ok reviewed_package
unfolding build_package_artifact sorted precedes
built = refl

verify_package_artifact-build_package_artifact_example :
    verify_package_artifact texts stored_later (some reviewed_package) ≡ none
verify_package_artifact-build_package_artifact_example =
    verify_package_artifact-build_package_artifact texts stored stored_later "paczka.zip"
      ("b.pdf" ∷ "a.pdf" ∷ []) "a.pdf" reviewed_package built refl refl refl refl refl

verify_package_artifact_same_example : stored_later "paczka.zip" ≡ stored "paczka.zip"
verify_package_artifact_same_example =
    verify_package_artifact_same texts (λ b b' e. e) stored stored_later "paczka.zip"
      ("b.pdf" ∷ "a.pdf" ∷ []) reviewed_package built
      (unfold verify_package_artifact sorted precedes in refl)

replaced_run :
    verify_package_artifact texts (λ key. ok "c.pdf") (some reviewed_package)
    ≡ some Mismatch.changed_hash
unfolding verify_package_artifact
replaced_run = refl

abbrev found_nothing : Inspection
found_nothing = record { documents = []; issues = []; metrics = [] }

abbrev report : Report
report = record {
  sales_invoice_count = 3;
  sales_gross_total = "369.00";
  sales_pdfs_downloaded = 3;
  cost_invoice_count = 0;
  cost_found_vendors = [];
  cost_missing_vendors = [];
  bank_statement_found = false;
  zip_path = some "paczka.zip";
  zip_files = none;
  email_sent = true;
  warnings = [];
  errors = [];
  steps_completed = [];
}

abbrev calm : Outside
calm = record {
  inspect = ok found_nothing;
  inspect_again = ok found_nothing;
  verify = λ artifact. none;
  build = λ key files. ok (record {
    kind = "package";
    key = some key;
    sha256 = some "h";
    size_bytes = none;
    files = none;
  });
  execute_stage = ok report;
  accepted = true;
  log_lines = [];
  append_history = ok tt;
  casefold = λ s. s;
  show = λ n. "n";
  mismatch_text = λ m. "inna paczka";
}

calm-IsHonest : MailHonest calm
calm-IsHonest = record { refused_unsent = λ e. cc; history_smtp = refl }

-- the message is accepted, but the answer is lost
abbrev timed_out : Outside
timed_out = record calm { execute_stage = err (exception false "timed out") }

timed_out-IsHonest : MailHonest timed_out
timed_out-IsHonest = record { refused_unsent = λ e. cc; history_smtp = refl }

abbrev at_time : ℕ → Caller
at_time t = record { now = t; uuid = "a"; user = "anna" }

abbrev call_at : ℕ → StepId → Outside → Call
call_at t action outside = record {
  caller = at_time t;
  period = january;
  action = action;
  order = record { confirm = true; override_reason = none };
  outside = outside;
}

abbrev until_package : List Happening
until_package =
    performs (call_at 1 check calm)
    ∷ performs (call_at 2 sales calm)
    ∷ waives (at_time 3) (step_target "costs")
    ∷ waives (at_time 4) (step_target "reports")
    ∷ waives (at_time 5) (step_target "bank")
    ∷ performs (call_at 6 package_step calm)
    ∷ []

-- a lost answer, a second try that is refused, an operator who finds no message, and a last try
abbrev lost_answer : List Happening
lost_answer =
    performs (call_at 7 send timed_out)
    ∷ performs (call_at 8 send calm)
    ∷ settles (at_time 700000007) false "nie ma w skrzynce"
    ∷ performs (call_at 700000008 send calm)
    ∷ performs (call_at 700000009 send calm)
    ∷ []

lost_answer_run : (history january empty_log (until_package ++ lost_answer)).world.sent ≡ 2
unfolding history get_or_create perform body may_send
lost_answer_run = refl

all-IsTruthful : All IsTruthful (until_package ++ lost_answer)
all-IsTruthful = (
  calm-IsHonest,
  (
    calm-IsHonest,
    (
      tt,
      (
        tt,
        (
          tt,
          (
            calm-IsHonest,
            (timed_out-IsHonest, (calm-IsHonest, (tt, (calm-IsHonest, (calm-IsHonest, tt))))),
          ),
        ),
      ),
    ),
  ),
)

mails_once_example :
    let log = history january empty_log (until_package ++ lost_answer) in
    (log.world.sent ≤ log.excused + outstanding_in (lookup "2026-01" log.world.runs))
    × (log.world.sent ≤ log.excused + 1)
mails_once_example = mails_once january (until_package ++ lost_answer) all-IsTruthful

-- the storage fails while the inputs of a send are read
abbrev storage_down : Call
storage_down = record (call_at 7 send calm) {
  outside = record calm { inspect = err (exception false "ServiceUnavailable") };
}

abbrev packaged_run : Run
packaged_run = record first_run {
  steps = record first_run.steps {
    package_step = record first_run.steps.package_step { status = StepStatus.done };
  };
}

abbrev ready_world : World
ready_world = record { runs = ("2026-01", packaged_run) ∷ []; sent = 0 }

abbrev sending_run : Run
sending_run = claimed_run (at_time 7) send packaged_run

claimed_send :
    try_claim (at_time 7) january "send" ready_world.runs
    ≡ (ok sending_run, ("2026-01", sending_run) ∷ [])
unfolding try_claim new_close_run mark_claimed
claimed_send = refl

package_done : is_done sending_run.steps.package_step.status ≡ true
unfolding mark_claimed new_close_run
package_done = refl

perform_stuck_example :
    perform storage_down ready_world
    ≡ (err unbound_attempt, record { runs = ("2026-01", sending_run) ∷ []; sent = 0 })
perform_stuck_example =
    perform_stuck storage_down false "ServiceUnavailable" ready_world sending_run
      (("2026-01", sending_run) ∷ []) refl claimed_send package_done refl
