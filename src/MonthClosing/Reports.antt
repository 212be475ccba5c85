-- ===== src/MonthClosing/Reports.antt =====
-- zdrovena/month_closing/workflow.py: what a stage's report does to the run, and the texts for the operator.
use Prim.Native.String.{◌++◌ as str_append}
use zdrovena_reconciliation.Prelude.{
  ℕ, ◌+◌, String, Bool, true, false, ◌&&◌, ◌||◌, ltb, is_some, Option, none, some, List, [], ◌∷◌,
  ◌++◌, map, str_eq, if◌then◌else◌,
}
use zdrovena_reconciliation.Prelude.Result.{ok, err}
use zdrovena_reconciliation.Prelude.Dict.{Dict, lookup, update as update_dict}
use zdrovena_reconciliation.Sending.{Reason, already_sent, in_progress, truncate}
use zdrovena_reconciliation.MonthClosing.Run.{
  StepId, check, sales, costs, reports, bank, package_step, send, blocker, warning, Issue, Document,
  Artifact, Metric, flag, figure, names, vendors, Run, step_name, same_step,
}
use zdrovena_reconciliation.MonthClosing.Gates.{
  Refusal, check_first, missing_steps, blocked_package, package_first, blocked_send, unconfirmed,
  unexplained_warnings, take_last, drop,
}
use zdrovena_reconciliation.Prelude.Text.{contains, starts_with, join_comma, sorted}
use zdrovena_reconciliation.MonthClosing.Outside.{Report, Outside}

unfoldable pub not_of_stage : StepId → List Issue → List Issue
not_of_stage action [] = []
not_of_stage action (issue ∷ issues) =
    let rest = not_of_stage action issues in
    if same_step issue.stage action then rest else issue ∷ rest

unfoldable pub of_stage : StepId → List Issue → List Issue
of_stage action [] = []
of_stage action (issue ∷ issues) =
    let rest = of_stage action issues in if same_step issue.stage action then issue ∷ rest else rest

unfoldable pub refusal_text : Refusal → String
unfolding join_comma
refusal_text check_first = "Najpierw uruchom kontrolę wstępną."
refusal_text (missing_steps steps) =
    str_append "Najpierw zakończ lub pomiń etapy: "
      (str_append (join_comma (map step_name steps)) ".")
refusal_text blocked_package = "Usuń lub zignoruj blokujące problemy przed zbudowaniem paczki."
refusal_text package_first = "Najpierw zbuduj i przejrzyj paczkę."
refusal_text blocked_send = "Usuń lub zignoruj blokujące problemy przed wysyłką."
refusal_text unconfirmed = "Wysyłka wymaga jawnego potwierdzenia operatora."
refusal_text unexplained_warnings = "Wysyłka z ostrzeżeniami wymaga podania powodu."

abbrev pub reason_text : Option Reason → String
reason_text (some already_sent) = "Wiadomość została już wysłana."
reason_text (some in_progress) = "Wysyłka jest w toku."
reason_text _ =
    "Poprzednia próba wysyłki nie zakończyła się jednoznacznie — wiadomość mogła zostać dostarczona. Sprawdź skrzynkę nadawczą i rozstrzygnij próbę, zanim wyślesz ponownie."

abbrev is_package : Artifact → Bool
is_package artifact = str_eq artifact.kind "package"

unfoldable pub find_package : List Artifact → Option Artifact
find_package [] = none
find_package (artifact ∷ artifacts) =
    let rest = find_package artifacts in if is_package artifact then some artifact else rest

unfoldable pub without_package : List Artifact → List Artifact
without_package [] = []
without_package (artifact ∷ artifacts) =
    let rest = without_package artifacts in if is_package artifact then rest else artifact ∷ rest

-- one vendor whose invoices came by mail
unfoldable pub issues_without_vendor : (String → String) → String → List Issue → List Issue
issues_without_vendor casefold vendor [] = []
issues_without_vendor casefold vendor (issue ∷ issues) =
    let rest = issues_without_vendor casefold vendor issues in
    if contains (casefold issue.message) (casefold vendor) then rest else issue ∷ rest

abbrev received : (String → String) → String → Document → Document
received casefold vendor document =
    if str_eq document.category "costs" && starts_with (casefold document.label) (casefold vendor)
    then record document {
      status = "present";
      source = "Oryginalny załącznik Zoho Mail";
      message = "Oryginalny PDF został pobrany z wiadomości e-mail.";
    }
    else document

unfoldable pub apply_source : (String → String) → String → String → Run → Run
unfolding issues_without_vendor contains starts_with
apply_source casefold vendor source run =
    if str_eq source "Zoho Mail"
    then record run {
      issues = issues_without_vendor casefold vendor run.issues;
      documents = map (received casefold vendor) run.documents;
    }
    else run

unfoldable pub apply_sources : (String → String) → Dict String → Run → Run
unfolding apply_source
apply_sources casefold [] run = run
apply_sources casefold ((vendor, source) ∷ found) run =
    apply_sources casefold found (apply_source casefold vendor source run)

abbrev pub found_vendors : Run → Dict String
found_vendors run = elim (lookup "cost_found_vendors" run.metrics) [
  | some (vendors found) ↦ found
  | _ ↦ []
]

unfoldable pub apply_known_email_sources : (String → String) → Run → Run
unfolding apply_sources
apply_known_email_sources casefold run = apply_sources casefold (found_vendors run) run

is_blocking_warning : String → Bool
unfolding contains
is_blocking_warning text =
    contains text "Brak faktur kosztowych"
    || contains text "reports incomplete"
    || contains text "Wyciąg PKO"

unfoldable pub warning_issues : (ℕ → String) → StepId → ℕ → List String → List Issue
unfolding is_blocking_warning
warning_issues show action n [] = []
warning_issues show action n (text ∷ warnings) =
    (record {
      id = str_append (step_name action) (str_append "-warning-" (show n));
      severity = if is_blocking_warning text then blocker else warning;
      message = text;
      stage = action;
    })
    ∷ warning_issues show action (n + 1) warnings

report_metrics : (ℕ → String) → Report → Dict Metric
report_metrics show report =
    ("sales_invoice_count", figure (show report.sales_invoice_count))
    ∷ ("sales_gross_total", figure report.sales_gross_total)
    ∷ ("sales_pdfs_downloaded", figure (show report.sales_pdfs_downloaded))
    ∷ ("cost_invoice_count", figure (show report.cost_invoice_count))
    ∷ ("cost_found_vendors", vendors report.cost_found_vendors)
    ∷ ("cost_missing_vendors", names report.cost_missing_vendors)
    ∷ ("bank_statement_found", flag report.bank_statement_found)
    ∷ []

abbrev files_of : Report → List String
files_of report = elim report.zip_files [ none ↦ [] | some files ↦ files ]

-- a package that could not be hashed is recorded without a hash
package_artifact : Outside → Report → String → Artifact
package_artifact outside report key = elim (outside.build key (files_of report)) [
  | ok artifact ↦ artifact
  | err e ↦ record {
    kind = "package";
    key = some key;
    sha256 = none;
    size_bytes = none;
    files = some (sorted (files_of report));
  }
]

abbrev packaged : Outside → Report → List Artifact → List Artifact
packaged outside report artifacts = elim report.zip_path [
  | none ↦ artifacts
  | some key ↦ without_package artifacts ++ package_artifact outside report key ∷ []
]

unfoldable pub apply_report : Outside → StepId → Report → Run → Run
unfolding truncate not_of_stage drop warning_issues report_metrics package_artifact without_package
apply_report outside action report run = record run {
  logs = take_last 80 (run.logs ++ map (truncate 500) outside.log_lines);
  issues = not_of_stage action run.issues ++ warning_issues outside.show action 0 report.warnings;
  metrics = update_dict run.metrics (report_metrics outside.show report);
  artifacts = packaged outside report run.artifacts;
}

abbrev last_text : String → List String → String
last_text s [] = s
last_text s (t ∷ texts) = last_text t texts

abbrev any_text : String → List String → Bool
any_text needle [] = false
any_text needle (s ∷ texts) = contains s needle || any_text needle texts

abbrev no_vendors : List String → Bool
no_vendors [] = true
no_vendors (v ∷ missing) = false

stage_outcome : (ℕ → String) → StepId → Report → Bool × String
unfolding contains join_comma
stage_outcome show sales report = (
  ltb 0 report.sales_invoice_count,
  str_append "Pobrano " (str_append (show report.sales_pdfs_downloaded) " faktur sprzedażowych."),
)
stage_outcome show costs report =
    if no_vendors report.cost_missing_vendors
    then (
      true,
      str_append "Zebrano " (str_append (show report.cost_invoice_count) " dokumentów kosztowych."),
    )
    else (false, str_append "Brakuje: " (str_append (join_comma report.cost_missing_vendors) "."))
stage_outcome show reports report =
    if any_text "JPK & VAT" report.steps_completed
    then (true, "Raporty są kompletne.")
    else (false, "Nadal brakuje raportów JPK/VAT.")
stage_outcome show bank report =
    if report.bank_statement_found
    then (true, "Wyciąg bankowy jest gotowy.")
    else (false, "Nadal brakuje wyciągu bankowego.")
stage_outcome show package_step report = (is_some report.zip_path, "Paczka ZIP została zbudowana.")
stage_outcome show send report = (report.email_sent, "Paczka została wysłana.")
stage_outcome show check report = (false, "Nieznany etap: check")

unfoldable pub stage_result : (ℕ → String) → StepId → Report → Bool × String
unfolding stage_outcome
stage_result show action report = elim report.errors [
  | [] ↦ stage_outcome show action report
  | e ∷ errors ↦ (false, last_text e errors)
]
