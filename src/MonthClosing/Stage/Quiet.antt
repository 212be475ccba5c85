-- ===== src/MonthClosing/Stage/Quiet.antt =====
-- The steps of the `try` body that leave the mail alone.
use zdrovena_reconciliation.Prelude.{
  ◌≡◌, refl, ap, ◌∙◌, String, Bool, true, false, [], ◌∷◌, ◌++◌, inl, inr, Bool-cases, arith,
}
use zdrovena_reconciliation.Prelude.Result.{Result, ok, err, Result-cases}
use zdrovena_reconciliation.Prelude.Dict.{Dict}
use zdrovena_reconciliation.MonthClosing.Run.{
  StepId, check, sales, costs, reports, bank, package_step, send, Run,
}
use zdrovena_reconciliation.MonthClosing.Outside.{Working, Action, ◌>>=◌, ◌>>◌, edit, Raised}
use zdrovena_reconciliation.MonthClosing.Reports.{
  apply_source, of_stage, apply_sources, apply_known_email_sources, apply_report, stage_result,
  found_vendors,
}
use zdrovena_reconciliation.MonthClosing.Stage.{
  Call, should_refresh, inspected, refresh_inputs, execute_stage, costs_sources, collect_again,
  is_collection, overridden, confirm_send, ended, succeed, after_report, conclude, staged,
  inspect_only, accepted_mails,
}

-- the mail's side of a call's state is as it was
pub record Kept (w w' : Working) : Type 0 where
  pub mail : w'.run.email_attempt ≡ w.run.email_attempt
  pub runs : w'.runs ≡ w.runs
  pub sent : w'.sent ≡ w.sent
  pub attempt : w'.attempt ≡ w.attempt

apply_source_mail :
    (casefold : String → String) (vendor source : String) (run : Run)
    → (apply_source casefold vendor source run).email_attempt ≡ run.email_attempt
unfolding apply_source
apply_source_mail casefold vendor source run = ground arith

apply_sources_mail :
    (casefold : String → String) (found : Dict String) (run : Run)
    → (apply_sources casefold found run).email_attempt ≡ run.email_attempt
unfolding apply_sources
apply_sources_mail casefold [] run = refl
apply_sources_mail casefold ((vendor, source) ∷ found) run =
    apply_sources_mail casefold found (apply_source casefold vendor source run)
    ∙ apply_source_mail casefold vendor source run

known_sources_mail :
    (casefold : String → String) (run : Run)
    → (apply_known_email_sources casefold run).email_attempt ≡ run.email_attempt
unfolding apply_known_email_sources
known_sources_mail casefold run = apply_sources_mail casefold (found_vendors run) run

pub refresh_inputs-Kept : (call : Call) (w : Working) → Kept w (refresh_inputs call w).1
unfolding refresh_inputs
refresh_inputs-Kept call w = elim (Bool-cases (should_refresh call.action call.order w.run)) [
  | inr e ↦
      rw (e, refresh_inputs) (record { mail = refl; runs = refl; sent = refl; attempt = refl })
  | inl e ↦ elim (Result-cases call.outside.inspect) [
    | inl (x, q) ↦
        rw (e, refresh_inputs)
          (rw (q, refresh_inputs)
            (record { mail = refl; runs = refl; sent = refl; attempt = refl }))
    | inr (i, q) ↦
        rw (e, refresh_inputs)
          (rw (q, refresh_inputs)
            (record {
              mail = known_sources_mail call.outside.casefold (inspected i w.run);
              runs = refl;
              sent = refl;
              attempt = refl;
            }))
  ]
]

costs_sources_mail :
    (casefold : String → String) (action : StepId) (run : Run)
    → (costs_sources casefold action run).email_attempt ≡ run.email_attempt
costs_sources_mail casefold check run = refl
costs_sources_mail casefold sales run = refl
costs_sources_mail casefold costs run = known_sources_mail casefold run
costs_sources_mail casefold reports run = refl
costs_sources_mail casefold bank run = refl
costs_sources_mail casefold package_step run = refl
costs_sources_mail casefold send run = refl

collect_again-Kept : (call : Call) (w : Working) → Kept w (collect_again call w).1
unfolding collect_again
collect_again-Kept call w = elim (Bool-cases (is_collection call.action)) [
  | inr e ↦ rw (e, collect_again) (record { mail = refl; runs = refl; sent = refl; attempt = refl })
  | inl e ↦ elim (Result-cases call.outside.inspect_again) [
    | inl (x, q) ↦
        rw (e, collect_again)
          (rw (q, collect_again) (record { mail = refl; runs = refl; sent = refl; attempt = refl }))
    | inr (i, q) ↦
        rw (e, collect_again)
          (rw (q, collect_again)
            (record {
              mail =
                  costs_sources_mail call.outside.casefold call.action (record (inspected i w.run) {
                    issues = i.issues ++ of_stage call.action w.run.issues;
                  });
              runs = refl;
              sent = refl;
              attempt = refl;
            }))
  ]
]

pub overridden_mail :
    (call : Call) (run : Run) → (overridden call run).email_attempt ≡ run.email_attempt
overridden_mail call run = ground arith

pub inspect_only-Kept : (call : Call) (w : Working) → Kept w (inspect_only call w).1
unfolding inspect_only
inspect_only-Kept call w = elim (Result-cases call.outside.inspect) [
  | inl (x, q) ↦
      rw (q, inspect_only) (record { mail = refl; runs = refl; sent = refl; attempt = refl })
  | inr (i, q) ↦
      rw (q, inspect_only) (record { mail = refl; runs = refl; sent = refl; attempt = refl })
]

pub >>-ok :
    {A B : Type 0} {a : A} (m : Action A) (next : Action B) (w w' : Working)
    → m w ≡ (ok a, w')
    → (m >> next) w ≡ next w'
>>-ok {A = A} {B = B} m next w w' e = ap continue e
  where
    continue : Result Raised A × Working → Result Raised B × Working
    continue (r, v) = elim r [ err e ↦ (err e, v) | ok a ↦ next v ]

-- Actions that leave the mail's side alone.
abbrev pub Quiet : {A : Type 0} → Action A → Type 0
Quiet m = (w : Working) → Kept w (m w).1

Kept-trans : (u v w : Working) → Kept u v → Kept v w → Kept u w
Kept-trans u v w k l = record {
  mail = l.mail ∙ k.mail;
  runs = l.runs ∙ k.runs;
  sent = l.sent ∙ k.sent;
  attempt = l.attempt ∙ k.attempt;
}

Quiet->>= :
    {A B : Type 0} (m : Action A) (next : A → Action B)
    → Quiet m
    → ((a : A) → Quiet (next a))
    → Quiet (m >>= next)
Quiet->>= {A = A} {B = B} m next hm hn w = by_result (m w) (hm w)
  where
    continue : Result Raised A × Working → Result Raised B × Working
    continue (r, w') = elim r [ err e ↦ (err e, w') | ok a ↦ next a w' ]

    by_result : (o : Result Raised A × Working) → Kept w o.1 → Kept w (continue o).1
    by_result (ok a, w') k = Kept-trans w w' (next a w').1 k (hn a w')
    by_result (err e, w') k = k

edit-Quiet :
    (f : Run → Run) → ((run : Run) → (f run).email_attempt ≡ run.email_attempt) → Quiet (edit f)
edit-Quiet f h w = record { mail = h w.run; runs = refl; sent = refl; attempt = refl }

-- an action that is no send
pub record IsSilent (call : Call) : Type 0 where
  pub none_accepted : accepted_mails call ≡ 0
  pub confirms : Quiet (confirm_send call)

execute_stage-Quiet : (call : Call) → IsSilent call → Quiet (execute_stage call)
unfolding execute_stage
execute_stage-Quiet call s w =
    let none_accepted = s.none_accepted in
    record { mail = refl; runs = refl; sent = omega (arith, none_accepted); attempt = refl }

ended-Quiet : (call : Call) (message : String) → Quiet (ended call message)
unfolding ended
ended-Quiet call message w = record { mail = refl; runs = refl; sent = refl; attempt = refl }

Quiet->> :
    {A B : Type 0} (m : Action A) (next : Action B) → Quiet m → Quiet next → Quiet (m >> next)
Quiet->> m next hm hn = Quiet->>= m (λ a. next) hm (λ a. hn)

succeed-Quiet : (call : Call) (message : String) → IsSilent call → Quiet (succeed call message)
unfolding succeed
succeed-Quiet call message s =
    let confirmed_end =
      Quiet->> (confirm_send call) (ended call message) s.confirms (ended-Quiet call message) in
    let edited_end =
      Quiet->> (edit (overridden call)) (confirm_send call >> ended call message)
        (edit-Quiet (overridden call) (overridden_mail call)) confirmed_end in
    Quiet->> (collect_again call)
      (edit (overridden call) >> (confirm_send call >> ended call message))
      (collect_again-Kept call) edited_end

conclude-Quiet :
    (call : Call) (outcome : Bool × String) → IsSilent call → Quiet (conclude call outcome)
conclude-Quiet call (true, message) s w = succeed-Quiet call message s w
conclude-Quiet call (false, message) s w = record {
  mail = refl;
  runs = refl;
  sent = refl;
  attempt = refl;
}

pub staged-Quiet : (call : Call) → IsSilent call → Quiet (staged call)
unfolding staged
staged-Quiet call s =
    Quiet->>= (execute_stage call) (after_report call) (execute_stage-Quiet call s) (λ report.
      Quiet->> (edit (apply_report call.outside call.action report))
        (conclude call (stage_result call.outside.show call.action report))
        (edit-Quiet (apply_report call.outside call.action report)
          (λ run. unfold apply_report in refl))
        (conclude-Quiet call (stage_result call.outside.show call.action report) s))
