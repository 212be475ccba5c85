-- ===== src/MonthClosing/Workflow/Stuck.antt =====
-- A send whose inspection fails before its attempt begins: the handler of the exception fails as well.
use zdrovena_reconciliation.Prelude.{◌≡◌, ap, String, Bool, true}
use zdrovena_reconciliation.Prelude.Result.{Result, ok, err}
use zdrovena_reconciliation.MonthClosing.Run.{Run, step_name, send}
use zdrovena_reconciliation.MonthClosing.RunStore.{Runs, try_claim}
use zdrovena_reconciliation.MonthClosing.Gates.{is_done}
use zdrovena_reconciliation.MonthClosing.Outside.{Raised, exception, Working, Ending, Action, ◌>>=◌}
use zdrovena_reconciliation.MonthClosing.Stage.{
  Call, body, refresh_inputs, should_refresh, start_or_block, prerequisite_error,
}
use zdrovena_reconciliation.MonthClosing.Workflow.{
  World, unbound_attempt, on_exception, claimed_working, perform,
}

>>=-err :
    {A B : Type 0} {e : Raised} (m : Action A) (next : A → Action B) (w w' : Working)
    → m w ≡ (err e, w')
    → (m >>= next) w ≡ (err e, w')
>>=-err {A = A} {B = B} m next w w' e = ap continue e
  where
    continue : Result Raised A × Working → Result Raised B × Working
    continue (r, v) = elim r [ err e ↦ (err e, v) | ok a ↦ next a v ]

module _ (call : Call) (smtp : Bool) (message : String) where
  abbrev sending : Call
  sending = record call { action = send }

  refresh_stuck :
      (w : Working)
      → should_refresh send call.order w.run ≡ true
      → call.outside.inspect ≡ err (exception smtp message)
      → refresh_inputs sending w ≡ (err (exception smtp message), w)
  unfolding refresh_inputs
  refresh_stuck w s e = rw (s, refresh_inputs) (rw (e, refresh_inputs))

  body_stuck :
      (w : Working)
      → should_refresh send call.order w.run ≡ true
      → call.outside.inspect ≡ err (exception smtp message)
      → body sending w ≡ (err (exception smtp message), w)
  unfolding body
  body_stuck w s e =
      let started : Unit {0} → Action Ending =
        λ u v. start_or_block sending (prerequisite_error sending v.run) v in
      >>=-err (refresh_inputs sending) started w w (refresh_stuck w s e)

  -- A confirmed send that wins the claim of a period whose package is built, and whose inspection then
  -- raises an exception, ends in an error of the handler itself: no result of the step is stored, and the
  -- run stays claimed as the claim has left it.
  pub perform_stuck :
      (world : World) (claimed : Run) (runs : Runs)
      → call.order.confirm ≡ true
      → try_claim call.caller call.period (step_name send) world.runs ≡ (ok claimed, runs)
      → is_done claimed.steps.package_step.status ≡ true
      → call.outside.inspect ≡ err (exception smtp message)
      → perform (record call { action = send }) world
        ≡ (err unbound_attempt, record { runs = runs; sent = world.sent })
  unfolding perform on_exception
  perform_stuck world claimed runs c t d e =
      let refreshed : should_refresh send call.order claimed ≡ true = rw (c, d) in
      rw t (rw (body_stuck (claimed_working world claimed runs) refreshed e))
