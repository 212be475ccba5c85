-- ===== src/MonthClosing/Stage/Mail.antt =====
-- What the `try` body does to the message that may have gone out.
use zdrovena_reconciliation.Prelude.{
  ℕ, ◌+◌, ◌≤◌, ◌≡◌, refl, sym, ap, subst, String, Bool, true, false, Option, none, some, inl, inr,
  Bool-cases, Option-cases, arith,
}
use zdrovena_reconciliation.Prelude.Result.{Result, ok, err}
use zdrovena_reconciliation.Prelude.Dict.{lookup, lookup-insert_self}
use zdrovena_reconciliation.Sending.{
  SendAttempt, begin, confirm, classify, may_send, default_stale_after,
}
use zdrovena_reconciliation.Sending.Once.{outstanding}
use zdrovena_reconciliation.MonthClosing.Run.{
  StepId, check, sales, costs, reports, bank, package_step, send,
}
use zdrovena_reconciliation.MonthClosing.RunStore.{bumped, save}
use zdrovena_reconciliation.MonthClosing.Gates.{validate_action}
use zdrovena_reconciliation.MonthClosing.Outside.{
  Report, Attempt, no_attempt, Working, ◌>>◌, Raised, exception, died,
}
use zdrovena_reconciliation.MonthClosing.Reports.{apply_report, stage_result, find_package}
use zdrovena_reconciliation.MonthClosing.Stage.{
  Call, refresh_inputs, prerequisite_error, begin_send, begin_attempt, execute_stage, collect_again,
  overridden, confirmed_attempt, confirm_send, ended, succeed, conclude, staged, run_stage,
  start_or_block, inspect_only, body, accepted_mails, attempt_of,
}
use zdrovena_reconciliation.MonthClosing.Stage.Quiet.{
  IsSilent, refresh_inputs-Kept, inspect_only-Kept, overridden_mail, staged-Quiet, >>-ok,
}
use zdrovena_reconciliation.MonthClosing.Stage.Ends.{
  outstanding_in, is_begun, IsCovered, Ends, Ends->>=, Kept-Ends, is_refused, IsHonest,
}

module _ (forgiven : ℕ) (call : Call) (honest : IsHonest call.outside) where
  abbrev sending : Call
  sending = record call { action = send }

  -- a send that has begun: its attempt is the run's own and the stored one
  record IsPending (w : Working) : Type 0 where
    by_run : outstanding w.run.email_attempt ≡ 1
    by_stored : outstanding_in (lookup call.period.key w.runs) ≡ 1
    sent_one : w.sent ≤ forgiven + 1

  pending-IsCovered : (w : Working) → IsPending w → IsCovered forgiven call.period.key w
  pending-IsCovered w p = record {
    by_run = omega (arith, p.by_run, p.sent_one);
    by_stored = omega (arith, p.by_stored, p.sent_one);
  }

  begin_send-IsPending : (w : Working) → w.sent ≤ forgiven → IsPending (begin_send sending w)
  unfolding begin_send begin save
  begin_send-IsPending w h = record {
    by_run = refl;
    by_stored = rw (
        lookup-insert_self call.period.key
          (bumped call.caller.now
            (record w.run { email_attempt = some (attempt_of sending w.run) }))
          w.runs);
    sent_one = omega arith;
  }

  confirmed_mail :
      (now : ℕ) (a : Attempt) (old : Option SendAttempt)
      → outstanding old ≡ 1
      → outstanding (confirmed_attempt now a old) ≡ 1
  unfolding confirm
  confirmed_mail now a old h = ground arith

  confirm_send-Ends :
      (w : Working) → IsPending w → Ends forgiven call.period.key (confirm_send sending w)
  unfolding confirm_send
  confirm_send-Ends w p = by_history call.outside.append_history honest.history_smtp
    where
      w' : Working
      w' = record w {
        run = record w.run {
          email_attempt = confirmed_attempt call.caller.now w.attempt w.run.email_attempt;
        };
      }

      covered : IsCovered forgiven call.period.key w'
      covered = pending-IsCovered w' (record {
        by_run = confirmed_mail call.caller.now w.attempt w.run.email_attempt p.by_run;
        by_stored = p.by_stored;
        sent_one = p.sent_one;
      })

      by_history :
          (r : Result Raised (Unit {0}))
          → is_refused r ≡ false
          → Ends forgiven call.period.key (r, w')
      by_history (ok u) h = covered
      by_history (err died) h = covered.by_stored
      by_history (err (exception smtp message)) h = (covered, λ s. cc)

  execute_stage-Ends :
      (w : Working)
      → w.sent ≤ forgiven
      → IsPending w
      → Ends forgiven call.period.key (execute_stage sending w)
  unfolding execute_stage
  execute_stage-Ends w h p = by_stage call.outside.execute_stage honest.refused_unsent
    where
      w' : Working
      w' = record w { sent = w.sent + accepted_mails sending }

      one_more : w'.sent ≤ forgiven + 1
      one_more = ground arith

      covered : IsCovered forgiven call.period.key w'
      covered =
          pending-IsCovered w'
            (record { by_run = p.by_run; by_stored = p.by_stored; sent_one = one_more })

      by_stage :
          (r : Result Raised Report)
          → (is_refused r ≡ true → call.outside.accepted ≡ false)
          → Ends forgiven call.period.key (r, w')
      by_stage (ok report) u = covered
      by_stage (err died) u = covered.by_stored
      by_stage (err (exception smtp message)) u = (covered, λ s b. rw (u s) (omega arith))

  report-IsPending :
      (w : Working) (report : Report)
      → w.sent ≤ forgiven
      → IsPending w
      → IsPending (record w {
        sent = w.sent + accepted_mails sending;
        run = apply_report call.outside send report w.run;
      })
  unfolding apply_report
  report-IsPending w report h p = record {
    by_run = p.by_run;
    by_stored = p.by_stored;
    sent_one = ground arith;
  }

  succeed_send-Ends :
      (message : String) (w : Working)
      → IsPending w
      → Ends forgiven call.period.key (succeed sending message w)
  unfolding succeed collect_again ended
  succeed_send-Ends message w p =
      let w' : Working = record w { run = overridden sending w.run } in
      let p' : IsPending w' = record {
        by_run = rw (overridden_mail sending w.run) p.by_run;
        by_stored = p.by_stored;
        sent_one = p.sent_one;
      } in
      Ends->>= forgiven call.period.key (confirm_send sending) (λ u. ended sending message) w'
        (confirm_send-Ends w' p')
        (λ u v q. subst (Ends forgiven call.period.key) q (confirm_send-Ends w' p'))

  conclude_send-Ends :
      (outcome : Bool × String) (w : Working)
      → IsPending w
      → Ends forgiven call.period.key (conclude sending outcome w)
  conclude_send-Ends (true, message) w p = succeed_send-Ends message w p
  conclude_send-Ends (false, message) w p = pending-IsCovered w p

  reported : Report → Working → Working
  reported report w = record w { run = apply_report call.outside send report w.run }

  run_stage_send-Ends :
      (w : Working) → w.sent ≤ forgiven → Ends forgiven call.period.key (run_stage sending w)
  unfolding run_stage begin_attempt staged reported
  run_stage_send-Ends w h =
      let w1 = begin_send sending w in
      let p1 = begin_send-IsPending w h in
      let same_sent : w1.sent ≡ w.sent = unfold begin_send in refl in
      let h1 : w1.sent ≤ forgiven = rw same_sent h in
      Ends->>= forgiven call.period.key (execute_stage sending)
        (λ report v.
          conclude sending (stage_result call.outside.show send report) (reported report v))
        w1 (execute_stage-Ends w1 h1 p1)
        (λ report w2 q.
          let moved : w2 ≡ record w1 { sent = w1.sent + accepted_mails sending } =
            unfold execute_stage in (sym (ap (λ (o : Result Raised Report × Working). o.1) q)) in
          rw moved (
            conclude_send-Ends (stage_result call.outside.show send report)
              (reported report (record w1 { sent = w1.sent + accepted_mails sending }))
              (report-IsPending w1 report h1 p1)))

  -- with no attempt that may have gone out, no message is outstanding
  permitted :
      (now stale_after : ℕ) (attempt : Option SendAttempt)
      → (may_send now stale_after attempt).0 ≡ true
      → outstanding attempt ≡ 0
  unfolding may_send classify
  permitted now stale_after attempt h = ground arith

  blocked-Ends :
      (reason : String) (w : Working)
      → IsCovered forgiven call.period.key w
      → Ends forgiven call.period.key (start_or_block call (some reason) w)
  blocked-Ends reason w c = record { by_run = c.by_run; by_stored = c.by_stored }

  start_send-Ends :
      (w : Working)
      → IsCovered forgiven call.period.key w
      → Ends forgiven call.period.key (start_or_block sending (prerequisite_error sending w.run) w)
  unfolding prerequisite_error
  start_send-Ends w c =
      elim (Option-cases
        (validate_action w.run send call.order.confirm call.order.override_reason)) [
          | inr (refusal, e) ↦
              rw (e, start_or_block) (record { by_run = c.by_run; by_stored = c.by_stored })
          | inl e ↦ elim (Option-cases (call.outside.verify (find_package w.run.artifacts))) [
            | inr (mismatch, v) ↦
                rw (e, start_or_block)
                  (rw (v, start_or_block) (record { by_run = c.by_run; by_stored = c.by_stored }))
            | inl v ↦
                elim (Bool-cases
                  (may_send call.caller.now default_stale_after w.run.email_attempt).0) [
                    | inr m ↦
                        rw (e, start_or_block)
                          (rw (v, start_or_block)
                            (rw (m, start_or_block)
                              (record { by_run = c.by_run; by_stored = c.by_stored })))
                    | inl m ↦
                        let unsent : w.sent ≤ forgiven = omega (
                          arith,
                          c.by_run,
                          permitted call.caller.now default_stale_after w.run.email_attempt m,
                        ) in
                        rw (e, start_or_block)
                          (rw (v, start_or_block)
                            (rw (m, start_or_block) (run_stage_send-Ends w unsent)))
                  ]
          ]
        ]

  abbrev at_action : StepId → Call
  at_action a = record call { action = a }

  silent_block-Ends :
      (a : StepId) (o : Option String) (w : Working)
      → IsSilent (at_action a)
      → ((v : Working) → begin_attempt (at_action a) v ≡ (ok tt, record v { attempt = no_attempt }))
      → IsCovered forgiven call.period.key w
      → Ends forgiven call.period.key (start_or_block (at_action a) o w)
  silent_block-Ends a (some reason) w s begins c = record {
    by_run = c.by_run;
    by_stored = c.by_stored;
  }
  silent_block-Ends a none w s begins c =
      let w1 : Working = record w { attempt = no_attempt } in
      unfold run_stage in
      (subst (Ends forgiven call.period.key)
        (sym (>>-ok (begin_attempt (at_action a)) (staged (at_action a)) w w1 (begins w)))
        (Kept-Ends forgiven call.period.key w1 (staged (at_action a) w1)
          (staged-Quiet (at_action a) s w1) refl
          (record { by_run = c.by_run; by_stored = c.by_stored })))

  refreshed-Ends :
      (a : StepId)
      → ((w : Working)
          → IsCovered forgiven call.period.key w
          → Ends forgiven call.period.key
              (start_or_block (at_action a) (prerequisite_error (at_action a) w.run) w))
      → (w : Working) → is_begun w.attempt ≡ false
      → IsCovered forgiven call.period.key w
      → Ends forgiven call.period.key (
          (refresh_inputs (at_action a) >> λ v.
          start_or_block (at_action a) (prerequisite_error (at_action a) v.run) v)
            w)
  refreshed-Ends a starts w u c =
      let refreshed =
        Kept-Ends forgiven call.period.key w (refresh_inputs (at_action a) w)
          (refresh_inputs-Kept (at_action a) w) u c in
      Ends->>= forgiven call.period.key (refresh_inputs (at_action a))
        (λ x v. start_or_block (at_action a) (prerequisite_error (at_action a) v.run) v) w refreshed
        (λ x w' q. starts w' (subst (Ends forgiven call.period.key) q refreshed))

  silent_body :
      (a : StepId)
      → IsSilent (at_action a)
      → ((v : Working) → begin_attempt (at_action a) v ≡ (ok tt, record v { attempt = no_attempt }))
      → (w : Working) → is_begun w.attempt ≡ false
      → IsCovered forgiven call.period.key w
      → Ends forgiven call.period.key (
          (refresh_inputs (at_action a) >> λ v.
          start_or_block (at_action a) (prerequisite_error (at_action a) v.run) v)
            w)
  silent_body a s begins =
      refreshed-Ends a
        (λ w c. silent_block-Ends a (prerequisite_error (at_action a) w.run) w s begins c)

  body_at :
      (a : StepId) (w : Working)
      → is_begun w.attempt ≡ false
      → IsCovered forgiven call.period.key w
      → Ends forgiven call.period.key (body (at_action a) w)
  unfolding body begin_attempt confirm_send
  body_at check w u c =
      Kept-Ends forgiven call.period.key w (inspect_only (at_action check) w)
        (inspect_only-Kept (at_action check) w) u c
  body_at sales w u c =
      silent_body sales
        (record {
          none_accepted = refl;
          confirms = λ v. record { mail = refl; runs = refl; sent = refl; attempt = refl };
        })
        (λ v. refl) w u c
  body_at costs w u c =
      silent_body costs
        (record {
          none_accepted = refl;
          confirms = λ v. record { mail = refl; runs = refl; sent = refl; attempt = refl };
        })
        (λ v. refl) w u c
  body_at reports w u c =
      silent_body reports
        (record {
          none_accepted = refl;
          confirms = λ v. record { mail = refl; runs = refl; sent = refl; attempt = refl };
        })
        (λ v. refl) w u c
  body_at bank w u c =
      silent_body bank
        (record {
          none_accepted = refl;
          confirms = λ v. record { mail = refl; runs = refl; sent = refl; attempt = refl };
        })
        (λ v. refl) w u c
  body_at package_step w u c =
      silent_body package_step
        (record {
          none_accepted = refl;
          confirms = λ v. record { mail = refl; runs = refl; sent = refl; attempt = refl };
        })
        (λ v. refl) w u c
  body_at send w u c = refreshed-Ends send start_send-Ends w u c

pub body-Ends :
    (forgiven : ℕ) (call : Call)
    → IsHonest call.outside
    → (w : Working) → is_begun w.attempt ≡ false
    → IsCovered forgiven call.period.key w
    → Ends forgiven call.period.key (body call w)
body-Ends forgiven call honest w u c = body_at forgiven call honest call.action w u c
