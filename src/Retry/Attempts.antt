-- ===== src/Retry/Attempts.antt =====
-- How often `retry_request` asks, how often it waits, and what it returns.
use zdrovena_reconciliation.Prelude.{
  ℕ, zero, suc, ◌+◌, ◌-◌, ◌*◌, ◌≡◌, refl, ap, String, Bool, true, false, min, ltb, lt→ltb, sym,
  subst, ◌∙◌, Option, none, some, arith, ◌==◌, inl, inr, Bool-cases,
}
use zdrovena_reconciliation.Prelude.Result.{Result, ok, err}
use zdrovena_reconciliation.Retry.{
  RequestFailure, Reply, replied, request_failed, broke, RetryError, gave_up, propagated, Session,
  on_reply, attempts_from, retry_request,
}

-- a session that answers by a script, and records its requests and the waits
pub record Log : Type 0 where
  pub sent : ℕ
  pub waits : ℕ

abbrev pub scripted : {A : Type 0} → (ℕ → Reply A) → (ℕ → ℕ) → Session Log A
scripted script clock = record {
  request = λ log. (script log.sent, record log { sent = log.sent + 1 });
  now = λ log. clock log.sent;
  sleep = λ t log. record log { waits = log.waits + 1 };
}

-- a failed request before `n` others
abbrev counted : {A : Type 0} → Reply A → ℕ → ℕ
counted (request_failed f) n = suc n
counted (replied a) n = 0
counted (broke e) n = 0

-- the requests that fail at the start of a script, of the `left` from `first` on
pub failures : {A : Type 0} → (ℕ → Reply A) → ℕ → ℕ → ℕ
failures script first zero = 0
failures script first (suc left) =
    let rest = failures script (first + 1) left in counted (script first) rest

-- what a reply that is no `RequestException` makes of the function
abbrev IsOutcome : {A : Type 0} → Reply A → Result RetryError A → Type 0
IsOutcome (replied a) r = r ≡ ok a
IsOutcome (broke e) r = r ≡ err (propagated e)
IsOutcome (request_failed f) r = ⊥

abbrev IsGivenUp : {A : Type 0} → Result RetryError A → Type 0
IsGivenUp r = (last : Option RequestFailure) × (r ≡ err (gave_up last))

-- the outcome of the first reply that is no failure, where there is one within the attempts
abbrev IsAnswer : {A : Type 0} → Bool → Reply A → Result RetryError A → Type 0
IsAnswer true reply r = IsOutcome reply r
IsAnswer false reply r = IsGivenUp r

module _ (number_of date_of : String → Option ℕ) (jitter clock : ℕ → ℕ) {A : Type 0}
    (script : ℕ → Reply A) where
  -- with `left` attempts, of which the first `n` fail
  pub Ends : ℕ → ℕ → Log → Result RetryError A × Log → Type 0
  Ends left n log (r, after) =
      (after.sent ≡ log.sent + min (n + 1) left)
      × (after.waits ≡ log.waits + min n (left - 1))
      × IsAnswer (ltb n left) (script (log.sent + n)) r

  abbrev run : ℕ → ℕ → Option RequestFailure → Log → Result RetryError A × Log
  run = attempts_from number_of date_of (scripted script clock) jitter

  answered-IsAnswer :
      (left : ℕ) (log : Log) (reply : Reply A) (r : Result RetryError A)
      → script log.sent ≡ reply
      → IsOutcome reply r
      → IsAnswer (ltb 0 (suc left)) (script (log.sent + 0)) r
  answered-IsAnswer left log reply r e o =
      let f : script (log.sent + 0) ≡ reply = ap script (omega arith) ∙ e in
      rw (lt→ltb 0 (suc left) (omega arith)) (subst (λ x. IsOutcome x r) (sym f) o)

  failed-IsAnswer :
      (left n sent : ℕ) (r : Result RetryError A)
      → IsAnswer (ltb n left) (script (sent + 1 + n)) r
      → IsAnswer (ltb (suc n) (suc left)) (script (sent + suc n)) r
  failed-IsAnswer left n sent r h =
      let e : ltb (suc n) (suc left) ≡ ltb n left = ground arith in
      let f : script (sent + suc n) ≡ script (sent + 1 + n) = ap script (omega arith) in rw (e, f) h

  on_reply-Ends :
      (left delay : ℕ) (log : Log) (reply : Reply A)
      → script log.sent ≡ reply
      → ((delay' : ℕ) (last : Option RequestFailure) (log' : Log)
          → Ends left (failures script log'.sent left) log' (run left delay' last log'))
      → Ends (suc left) (counted reply (failures script (log.sent + 1) left)) log (
          on_reply number_of date_of
            (scripted script clock)
            jitter
            (run left)
            left
            delay
            reply
            (record log { sent = log.sent + 1 }))
  unfolding on_reply Ends
  on_reply-Ends left delay log (replied a) e h =
      (omega arith, omega arith, answered-IsAnswer left log (replied a) (ok a) e refl)
  on_reply-Ends left delay log (broke x) e h =
      (omega arith, omega arith, answered-IsAnswer left log (broke x) (err (propagated x)) e refl)
  on_reply-Ends left delay log (request_failed f) e h = elim (Bool-cases (left == 0)) [
    | inl g ↦
        let (sent, waits, answer) = h delay (some f) (record log { sent = log.sent + 1 }) in
        rw g (
          omega (arith, sent),
          ground (arith, waits),
          failed-IsAnswer left (failures script (log.sent + 1) left) log.sent _ answer,
        )
    | inr g ↦
        let (sent, waits, answer) =
          h (delay * 2) (some f) (record log { sent = log.sent + 1; waits = log.waits + 1 }) in
        rw g (
          omega (arith, sent),
          ground (arith, waits),
          failed-IsAnswer left (failures script (log.sent + 1) left) log.sent _ answer,
        )
  ]

  run-Ends :
      (left delay : ℕ) (last : Option RequestFailure) (log : Log)
      → Ends left (failures script log.sent left) log (run left delay last log)
  unfolding attempts_from failures Ends
  run-Ends zero delay last log = (omega arith, omega arith, (last, refl))
  run-Ends (suc left) delay last log =
      on_reply-Ends left delay log (script log.sent) refl (run-Ends left)

  -- `retry_request` ends, whatever the session answers. It asks until the first request that does not
  -- fail, or until `max_retries` requests have failed; it waits once between two requests and never
  -- after the last. It returns what that first request came to, and where all failed it gives up
  -- with its own error.
  pub retry_request-Ends :
      (max_retries initial_delay : ℕ)
      → Ends max_retries
          (failures script 0 max_retries)
          (record { sent = 0; waits = 0 })
          (retry_request number_of date_of
            (scripted script clock)
            jitter
            max_retries
            initial_delay
            (record { sent = 0; waits = 0 }))
  unfolding retry_request
  retry_request-Ends max_retries initial_delay =
      run-Ends max_retries initial_delay none (record { sent = 0; waits = 0 })
