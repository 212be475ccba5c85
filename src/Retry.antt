-- ===== src/Retry.antt =====
-- zdrovena/common/retry.py: a request that is repeated while it fails. Times are whole numbers of a
-- unit that is small enough; the session, the clock, the random jitter and Python's readers of a number
-- and of a date are arguments. A negative Retry-After counts as 0, which `max` with the delay makes of
-- it in the source.
pub mod Attempts
use zdrovena_reconciliation.Prelude.{
  ℕ, zero, suc, ◌+◌, ◌-◌, ◌*◌, max, String, Bool, true, false, ◌||◌, Option, none, some, List, [],
  ◌∷◌, ◌==◌, str_eq, if◌then◌else◌,
}
use zdrovena_reconciliation.Prelude.Result.{Result, ok, err}

-- a `RequestException`: its response's status and Retry-After header, where it has a response
pub record RequestFailure : Type 0 where
  pub status : Option ℕ
  pub retry_after : Option String
  pub message : String

-- what a request comes to; any other exception leaves the function
pub data Reply (A : Type 0) : Type 0 where
  replied : A → Reply A
  request_failed : RequestFailure → Reply A
  broke : String → Reply A

pub data RetryError : Type 0 where
  gave_up : Option RequestFailure → RetryError
  propagated : String → RetryError

abbrev is_retryable : ℕ → Bool
is_retryable status =
    status == 408 || status == 429 || status == 502 || status == 503 || status == 504

-- the session, its clock, and a sleep
pub record Session (S A : Type 0) : Type 0 where
  pub request : S → Reply A × S
  pub now : S → ℕ
  pub sleep : ℕ → S → S

module _ (number_of date_of : String → Option ℕ) where
  pub parse_retry_after : ℕ → String → Option ℕ
  parse_retry_after now text = elim (number_of text) [
    | some seconds ↦ some seconds
    | none ↦ elim (date_of text) [ none ↦ none | some at ↦ some (at - now) ]
  ]

  abbrev by_header : ℕ → ℕ → Option String → ℕ
  by_header now delay none = delay
  by_header now delay (some text) =
      if str_eq text ""
      then delay
      else elim (parse_retry_after now text) [ none ↦ delay | some parsed ↦ max parsed delay ]

  -- how long to wait, before the jitter
  unfoldable pub wait_after : ℕ → ℕ → RequestFailure → ℕ
  unfolding parse_retry_after
  wait_after now delay failure = elim failure.status [
    | none ↦ delay
    | some status ↦ if is_retryable status then by_header now delay failure.retry_after else delay
  ]

  module _ {S A : Type 0} (session : Session S A) (jitter : ℕ → ℕ) where
    -- what one reply leads to, with so many attempts left after it; `again` is the rest of the loop
    pub on_reply :
        (ℕ → Option RequestFailure → S → Result RetryError A × S)
        → ℕ
        → ℕ
        → Reply A
        → S
        → Result RetryError A × S
    unfolding wait_after
    on_reply again left delay (replied a) s = (ok a, s)
    on_reply again left delay (broke e) s = (err (propagated e), s)
    on_reply again left delay (request_failed f) s =
        if left == 0
        then again delay (some f) s
        else again (delay * 2) (some f)
            (session.sleep (jitter (wait_after (session.now s) delay f)) s)

    -- the loop, with so many attempts left
    pub attempts_from : ℕ → ℕ → Option RequestFailure → S → Result RetryError A × S
    unfolding on_reply
    attempts_from zero delay last s = (err (gave_up last), s)
    attempts_from (suc left) delay last s =
        let again = attempts_from left in
        let (reply, s') = session.request s in on_reply again left delay reply s'

    unfoldable pub retry_request : ℕ → ℕ → S → Result RetryError A × S
    unfolding attempts_from
    retry_request max_retries initial_delay s = attempts_from max_retries initial_delay none s
