-- ===== src/Sending/Once.antt =====
-- The promise of send_attempt.py: no second message without a recorded refusal of the one before.
use zdrovena_reconciliation.Prelude.{
  ℕ, ◌+◌, ◌≤◌, ◌≡◌, refl, String, Bool, true, false, Option, none, some, List, [], ◌∷◌,
  if◌then◌else◌, arith,
}
use zdrovena_reconciliation.Prelude.Result.{Result, ok, err}
use zdrovena_reconciliation.Sending.{
  confirmed, failed, SendAttempt, SendAttemptError, already_sent, cannot_confirm, cannot_fail,
  cannot_resolve, begin, confirm, fail, classify, may_send, resolve,
}

-- What happens to one message: a sender asks whether it may send and starts if so (the uuid, the digest
-- and the time), an answer arrives, an operator decides. A crash is a sender that is not heard of again.
pub data Happening : Type 0 where
  asks : String → String → ℕ → Happening
  accepted : ℕ → Option String → Happening
  refused : ℕ → String → Happening
  decided : ℕ → Bool → String → String → Happening

-- the stored attempt, how many sends have started, and how many were recorded as not delivered
pub record Log : Type 0 where
  pub attempt : Option SendAttempt
  pub sends : ℕ
  pub not_delivered : ℕ

abbrev settle : Bool → Log → Result SendAttemptError SendAttempt → Log
settle undelivered log (err e) = log
settle undelivered log (ok attempt) = record log {
  attempt = some attempt;
  not_delivered = log.not_delivered + (if undelivered then 1 else 0);
}

abbrev on_attempt :
    (SendAttempt → Result SendAttemptError SendAttempt) → Bool → Log → Option SendAttempt → Log
on_attempt operation undelivered log none = log
on_attempt operation undelivered log (some attempt) = settle undelivered log (operation attempt)

unfoldable pub happen : ℕ → Happening → Log → Log
unfolding may_send begin confirm fail resolve
happen stale_after (asks uuid digest now) log =
    if (may_send now stale_after log.attempt).0
    then record log { attempt = some (begin uuid digest now); sends = log.sends + 1 }
    else log
happen stale_after (accepted now message_id) log =
    on_attempt (confirm now message_id) false log log.attempt
happen stale_after (refused now error) log = on_attempt (fail now error) true log log.attempt
happen stale_after (decided now delivered by note) log =
    on_attempt (resolve now delivered by note) (if delivered then false else true) log log.attempt

unfoldable pub history : ℕ → List Happening → Log → Log
unfolding happen
history stale_after [] log = log
history stale_after (h ∷ hs) log = history stale_after hs (happen stale_after h log)

-- one for a message that was, or may have been, accepted
abbrev pub outstanding : Option SendAttempt → ℕ
outstanding none = 0
outstanding (some attempt) = elim attempt.state [ failed ↦ 0 | _ ↦ 1 ]

abbrev pub IsBalanced : Log → Type 0
IsBalanced log = log.sends ≡ log.not_delivered + outstanding log.attempt

abbrev pub empty : Log
empty = record { attempt = none; sends = 0; not_delivered = 0 }

pub outstanding_le : (attempt : Option SendAttempt) → outstanding attempt ≤ 1
outstanding_le attempt = ground arith

happen-IsBalanced :
    (stale_after : ℕ) (h : Happening) (log : Log)
    → IsBalanced log
    → IsBalanced (happen stale_after h log)
unfolding happen may_send classify begin confirm fail resolve
happen-IsBalanced stale_after h log b = ground arith

history-IsBalanced :
    (stale_after : ℕ) (hs : List Happening) (log : Log)
    → IsBalanced log
    → IsBalanced (history stale_after hs log)
unfolding history
history-IsBalanced stale_after [] log b = b
history-IsBalanced stale_after (h ∷ hs) log b =
    history-IsBalanced stale_after hs (happen stale_after h log)
      (happen-IsBalanced stale_after h log b)

-- Whatever senders, answers, crashes, clocks and operators do, in any order, every send that has started
-- is either recorded as not delivered or is the one attempt that is stored as pending, unknown or
-- confirmed: so one more message than those recorded as not delivered goes out at most.
pub sends_once :
    (stale_after : ℕ) (hs : List Happening)
    → let log = history stale_after hs empty in
      (log.sends ≡ log.not_delivered + outstanding log.attempt)
      × (log.sends ≤ log.not_delivered + 1)
sends_once stale_after hs =
    let log = history stale_after hs empty in
    let b = history-IsBalanced stale_after hs empty refl in
    let o = outstanding_le log.attempt in (b, omega arith)

-- A sender's permission never comes back by waiting: who may not send now, for any reason, may not send
-- at any later time while the attempt is the same.
pub may_send_later :
    (now later stale_after : ℕ) (attempt : Option SendAttempt)
    → (may_send now stale_after attempt).0 ≡ false
    → (may_send later stale_after attempt).0 ≡ false
unfolding may_send classify
may_send_later now later stale_after attempt h = ground arith

-- A sent message stays sent: from a confirmed attempt every operation raises, and no send is permitted.
pub confirmed_final :
    (now stale_after : ℕ) (message_id : Option String) (error by note : String) (delivered : Bool)
    (attempt : SendAttempt)
    → attempt.state ≡ confirmed
    → (confirm now message_id attempt ≡ err (cannot_confirm confirmed))
      × (fail now error attempt ≡ err (cannot_fail confirmed))
      × (resolve now delivered by note attempt ≡ err (cannot_resolve confirmed))
      × (may_send now stale_after (some attempt) ≡ (false, some already_sent))
unfolding confirm fail resolve may_send classify
confirmed_final now stale_after message_id error by note delivered attempt h =
    (rw (h, confirm) refl, rw (h, fail) refl, rw (h, resolve) refl, rw (h, may_send, classify) refl)
