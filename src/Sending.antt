-- ===== src/Sending.antt =====
-- zdrovena/common/send_attempt.py: an email is sent once, although a crash may hide what happened. Times
-- are points on one clock, in microseconds. A `started_at` text that does not parse is `unreadable`.
pub mod Once
use Prim.Native.String.{◌∷◌ as str_cons}
use zdrovena_reconciliation.Prelude.{
  ℕ, ◌+◌, ◌-◌, suc, zero, String, Bool, true, false, ◌||◌, Option, none, some, List, [], ◌∷◌, ltb,
  str_eq, if◌then◌else◌,
}
use zdrovena_reconciliation.Prelude.Result.{Result, ok, err}
use zdrovena_reconciliation.Prelude.Dict.{Dict}

-- `unlisted` is any other text that a stored attempt may hold
pub data State : Type 0 where
  pending unknown confirmed failed : State
  unlisted : String → State

pub data Timestamp : Type 0 where
  instant : ℕ → Timestamp
  unreadable : String → Timestamp

pub record SendAttempt : Type 0 where
  pub id : String
  pub state : State
  pub fingerprint : String
  pub started_at : Timestamp
  pub settled_at : Option ℕ
  pub error : Option String
  pub provider_message_id : Option String
  pub resolved_by : Option String
  pub resolution_note : Option String
  pub extra : Dict String

-- `SendAttemptError`, with the operation that was refused
pub data SendAttemptError : Type 0 where
  cannot_confirm cannot_fail cannot_resolve : State → SendAttemptError

-- `timedelta(minutes=10)`
abbrev pub default_stale_after : ℕ
default_stale_after = 600000000

-- `text[:n]`
unfoldable pub truncate : ℕ → String → String
truncate zero s = String.[]
truncate (suc n) String.[] = String.[]
truncate (suc n) (String.◌∷◌ c s) = String.◌∷◌ c (truncate n s)

-- the uuid, the digest of what is sent and the time are the caller's
unfoldable pub begin : String → String → ℕ → SendAttempt
begin uuid digest now = record {
  id = uuid;
  state = pending;
  fingerprint = digest;
  started_at = instant now;
  settled_at = none;
  error = none;
  provider_message_id = none;
  resolved_by = none;
  resolution_note = none;
  extra = [];
}

-- `x or y` of texts that may be missing
abbrev or_text : Option String → Option String → Option String
or_text none y = y
or_text (some x) y = if str_eq x "" then y else some x

abbrev pub is_pending : State → Bool
is_pending pending = true
is_pending _ = false

abbrev pub is_open : State → Bool
is_open pending = true
is_open unknown = true
is_open _ = false

unfoldable pub confirm : ℕ → Option String → SendAttempt → Result SendAttemptError SendAttempt
confirm now provider_message_id attempt =
    if is_open attempt.state
    then ok (record attempt {
      state = confirmed;
      settled_at = some now;
      provider_message_id = or_text provider_message_id attempt.provider_message_id;
      error = none;
    })
    else err (cannot_confirm attempt.state)

unfoldable pub fail : ℕ → String → SendAttempt → Result SendAttemptError SendAttempt
unfolding truncate
fail now error attempt =
    if is_pending attempt.state
    then ok (record attempt {
      state = failed;
      settled_at = some now;
      error = some (truncate 500 error);
    })
    else err (cannot_fail attempt.state)

-- `now - started > stale_after`
abbrev pub is_stale : ℕ → ℕ → Timestamp → Bool
is_stale now stale_after (unreadable s) = true
is_stale now stale_after (instant started) = ltb (started + stale_after) now

unfoldable pub classify : ℕ → ℕ → Option SendAttempt → Option State
classify now stale_after none = none
classify now stale_after (some attempt) =
    if is_pending attempt.state
    then (if is_stale now stale_after attempt.started_at then some unknown else some pending)
    else some attempt.state

-- the three messages that an operator reads
pub data Reason : Type 0 where
  already_sent in_progress ambiguous : Reason

abbrev pub permission : Option State → Bool × Option Reason
permission none = (true, none)
permission (some failed) = (true, none)
permission (some confirmed) = (false, some already_sent)
permission (some pending) = (false, some in_progress)
permission (some unknown) = (false, some ambiguous)
permission (some (unlisted s)) = (false, some ambiguous)

unfoldable pub may_send : ℕ → ℕ → Option SendAttempt → Bool × Option Reason
unfolding classify
may_send now stale_after attempt = permission (classify now stale_after attempt)

abbrev default_note : Bool → String
default_note delivered =
    if delivered then "operator potwierdził dostarczenie" else "operator potwierdził brak wysyłki"

unfoldable pub resolve :
    ℕ → Bool → String → String → SendAttempt → Result SendAttemptError SendAttempt
unfolding truncate
resolve now delivered by note attempt =
    if is_open attempt.state
    then ok (record attempt {
      state = if delivered then confirmed else failed;
      settled_at = some now;
      resolved_by = some by;
      resolution_note = or_text (some (truncate 500 note)) (some (default_note delivered));
    })
    else err (cannot_resolve attempt.state)
