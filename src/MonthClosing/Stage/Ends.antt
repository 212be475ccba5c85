-- ===== src/MonthClosing/Stage/Ends.antt =====
-- How the `try` body may end, for the message that may have gone out.
use zdrovena_reconciliation.Prelude.{
  ℕ, ◌+◌, ◌≤◌, ◌≡◌, refl, String, Bool, true, false, Option, none, some,
}
use zdrovena_reconciliation.Prelude.Result.{Result, ok, err}
use zdrovena_reconciliation.Prelude.Dict.{lookup}
use zdrovena_reconciliation.Sending.Once.{outstanding}
use zdrovena_reconciliation.MonthClosing.Run.{Run}
use zdrovena_reconciliation.MonthClosing.Outside.{
  Outside, Attempt, begun, Working, Action, ◌>>=◌, Raised, exception, died,
}
use zdrovena_reconciliation.MonthClosing.Stage.Quiet.{Kept}

-- what the body leaves behind: with `forgiven` messages recorded as not delivered, each message that went
-- out is among those or is the run's own attempt; and no message went out beyond those that are
-- forgiven where the mail server refused it.
abbrev pub outstanding_in : Option Run → ℕ
outstanding_in none = 0
outstanding_in (some run) = outstanding run.email_attempt

abbrev pub is_begun : Attempt → Bool
is_begun (begun a) = true
is_begun _ = false

pub record IsCovered (forgiven : ℕ) (key : String) (w : Working) : Type 0 where
  pub by_run : w.sent ≤ forgiven + outstanding w.run.email_attempt
  pub by_stored : w.sent ≤ forgiven + outstanding_in (lookup key w.runs)

pub Kept-IsCovered :
    (forgiven : ℕ) (key : String) (w w' : Working)
    → Kept w w'
    → IsCovered forgiven key w
    → IsCovered forgiven key w'
Kept-IsCovered forgiven key w w' k c = record {
  by_run = rw (k.sent, k.mail) c.by_run;
  by_stored = rw (k.sent, k.runs) c.by_stored;
}

abbrev pub Ends : {A : Type 0} → ℕ → String → Result Raised A × Working → Type 0
Ends forgiven key (ok a, w) = IsCovered forgiven key w
Ends forgiven key (err died, w) = w.sent ≤ forgiven + outstanding_in (lookup key w.runs)
Ends forgiven key (err (exception smtp message), w) =
    IsCovered forgiven key w × (smtp ≡ true → is_begun w.attempt ≡ true → w.sent ≤ forgiven)

pub Ends->>= :
    {A B : Type 0} (forgiven : ℕ) (key : String) (m : Action A) (next : A → Action B) (w : Working)
    → Ends forgiven key (m w)
    → ((a : A) (w' : Working) → m w ≡ (ok a, w') → Ends forgiven key (next a w'))
    → Ends forgiven key ((m >>= next) w)
Ends->>= {A = A} {B = B} forgiven key m next w h k = by_result (m w) refl h
  where
    continue : Result Raised A × Working → Result Raised B × Working
    continue (r, w') = elim r [ err e ↦ (err e, w') | ok a ↦ next a w' ]

    by_result :
        (o : Result Raised A × Working)
        → m w ≡ o
        → Ends forgiven key o
        → Ends {A = B} forgiven key (continue o)
    by_result (ok a, w') q h = k a w' q
    by_result (err died, w') q h = h
    by_result (err (exception smtp message), w') q h = h

pub Kept-Ends :
    {A : Type 0} (forgiven : ℕ) (key : String) (w : Working) (o : Result Raised A × Working)
    → Kept w o.1
    → is_begun w.attempt ≡ false
    → IsCovered forgiven key w
    → Ends forgiven key o
Kept-Ends forgiven key w (ok a, w') k u c = Kept-IsCovered forgiven key w w' k c
Kept-Ends forgiven key w (err died, w') k u c = (Kept-IsCovered forgiven key w w' k c).by_stored
Kept-Ends forgiven key w (err (exception smtp message), w') k u c = (
  Kept-IsCovered forgiven key w w' k c,
  λ s b. let f : is_begun w.attempt ≡ true = rw k.attempt at b in cc,
)

-- the mail server's own refusal means that it did not accept the message, and the history raises no such refusal
abbrev pub is_refused : {A : Type 0} → Result Raised A → Bool
is_refused (err (exception smtp message)) = smtp
is_refused _ = false

pub record IsHonest (outside : Outside) : Type 0 where
  pub refused_unsent : is_refused outside.execute_stage ≡ true → outside.accepted ≡ false
  pub history_smtp : is_refused outside.append_history ≡ false
