-- ===== src/MonthClosing/RunStore/Update.antt =====
-- A change of a run by read, change and write is one step of the store, as long as the others write with
-- the revision that they read. The saves of the program that name no revision are outside: the attempt
-- of a send (workflow.py:339), its resolution (workflow.py:486) and, inside `get_or_create` and `reset`,
-- the save between whose lock and the read's another writer may come (run_store.py:240-275).
use zdrovena_reconciliation.Prelude.{ℕ, ◌≡◌, ◌⊎◌, String, some}
use zdrovena_reconciliation.Prelude.Result.{Result, ok, err}
use zdrovena_reconciliation.Prelude.Dict.{lookup, insert}
use zdrovena_reconciliation.MonthClosing.Run.{Run}
use zdrovena_reconciliation.MonthClosing.RunStore.{
  Runs, RunError, conflict, Caller, Period, save, get_or_create, reset, try_claim, bumped,
}
use zdrovena_reconciliation.MonthClosing.RunStore.Revisions.{
  IsLater, IsLater-refl, IsLater-trans, save-IsLater, get_or_create-IsLater, reset-IsLater,
  try_claim-IsLater,
}

-- The writes of others that the theorems below allow, for any period. A `save` names the revision that
-- its copy was read with: one without a revision, as workflow.py has for the attempt of a send, is none
-- of these. A takeover by `get_or_create` and a `reset` are one step here, where the source reads under
-- one lock and writes under the next, unconditionally.
pub data Write (runs after : Runs) : Type 0 where
  saves :
      (now : ℕ) (key : String) (run : Run)
      → after ≡ (save now key (some run.rev) run runs).1
      → Write runs after
  opens : (c : Caller) (p : Period) → after ≡ (get_or_create c p runs).1 → Write runs after
  resets : (c : Caller) (p : Period) → after ≡ (reset c p runs).1 → Write runs after
  claims :
      (c : Caller) (p : Period) (action : String)
      → after ≡ (try_claim c p action runs).1
      → Write runs after

pub data Writes (runs : Runs) : Runs → Type 0 where
  here : Writes runs runs
  next : {mid after : Runs} → Writes runs mid → Write mid after → Writes runs after

Write-IsLater :
    (k : String) (runs after : Runs) → Write runs after → IsLater (lookup k runs) (lookup k after)
Write-IsLater k runs after (saves now key run e) = rw e (save-IsLater k now key run runs)
Write-IsLater k runs after (opens c p e) = rw e (get_or_create-IsLater k c p runs)
Write-IsLater k runs after (resets c p e) = rw e (reset-IsLater k c p runs)
Write-IsLater k runs after (claims c p action e) = rw e (try_claim-IsLater k c p action runs)

pub Writes-IsLater :
    (k : String) {runs after : Runs} → Writes runs after → IsLater (lookup k runs) (lookup k after)
Writes-IsLater k {runs} here = IsLater-refl (lookup k runs)
Writes-IsLater k {runs} (next {mid} {after} ws w) =
    IsLater-trans (lookup k runs) (lookup k mid) (lookup k after) (Writes-IsLater k ws)
      (Write-IsLater k mid after w)

-- what becomes of a copy that is written back
abbrev pub IsSaved : ℕ → String → Run → Run → Runs → Result RunError Run × Runs → Type 0
IsSaved now key run edited after outcome =
    ((lookup key after ≡ some run)
      × (outcome ≡ (ok (bumped now edited), insert key (bumped now edited) after)))
    ⊎ (outcome ≡ (err conflict, after))

-- the change took effect on a store that the others had left
pub record Applied (p : Period) (mutate : Run → Result RunError Run) (runs : Runs) (saved : Run)
    (after : Runs) : Type 0 where
  pub at : Runs
  pub current : Run
  pub edited : Run
  pub now : ℕ
  pub reached : Writes runs at
  pub stored : lookup p.key at ≡ some current
  pub mutated : mutate current ≡ ok edited
  pub saved_run : saved ≡ bumped now edited
  pub saved_runs : after ≡ insert p.key saved at

abbrev pub IsApplied :
    Period → (Run → Result RunError Run) → Runs → Result RunError Run × Runs → Type 0
IsApplied p mutate runs (ok saved, after) = Applied p mutate runs saved after
IsApplied p mutate runs (err e, after) = Writes runs after
