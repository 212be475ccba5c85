-- ===== src/MonthClosing/RunStore/Revisions.antt =====
-- Revisions of the stored runs: every write but a save that names none raises them, so a copy that others have
-- overtaken cannot be written back.
use zdrovena_reconciliation.Prelude.{
  ℕ, ◌<◌, ◌≡◌, ◌⊎◌, refl, ap, String, true, false, Option, none, some, str_eq, eq_iff, inl, inr,
  Bool-cases, Option-cases, arith,
}
use zdrovena_reconciliation.Prelude.Result.{ok, err}
use zdrovena_reconciliation.Prelude.Dict.{lookup, insert, lookup-insert_self, lookup-insert_ne}
use zdrovena_reconciliation.MonthClosing.Run.{StepId, Run, read_step}
use zdrovena_reconciliation.MonthClosing.RunStore.{
  Runs, conflict, Caller, Period, is_active_stale, has_moved_on, save, get_or_create, reset,
  try_claim, claim, claimed_run, or_fresh, bumped, fresh_run, abandoned, stored_rev,
}

-- the same run, or one of a higher revision
abbrev pub IsLater : Option Run → Option Run → Type 0
IsLater none after = Unit
IsLater (some run) none = ⊥
IsLater (some run) (some run') = (run ≡ run') ⊎ (run.rev < run'.rev)

pub IsLater-refl : (run : Option Run) → IsLater run run
IsLater-refl none = tt
IsLater-refl (some run) = inl refl

pub IsLater-trans : (a b c : Option Run) → IsLater a b → IsLater b c → IsLater a c
IsLater-trans none b c h k = tt
IsLater-trans (some a) none c h k = elim h [ ]
IsLater-trans (some a) (some b) none h k = elim k [ ]
IsLater-trans (some a) (some b) (some c) (inl e) k = rw e k
IsLater-trans (some a) (some b) (some c) (inr l) (inl e) =
    inr (ground (arith, ap (λ (r : Run). r.rev) e))
IsLater-trans (some a) (some b) (some c) (inr l) (inr m) = inr (omega arith)

-- a write that raises the revision of what is stored under its key
insert-IsLater :
    (k q : String) (run : Run) (runs : Runs)
    → ((old : Run) → lookup q runs ≡ some old → old.rev < run.rev)
    → IsLater (lookup k runs) (lookup k (insert q run runs))
insert-IsLater k q run runs h = elim (Bool-cases (str_eq k q)) [
  | inl e ↦ rw ((eq_iff k q).0 e) (rw (lookup-insert_self q run runs) (raised (lookup q runs) h))
  | inr e ↦ rw (lookup-insert_ne q k run runs e) (IsLater-refl (lookup k runs))
]
  where
    raised :
        (o : Option Run) → ((old : Run) → o ≡ some old → old.rev < run.rev) → IsLater o (some run)
    raised none g = tt
    raised (some old) g = inr (g old refl)

-- what `save` does, by what is stored
save_absent :
    (now : ℕ) (q : String) (expect_rev : Option ℕ) (run : Run) (runs : Runs)
    → lookup q runs ≡ none
    → save now q expect_rev run runs ≡ (ok (bumped now run), insert q (bumped now run) runs)
unfolding save
save_absent now q none run runs e = refl
save_absent now q (some r) run runs e = rw (e, save)

pub save_moved :
    (now : ℕ) (q : String) (expect_rev : ℕ) (run stored : Run) (runs : Runs)
    → lookup q runs ≡ some stored
    → has_moved_on stored run expect_rev ≡ true
    → save now q (some expect_rev) run runs ≡ (err conflict, runs)
unfolding save
save_moved now q expect_rev run stored runs e m = rw (e, save) (rw (m, save))

pub save_current :
    (now : ℕ) (q : String) (expect_rev : ℕ) (run stored : Run) (runs : Runs)
    → lookup q runs ≡ some stored
    → has_moved_on stored run expect_rev ≡ false
    → save now q (some expect_rev) run runs ≡ (ok (bumped now run), insert q (bumped now run) runs)
unfolding save
save_current now q expect_rev run stored runs e m = rw (e, save) (rw (m, save))

not_moved_rev :
    (stored run : Run) (expect_rev : ℕ)
    → has_moved_on stored run expect_rev ≡ false
    → stored.rev ≡ expect_rev
unfolding has_moved_on
not_moved_rev stored run expect_rev h = ground arith

pub raised_moved :
    (stored run : Run) (expect_rev : ℕ)
    → expect_rev < stored.rev
    → has_moved_on stored run expect_rev ≡ true
unfolding has_moved_on
raised_moved stored run expect_rev h = ground arith

pub same_not_moved :
    (stored run : Run) (expect_rev : ℕ)
    → stored.rev ≡ expect_rev
    → stored.run_id ≡ run.run_id
    → has_moved_on stored run expect_rev ≡ false
unfolding has_moved_on
same_not_moved stored run expect_rev h i = ground (arith, eq_iff stored.run_id run.run_id)

pub save-IsLater :
    (k : String) (now : ℕ) (q : String) (run : Run) (runs : Runs)
    → IsLater (lookup k runs) (lookup k (save now q (some run.rev) run runs).1)
save-IsLater k now q run runs = elim (Option-cases (lookup q runs)) [
  | inl e ↦
      rw (save_absent now q (some run.rev) run runs e)
        (insert-IsLater k q (bumped now run) runs (λ old o. cc))
  | inr (stored, e) ↦ elim (Bool-cases (has_moved_on stored run run.rev)) [
    | inl m ↦ rw (save_moved now q run.rev run stored runs e m) (IsLater-refl (lookup k runs))
    | inr m ↦ rw (save_current now q run.rev run stored runs e m) (
        insert-IsLater k q (bumped now run) runs (λ old o.
          let same_run : stored ≡ old = cc in
          ground (arith, not_moved_rev stored run run.rev m, ap (λ (r : Run). r.rev) same_run)))
  ]
]

abandoned_rev : (run : Run) → (abandoned run).rev ≡ run.rev
abandoned_rev run = ground arith

pub get_or_create-IsLater :
    (k : String) (c : Caller) (p : Period) (runs : Runs)
    → IsLater (lookup k runs) (lookup k (get_or_create c p runs).1)
unfolding get_or_create
get_or_create-IsLater k c p runs = elim (Option-cases (lookup p.key runs)) [
  | inl e ↦
      rw (e, get_or_create)
        (insert-IsLater k p.key (bumped c.now (fresh_run c p)) runs (λ old o. cc))
  | inr (existing, e) ↦ elim (Bool-cases (is_active_stale c.now existing)) [
    | inl m ↦
        rw (e, get_or_create)
          (rw (m, get_or_create)
            (insert-IsLater k p.key (bumped c.now (abandoned existing)) runs (λ old o.
              let same_run : existing ≡ old = cc in
              ground (arith, abandoned_rev existing, ap (λ (r : Run). r.rev) same_run))))
    | inr m ↦ rw (e, get_or_create) (rw (m, get_or_create) (IsLater-refl (lookup k runs)))
  ]
]

pub reset-IsLater :
    (k : String) (c : Caller) (p : Period) (runs : Runs)
    → IsLater (lookup k runs) (lookup k (reset c p runs).1)
unfolding reset
reset-IsLater k c p runs =
    insert-IsLater k p.key
      (bumped c.now (record (fresh_run c p) { rev = stored_rev (lookup p.key runs) })) runs
      (λ old o. ground (arith, ap stored_rev o))

claim-IsLater :
    (k : String) (c : Caller) (p : Period) (action : StepId) (runs : Runs)
    → IsLater
        (lookup k runs)
        (lookup k (claim c p action (or_fresh c p (lookup p.key runs)) runs).1)
claim-IsLater k c p action runs =
    let run = or_fresh c p (lookup p.key runs) in
    let later =
      insert-IsLater k p.key (claimed_run c action run) runs
        (λ old o. ground (arith, ap (λ (x : Option Run). (or_fresh c p x).rev) o)) in
    claimed_later run later
  where
    claimed_later :
        (run : Run)
        → IsLater (lookup k runs) (lookup k (insert p.key (claimed_run c action run) runs))
        → IsLater (lookup k runs) (lookup k (claim c p action run runs).1)
    claimed_later run later = elim (Option-cases run.active_action) [
      | inl e ↦ rw (e, claim) later
      | inr (active, e) ↦ elim (Bool-cases (is_active_stale c.now run)) [
        | inl m ↦ rw (e, claim) (rw (m, claim) later)
        | inr m ↦ rw (e, claim) (rw (m, claim) (IsLater-refl (lookup k runs)))
      ]
    ]

pub try_claim-IsLater :
    (k : String) (c : Caller) (p : Period) (action : String) (runs : Runs)
    → IsLater (lookup k runs) (lookup k (try_claim c p action runs).1)
unfolding try_claim
try_claim-IsLater k c p action runs = elim (Option-cases (read_step action)) [
  | inl e ↦ rw (e, try_claim) (IsLater-refl (lookup k runs))
  | inr (step, e) ↦ rw (e, try_claim) (claim-IsLater k c p step runs)
]
