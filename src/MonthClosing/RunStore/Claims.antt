-- ===== src/MonthClosing/RunStore/Claims.antt =====
-- The claims of a period's actions: until an action's end, or another write, gives the period back, no
-- second claim within the half hour of `active_action_ttl` wins it.
use zdrovena_reconciliation.Prelude.{
  ℕ, ◌+◌, ◌≤◌, ◌≡◌, refl, sym, subst, String, Bool, true, false, not, ◌&&◌, Option, none, some,
  List, [], ◌∷◌, All, leb, str_eq, eq_iff, if◌then◌else◌, inl, inr, Bool-cases, Option-cases, arith,
}
use zdrovena_reconciliation.Prelude.Result.{Result, ok, err}
use zdrovena_reconciliation.Prelude.Dict.{lookup, lookup-insert_self, lookup-insert_ne}
use zdrovena_reconciliation.Sending.{instant, unreadable}
use zdrovena_reconciliation.MonthClosing.Run.{StepId, Run, read_step}
use zdrovena_reconciliation.MonthClosing.RunStore.{
  Runs, RunError, Caller, Period, active_action_ttl, is_active_stale, try_claim, claim, claimed_run,
  or_fresh, mark_claimed,
}

-- a claim of an action of a period
abbrev pub Claim : Type 0
Claim = Caller × Period × String

abbrev pub is_win : Result RunError Run → Bool
is_win (ok run) = true
is_win (err e) = false

-- claimed at the time `from` or later
abbrev pub is_held : ℕ → Option Run → Bool
is_held from none = false
is_held from (some run) = elim run.active_action [
  | none ↦ false
  | some action ↦ elim run.updated_at [ instant t ↦ leb from t | unreadable s ↦ false ]
]

-- One step on the file of runs, in the order of its lock: a claim, or any other change of the runs, such
-- as an action's end, a save or a reset.
pub data Step : Type 0 where
  claims : Claim → Step
  writes : (Runs → Runs) → Step

-- how many claims win the period `k`
unfoldable pub claims_won : String → List Step → Runs → ℕ
claims_won k [] runs = 0
claims_won k (claims (c, p, action) ∷ steps) runs =
    let (r, runs') = try_claim c p action runs in
    (if is_win r && str_eq k p.key then 1 else 0) + claims_won k steps runs'
claims_won k (writes change ∷ steps) runs = claims_won k steps (change runs)

-- how many of the other changes end the hold on the period `k`
unfoldable pub releases : ℕ → String → List Step → Runs → ℕ
releases from k [] runs = 0
releases from k (claims (c, p, action) ∷ steps) runs =
    releases from k steps (try_claim c p action runs).1
releases from k (writes change ∷ steps) runs =
    (if is_held from (lookup k runs) && not (is_held from (lookup k (change runs))) then 1 else 0)
    + releases from k steps (change runs)

-- a claim is made within half an hour from the time `from`
abbrev pub IsTimely : ℕ → Step → Type 0
IsTimely from (claims (c, p, action)) = (from ≤ c.now) × (c.now ≤ from + active_action_ttl)
IsTimely from (writes change) = Unit

claim_held :
    (from : ℕ) (c : Caller) (p : Period) (step : StepId) (run : Run) (runs : Runs)
    → c.now ≤ from + active_action_ttl
    → is_held from (some run) ≡ true
    → (is_win (claim c p step run runs).0 ≡ false) × ((claim c p step run runs).1 ≡ runs)
unfolding is_active_stale
claim_held from c p step run runs t h = ground arith

-- a claim of a held period changes nothing
try_claim_held :
    (from : ℕ) (c : Caller) (p : Period) (action : String) (runs : Runs)
    → c.now ≤ from + active_action_ttl
    → is_held from (lookup p.key runs) ≡ true
    → (is_win (try_claim c p action runs).0 ≡ false) × ((try_claim c p action runs).1 ≡ runs)
unfolding try_claim
try_claim_held from c p action runs t h = elim (Option-cases (read_step action)) [
  | inl e ↦ rw (e, try_claim) (refl, refl)
  | inr (step, e) ↦ elim (Option-cases (lookup p.key runs)) [
    | inl o ↦ let f : false ≡ true = rw o at h in cc
    | inr (run, o) ↦
        let held : is_held from (some run) ≡ true = rw o at h in
        rw (e, try_claim) (rw (o, try_claim) (claim_held from c p step run runs t held))
  ]
]

-- the run that a won claim stores is held from the claim's time
claim_won :
    (from : ℕ) (c : Caller) (p : Period) (step : StepId) (run : Run) (runs : Runs)
    → from ≤ c.now
    → is_win (claim c p step run runs).0 ≡ true
    → is_held from (lookup p.key (claim c p step run runs).1) ≡ true
unfolding mark_claimed
claim_won from c p step run runs t h =
    ground (arith, lookup-insert_self p.key (claimed_run c step run) runs)

try_claim_won :
    (from : ℕ) (c : Caller) (p : Period) (action : String) (runs : Runs)
    → from ≤ c.now
    → is_win (try_claim c p action runs).0 ≡ true
    → is_held from (lookup p.key (try_claim c p action runs).1) ≡ true
unfolding try_claim
try_claim_won from c p action runs t h = elim (Option-cases (read_step action)) [
  | inl e ↦ let f : false ≡ true = rw (e, try_claim) at h in cc
  | inr (step, e) ↦
      rw (e, try_claim)
        (claim_won from c p step (or_fresh c p (lookup p.key runs)) runs t (rw (e, try_claim) at h))
]

claim_other :
    (k : String) (c : Caller) (p : Period) (step : StepId) (run : Run) (runs : Runs)
    → str_eq k p.key ≡ false
    → lookup k (claim c p step run runs).1 ≡ lookup k runs
unfolding is_active_stale
claim_other k c p step run runs ne =
    ground (arith, lookup-insert_ne p.key k (claimed_run c step run) runs ne)

try_claim_other :
    (k : String) (c : Caller) (p : Period) (action : String) (runs : Runs)
    → str_eq k p.key ≡ false
    → lookup k (try_claim c p action runs).1 ≡ lookup k runs
unfolding try_claim
try_claim_other k c p action runs ne = elim (Option-cases (read_step action)) [
  | inl e ↦ rw (e, try_claim)
  | inr (step, e) ↦
      rw (e, try_claim) (claim_other k c p step (or_fresh c p (lookup p.key runs)) runs ne)
]

claims_won-le-free :
    (from : ℕ) (k : String) (steps : List Step) (runs : Runs)
    → All (IsTimely from) steps
    → claims_won k steps runs
      ≤ (if is_held from (lookup k runs) then 0 else 1) + releases from k steps runs
unfolding claims_won releases
claims_won-le-free from k [] runs a = omega arith
claims_won-le-free from k (writes change ∷ steps) runs (t, a) =
    ground (arith, claims_won-le-free from k steps (change runs) a)
claims_won-le-free from k (claims (c, p, action) ∷ steps) runs (t, a) =
    let later = claims_won-le-free from k steps (try_claim c p action runs).1 a in
    elim (Bool-cases (str_eq k p.key)) [
      | inr e ↦
          let sharper = rw (try_claim_other k c p action runs e) at later in
          ground (arith, e, sharper)
      | inl e ↦
          let same = (eq_iff k p.key).0 e in
          elim (Bool-cases (is_held from (lookup k runs))) [
            | inl h ↦
                let (lost, still) = try_claim_held from c p action runs t.1 (rw same at h) in
                let sharper = rw still at later in rw (lost, still) (ground (arith, sharper))
            | inr h ↦ elim (Bool-cases (is_win (try_claim c p action runs).0)) [
              | inr lost ↦ ground (arith, h, lost, later)
              | inl won ↦
                  let held =
                    subst (λ i. is_held from (lookup i (try_claim c p action runs).1) ≡ true)
                      (sym same) (try_claim_won from c p action runs t.0 won) in
                  ground (arith, e, h, won, held, later)
            ]
          ]
    ]

-- Of all the claims made within half an hour, of any actions of any periods by any callers and with any
-- other changes of the runs between them, those that win a given period are at most one more than the
-- other changes that end a hold on it: before such a change the period's run has an active action and was
-- last written since the half hour began, and after it that is not so.
pub claims_won-le-releases :
    (from : ℕ) (k : String) (steps : List Step) (runs : Runs)
    → All (IsTimely from) steps
    → claims_won k steps runs ≤ 1 + releases from k steps runs
claims_won-le-releases from k steps runs a = ground (arith, claims_won-le-free from k steps runs a)
