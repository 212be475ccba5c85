-- ===== src/MonthClosing/Gates/Waivers.antt =====
-- What waivers can do and what they cannot.
use zdrovena_reconciliation.Prelude.{
  ℕ, zero, suc, ◌≡◌, refl, String, Bool, true, false, not, ◌&&◌, List, [], ◌∷◌, ◌++◌, All, str_eq,
  eq_iff, inl, inr, Bool-cases, Option-cases, arith,
}
use zdrovena_reconciliation.Prelude.Result.{Result, ok, err, Result-cases}
use zdrovena_reconciliation.MonthClosing.Run.{
  StepId, check, sales, costs, reports, bank, package_step, send, RunStatus, Target, step_target,
  issue_target, other_target, no_target, Waiver, Run, step_name, read_step,
}
use zdrovena_reconciliation.MonthClosing.RunStore.{
  Caller, RunError, mark_claimed, waivers_without, is_waiver_of,
}
use zdrovena_reconciliation.MonthClosing.Gates.{
  is_waived, same_target, step_satisfied, is_done, is_ready, synced_status, sync_waiver_status,
  recompute_ready, waiver_stage, drop, new_waiver, granted, grant_waiver, without_target,
  revoke_waiver,
}

-- the target names no step that must not be skipped
abbrev pub is_lawful : Target → Bool
is_lawful (step_target s) = not (str_eq s "package") && not (str_eq s "send")
is_lawful _ = true

abbrev pub AllLawful : List Waiver → Type 0
AllLawful = All (λ w. is_lawful w.target ≡ true)

AllLawful-drop : (n : ℕ) (ws : List Waiver) → AllLawful ws → AllLawful (drop n ws)
unfolding drop
AllLawful-drop zero ws h = h
AllLawful-drop (suc n) [] h = h
AllLawful-drop (suc n) (w ∷ ws) (l, h) = AllLawful-drop n ws h

AllLawful-append : (ws vs : List Waiver) → AllLawful ws → AllLawful vs → AllLawful (ws ++ vs)
AllLawful-append [] vs h k = k
AllLawful-append (w ∷ ws) vs (l, h) k = (l, AllLawful-append ws vs h k)

AllLawful-without_target :
    (t : Target) (ws : List Waiver) → AllLawful ws → AllLawful (without_target t ws)
unfolding without_target
AllLawful-without_target t [] h = h
AllLawful-without_target t (w ∷ ws) (l, h) = elim (Bool-cases (same_target w.target t)) [
  | inl e ↦ rw (e, without_target) (AllLawful-without_target t ws h)
  | inr e ↦ rw (e, without_target) (l, AllLawful-without_target t ws h)
]

AllLawful-waivers_without :
    (a : StepId) (ws : List Waiver) → AllLawful ws → AllLawful (waivers_without a ws)
unfolding waivers_without
AllLawful-waivers_without a [] h = h
AllLawful-waivers_without a (w ∷ ws) (l, h) = elim (Bool-cases (is_waiver_of a w)) [
  | inl e ↦ rw (e, waivers_without) (AllLawful-waivers_without a ws h)
  | inr e ↦ rw (e, waivers_without) (l, AllLawful-waivers_without a ws h)
]

stage_lawful :
    (run : Run) (t : Target) (stage : StepId) → waiver_stage run t ≡ ok stage → is_lawful t ≡ true
unfolding waiver_stage read_step
stage_lawful run (step_target s) stage h = elim (Bool-cases (str_eq s "package")) [
  | inl e ↦ let k = rw ((eq_iff s "package").0 e) at h in cc
  | inr e ↦ elim (Bool-cases (str_eq s "send")) [
    | inl f ↦ let k = rw ((eq_iff s "send").0 f) at h in cc
    | inr f ↦ rw (e, f)
  ]
]
stage_lawful run (issue_target s) stage h = refl
stage_lawful run (other_target k s) stage h = refl
stage_lawful run (no_target s) stage h = refl

unlawful-same_target :
    (t u : Target) → is_lawful t ≡ false → is_lawful u ≡ true → same_target t u ≡ false
unfolding same_target
unlawful-same_target (step_target s) (step_target s') l m = elim (Bool-cases (str_eq s s')) [
  | inl e ↦ let k = rw ((eq_iff s s').0 e) at l in cc
  | inr e ↦ e
]
unlawful-same_target (step_target s) (issue_target s') l m = refl
unlawful-same_target (step_target s) (other_target k s') l m = refl
unlawful-same_target (step_target s) (no_target s') l m = refl
unlawful-same_target (issue_target s) u l m = cc
unlawful-same_target (other_target k s) u l m = cc
unlawful-same_target (no_target s) u l m = cc

unlawful_unwaived :
    (t : Target) (ws : List Waiver) → is_lawful t ≡ false → AllLawful ws → is_waived t ws ≡ false
unfolding is_waived
unlawful_unwaived t [] l h = refl
unlawful_unwaived t (w ∷ ws) l (m, h) =
    rw (unlawful-same_target t w.target l m) (unlawful_unwaived t ws l h)

-- What changes the waivers of a run: a waiver granted or revoked, an action claimed.
pub data Change : Type 0 where
  grants : Caller → Target → Change
  revokes : Target → Change
  claims : ℕ → StepId → String → Change

abbrev or_unchanged : Run → Result RunError Run → Run
or_unchanged run (ok run') = run'
or_unchanged run (err e) = run

unfoldable pub change : Run → Change → Run
unfolding grant_waiver revoke_waiver mark_claimed
change run (grants c target) = or_unchanged run (grant_waiver c target run)
change run (revokes target) = or_unchanged run (revoke_waiver target run)
change run (claims now action user) = mark_claimed now action user run

unfoldable pub changes : Run → List Change → Run
unfolding change
changes run [] = run
changes run (x ∷ xs) = changes (change run x) xs

sync_waivers : (run : Run) → (sync_waiver_status run).waivers ≡ run.waivers
unfolding sync_waiver_status recompute_ready
sync_waivers run = refl

granted_lawful :
    (c : Caller) (t : Target) (stage : StepId) (run : Run)
    → is_lawful t ≡ true
    → AllLawful run.waivers
    → AllLawful (granted c t stage run).waivers
granted_lawful c t stage run l h = elim (Bool-cases (is_waived t run.waivers)) [
  | inl e ↦ rw (e, granted) h
  | inr e ↦
      rw (e, granted)
        (AllLawful-drop _ _ (AllLawful-append run.waivers (new_waiver c t stage ∷ []) h (l, tt)))
]

grant_lawful :
    (c : Caller) (t : Target) (run : Run)
    → AllLawful run.waivers
    → AllLawful (or_unchanged run (grant_waiver c t run)).waivers
unfolding grant_waiver
grant_lawful c t run h = elim (Option-cases run.active_action) [
  | inr (active, e) ↦ rw (e, grant_waiver) h
  | inl e ↦ elim (Result-cases (waiver_stage run t)) [
    | inl (x, q) ↦ rw (e, grant_waiver) (rw (q, grant_waiver) h)
    | inr (stage, q) ↦
        rw (e, grant_waiver)
          (rw (q, grant_waiver)
            (rw (sync_waivers (granted c t stage run))
              (granted_lawful c t stage run (stage_lawful run t stage q) h)))
  ]
]

revoke_lawful :
    (t : Target) (run : Run)
    → AllLawful run.waivers
    → AllLawful (or_unchanged run (revoke_waiver t run)).waivers
unfolding revoke_waiver
revoke_lawful t run h = elim (Option-cases run.active_action) [
  | inr (active, e) ↦ rw (e, revoke_waiver) h
  | inl e ↦
      rw (e, revoke_waiver)
        (rw (sync_waivers (record run { waivers = without_target t run.waivers }))
          (AllLawful-without_target t run.waivers h))
]

changes_lawful :
    (run : Run) (xs : List Change) → AllLawful run.waivers → AllLawful (changes run xs).waivers
unfolding changes
changes_lawful run [] h = h
changes_lawful run (grants c t ∷ xs) h =
    changes_lawful (change run (grants c t)) xs (grant_lawful c t run h)
changes_lawful run (revokes t ∷ xs) h =
    changes_lawful (change run (revokes t)) xs (revoke_lawful t run h)
changes_lawful run (claims now a u ∷ xs) h =
    changes_lawful (change run (claims now a u)) xs (AllLawful-waivers_without a run.waivers h)

-- However operators grant and revoke waivers and claim actions, on a run that starts with none, the
-- building of the package and the sending count as satisfied only when they were really done.
pub changes-step_satisfied :
    (run : Run) (xs : List Change)
    → run.waivers ≡ []
    → let run' = changes run xs in
      (step_satisfied run' package_step ≡ is_done run'.steps.package_step.status)
      × (step_satisfied run' send ≡ is_done run'.steps.send.status)
unfolding step_satisfied
changes-step_satisfied run xs none_yet =
    let run' = changes run xs in
    let lawful : AllLawful run'.waivers = changes_lawful run xs (rw none_yet tt) in
    let p = unlawful_unwaived (step_target "package") run'.waivers refl lawful in
    let s = unlawful_unwaived (step_target "send") run'.waivers refl lawful in
    (ground (arith, p), ground (arith, s))

waivers_without_step :
    (a : StepId) (ws : List Waiver)
    → is_waived (step_target (step_name a)) (waivers_without a ws) ≡ false
unfolding waivers_without is_waived same_target
waivers_without_step a [] = refl
waivers_without_step a (w ∷ ws) = elim (Bool-cases (is_waiver_of a w)) [
  | inl e ↦ rw (e, waivers_without) (waivers_without_step a ws)
  | inr e ↦ rw (e, waivers_without) (rw (unlike a w e) (waivers_without_step a ws))
]
  where
    unlike :
        (a : StepId) (w : Waiver)
        → is_waiver_of a w ≡ false
        → same_target (step_target (step_name a)) w.target ≡ false
    unlike a w e = by_target w.target w.stage e
      where
        by_target :
            (t : Target) (stage : StepId)
            → is_waiver_of a (record w { target = t; stage = stage }) ≡ false
            → same_target (step_target (step_name a)) t ≡ false
        by_target (step_target s) stage e =
            ground (arith, e, eq_iff s (step_name a), eq_iff (step_name a) s)
        by_target (issue_target s) stage e = refl
        by_target (other_target k s) stage e = refl
        by_target (no_target s) stage e = refl

-- Claiming an action again takes back what it had: the step is not satisfied any more, neither by its
-- earlier result nor by a waiver granted for it.
pub mark_claimed-step_satisfied :
    (now : ℕ) (a : StepId) (user : String) (run : Run)
    → step_satisfied (mark_claimed now a user run) a ≡ false
unfolding step_satisfied mark_claimed
mark_claimed-step_satisfied now check user run = waivers_without_step check run.waivers
mark_claimed-step_satisfied now sales user run = waivers_without_step sales run.waivers
mark_claimed-step_satisfied now costs user run = waivers_without_step costs run.waivers
mark_claimed-step_satisfied now reports user run = waivers_without_step reports run.waivers
mark_claimed-step_satisfied now bank user run = waivers_without_step bank run.waivers
mark_claimed-step_satisfied now package_step user run =
    waivers_without_step package_step run.waivers
mark_claimed-step_satisfied now send user run = waivers_without_step send run.waivers

synced_ready : (b : Bool) (s : RunStatus) → synced_status b s ≡ RunStatus.ready → b ≡ true
synced_ready true s h = refl
synced_ready false RunStatus.draft h = cc
synced_ready false RunStatus.running h = cc
synced_ready false RunStatus.failed h = cc
synced_ready false RunStatus.ready h = cc
synced_ready false RunStatus.needs_input h = cc
synced_ready false RunStatus.collecting h = cc
synced_ready false RunStatus.awaiting_review h = cc
synced_ready false RunStatus.package_ready h = cc
synced_ready false RunStatus.completed h = cc

-- a run that says `ready` has no blocking issue that stands
abbrev pub IsHonest : Result RunError Run → Type 0
IsHonest (ok run) = run.status ≡ RunStatus.ready → is_ready run ≡ true
IsHonest (err e) = Unit

sync-IsHonest : (run : Run) → IsHonest (ok (sync_waiver_status run))
unfolding sync_waiver_status recompute_ready
sync-IsHonest run = synced_ready (is_ready run) run.status

-- Where a waiver is granted or revoked, the run says `ready` afterwards only if no blocking issue stands.
pub waiver-IsHonest :
    (c : Caller) (t : Target) (run : Run)
    → IsHonest (grant_waiver c t run) × IsHonest (revoke_waiver t run)
waiver-IsHonest c t run = (grant_honest, revoke_honest)
  where
    grant_honest : IsHonest (grant_waiver c t run)
    grant_honest = elim (Option-cases run.active_action) [
      | inr (active, e) ↦ unfold grant_waiver in (rw (e, grant_waiver) tt)
      | inl e ↦ elim (Result-cases (waiver_stage run t)) [
        | inl (x, q) ↦ unfold grant_waiver in (rw (e, grant_waiver) (rw (q, grant_waiver) tt))
        | inr (stage, q) ↦
            unfold grant_waiver in
            (rw (e, grant_waiver) (rw (q, grant_waiver) (sync-IsHonest (granted c t stage run))))
      ]
    ]

    revoke_honest : IsHonest (revoke_waiver t run)
    revoke_honest = elim (Option-cases run.active_action) [
      | inr (active, e) ↦ unfold revoke_waiver in (rw (e, revoke_waiver) tt)
      | inl e ↦
          unfold revoke_waiver in
          (rw (e, revoke_waiver)
            (sync-IsHonest (record run { waivers = without_target t run.waivers })))
    ]
