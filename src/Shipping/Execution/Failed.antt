-- ===== src/Shipping/Execution/Failed.antt =====
-- An execution that failed after the claim leaves no draft claimed.
use zdrovena_reconciliation.Prelude.{
  String, Bool, true, false, Option, none, some, [], ◌∷◌, ◌≡◌, refl, inl, inr, Bool-cases,
  Option-cases, arith,
}
use zdrovena_reconciliation.Prelude.Result.{Result, ok, err}
use zdrovena_reconciliation.Prelude.Dict.{lookup}
use zdrovena_reconciliation.Shipping.Draft.{text, Draft, same_value}
use zdrovena_reconciliation.Shipping.Store.{get_draft}
use zdrovena_reconciliation.Shipping.Ports.{
  Exc, Preview, Request, Failure, draft_not_found, requires_review, fingerprint_mismatch,
  claim_conflict, escaped, shipping, communication,
}
use zdrovena_reconciliation.Shipping.Execution.{
  attempt, record_execution_failure, on_failure, settle, after_claim, claim_and_run, start, found,
  read, execute_draft,
}
use zdrovena_reconciliation.Shipping.Patches.{reviewed}
use zdrovena_reconciliation.Shipping.Execution.Local.{
  Effect, World, reads, Storage, local_repository, local_effects,
}
use zdrovena_reconciliation.Shipping.Execution.Release.{
  IsReleasedOrLeft, release_execution_claim_local,
}

-- the errors that the `except` branches raise
abbrev pub is_provider_error : Result Failure Draft → Bool
is_provider_error (err (shipping e)) = true
is_provider_error (err (communication e)) = true
is_provider_error _ = false

abbrev pub IsReleased : Storage → String → Result Failure Draft × World → Type 0
IsReleased storage i (r, w') = is_provider_error r ≡ true → IsReleasedOrLeft storage i w'

abbrev is_before_try : Result Failure (Option Preview) → Bool
is_before_try (ok preview) = true
is_before_try (err (shipping e)) = false
is_before_try (err (communication e)) = false
is_before_try _ = true

reviewed_before_try :
    (request : Request) (draft : Draft) (fingerprint : Option String)
    → is_before_try (reviewed request draft fingerprint) ≡ true
unfolding reviewed
reviewed_before_try request draft none = refl
reviewed_before_try request draft (some fingerprint) = ground (arith)

module _ (now uuid : String) (storage : Storage) (faults : Effect → Option Exc) (i : String)
    (request : Request) where
  settle-IsReleased :
      (draft : Draft) (outcome : Result Exc Draft × World)
      → IsReleased storage i (
          settle (local_repository now uuid storage) (local_effects faults) request i draft outcome)
  unfolding settle on_failure
  settle-IsReleased draft (ok result, w) h = let f : false ≡ true = h in cc
  settle-IsReleased draft (err e, w) h =
      let logged_world = (local_effects faults).log_exception "execute_draft failed" w in
      let w1 =
        record_execution_failure (local_repository now uuid storage) (local_effects faults) request
          draft e logged_world in
      release_execution_claim_local now uuid storage faults i e w1

  after_claim-IsReleased :
      (draft : Draft) (preview : Option Preview) (claim : Result Exc Bool × World)
      → IsReleased storage i (
          after_claim
            (local_repository now uuid storage)
            (local_effects faults)
            request
            i
            draft
            preview
            claim)
  unfolding after_claim
  after_claim-IsReleased draft preview (err e, w) h = let f : false ≡ true = h in cc
  after_claim-IsReleased draft preview (ok false, w) h = let f : false ≡ true = h in cc
  after_claim-IsReleased draft preview (ok true, w) h =
      settle-IsReleased draft
        (attempt (local_repository now uuid storage) (local_effects faults) request i draft preview
          w)
        h

  start-IsReleased :
      (draft : Draft) (verdict : Result Failure (Option Preview)) (w : World)
      → is_before_try verdict ≡ true
      → IsReleased storage i (
          start
            (local_repository now uuid storage)
            (local_effects faults)
            request
            i
            draft
            verdict
            w)
  unfolding start claim_and_run
  start-IsReleased draft (ok preview) w v h =
      after_claim-IsReleased draft preview
        ((local_repository now uuid storage).try_claim_execution i w) h
  start-IsReleased draft (err draft_not_found) w v h = cc
  start-IsReleased draft (err requires_review) w v h = cc
  start-IsReleased draft (err fingerprint_mismatch) w v h = cc
  start-IsReleased draft (err claim_conflict) w v h = cc
  start-IsReleased draft (err (escaped e)) w v h = cc
  start-IsReleased draft (err (shipping e)) w v h = cc
  start-IsReleased draft (err (communication e)) w v h = cc

  found-IsReleased :
      (current : Option Draft) (w : World)
      → IsReleased storage i
          (found (local_repository now uuid storage) (local_effects faults) request i current w)
  unfolding found
  found-IsReleased none w = λ h. cc
  found-IsReleased (some []) w = λ h. cc
  found-IsReleased (some (f ∷ fields)) w =
      let draft = f ∷ fields in
      elim (Bool-cases (same_value (lookup "status" draft) (some (text "needs_review")))) [
        | inl e ↦ rw (e, found) (λ h. cc)
        | inr e ↦
            rw (e, found)
              (start-IsReleased draft (reviewed request draft request.preview_fingerprint) w
                (reviewed_before_try request draft request.preview_fingerprint))
      ]

-- When `execute_draft` raises a shipping or a communication error, whatever the provider did and whichever
-- event, tracking push or store call (its dead-letter record, a callback's write) failed as well, the
-- draft is not left in `executing`, but for one case: the releasing handler's own read or write of the
-- draft raised, and then that is logged last of all.
pub execute_draft_failed :
    (now uuid : String) (storage : Storage) (faults : Effect → Option Exc) (i : String)
    (request : Request) (w : World)
    → let (r, w') =
        execute_draft (local_repository now uuid storage) (local_effects faults) i request w in
      is_provider_error r ≡ true → IsReleasedOrLeft storage i w'
unfolding execute_draft read
execute_draft_failed now uuid storage faults i request w =
    elim (Option-cases (storage (reads i) w)) [
      | inl r ↦ rw r (found-IsReleased now uuid storage faults i request (get_draft i w.store) w)
      | inr (e, r) ↦ rw r (λ h. cc)
    ]
