-- ===== src/Shipping/Execution/Guarded.antt =====
-- An execution that does not hold the claim reaches no provider.
use zdrovena_reconciliation.Prelude.{
  String, Bool, true, false, Option, none, some, [], ◌∷◌, ◌≡◌, refl, inl, inr, Bool-cases,
  Option-cases, arith,
}
use zdrovena_reconciliation.Prelude.Result.{Result, ok, err}
use zdrovena_reconciliation.Prelude.Dict.{lookup}
use zdrovena_reconciliation.Shipping.Draft.{text, Draft, same_value}
use zdrovena_reconciliation.Shipping.Store.{get_draft}
use zdrovena_reconciliation.Shipping.Store.Claims.{claimable, try_claim_loses}
use zdrovena_reconciliation.Shipping.Ports.{Exc, Preview, Request, Failure, shipping, communication}
use zdrovena_reconciliation.Shipping.Execution.{
  after_claim, claim_and_run, start, found, read, execute_draft,
}
use zdrovena_reconciliation.Shipping.Patches.{reviewed}
use zdrovena_reconciliation.Shipping.Execution.Local.{
  Effect, World, reads, claims, Storage, local_repository, local_effects,
}

-- the errors that `execute_draft` raises before its `try`
abbrev pub is_refusal : Failure → Bool
is_refusal (shipping e) = false
is_refusal (communication e) = false
is_refusal _ = true

abbrev pub is_refused : Result Failure Draft → Bool
is_refused (ok draft) = false
is_refused (err failure) = is_refusal failure

abbrev refuses : Result Failure (Option Preview) → Bool
refuses (ok preview) = true
refuses (err failure) = is_refusal failure

reviewed-refuses :
    (request : Request) (draft : Draft) (fingerprint : Option String)
    → refuses (reviewed request draft fingerprint) ≡ true
unfolding reviewed
reviewed-refuses request draft none = refl
reviewed-refuses request draft (some fingerprint) = ground (arith)

-- refused, with nothing changed
abbrev pub IsRefused : World → Result Failure Draft × World → Type 0
IsRefused w (r, w') = (is_refused r ≡ true) × (w' ≡ w)

module _ (now uuid : String) (storage : Storage) (faults : Effect → Option Exc) (i : String)
    (request : Request) (w : World) where
  claim_and_run-IsRefused :
      (draft : Draft) (preview : Option Preview)
      → claimable i w.store ≡ false
      → IsRefused w (
          claim_and_run
            (local_repository now uuid storage)
            (local_effects faults)
            request
            i
            draft
            preview
            w)
  unfolding claim_and_run after_claim
  claim_and_run-IsRefused draft preview h = elim (Option-cases (storage (claims i) w)) [
    | inl r ↦ rw (r, try_claim_loses now i w.store h) (refl, refl)
    | inr (e, r) ↦ rw r (refl, refl)
  ]

  start-IsRefused :
      (draft : Draft) (verdict : Result Failure (Option Preview))
      → refuses verdict ≡ true
      → claimable i w.store ≡ false
      → IsRefused w (
          start
            (local_repository now uuid storage)
            (local_effects faults)
            request
            i
            draft
            verdict
            w)
  unfolding start
  start-IsRefused draft (err e) v h = (v, refl)
  start-IsRefused draft (ok preview) v h = claim_and_run-IsRefused draft preview h

  found-IsRefused :
      (current : Option Draft)
      → claimable i w.store ≡ false
      → IsRefused w
          (found (local_repository now uuid storage) (local_effects faults) request i current w)
  unfolding found
  found-IsRefused none h = (refl, refl)
  found-IsRefused (some []) h = (refl, refl)
  found-IsRefused (some (f ∷ fields)) h =
      let draft = f ∷ fields in
      let v = reviewed request draft request.preview_fingerprint in
      elim (Bool-cases (same_value (lookup "status" draft) (some (text "needs_review")))) [
        | inl e ↦ rw (e, found) (refl, refl)
        | inr e ↦
            rw (e, found)
              (start-IsRefused draft v (reviewed-refuses request draft request.preview_fingerprint)
                h)
      ]

-- When the draft cannot be claimed (it is missing, or its status is not executable, for example because
-- it is executing or created already), `execute_draft` refuses with one of the errors it raises before
-- its `try`, and changes nothing: no provider runs, no event is recorded and nothing is logged.
pub execute_draft_unclaimable :
    (now uuid : String) (storage : Storage) (faults : Effect → Option Exc) (i : String)
    (request : Request) (w : World)
    → claimable i w.store ≡ false
    → IsRefused w
        (execute_draft (local_repository now uuid storage) (local_effects faults) i request w)
unfolding execute_draft read
execute_draft_unclaimable now uuid storage faults i request w h =
    elim (Option-cases (storage (reads i) w)) [
      | inl r ↦ rw r (found-IsRefused now uuid storage faults i request w (get_draft i w.store) h)
      | inr (e, r) ↦ rw r (refl, refl)
    ]
