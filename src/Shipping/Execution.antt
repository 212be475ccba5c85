-- ===== src/Shipping/Execution.antt =====
-- zdrovena/shipping/application/execution/workflow.py: one draft is executed at a courier.
pub mod Local
pub mod Release
pub mod Guarded
pub mod Failed
use zdrovena_reconciliation.Prelude.{
  String, Bool, true, false, Option, none, some, List, [], ◌∷◌, ◌++◌, if◌then◌else◌,
}
use zdrovena_reconciliation.Prelude.Result.{Result, ok, err}
use zdrovena_reconciliation.Prelude.Dict.{lookup}
use zdrovena_reconciliation.Shipping.State.{needs_review}
use zdrovena_reconciliation.Shipping.Draft.{
  text, shipments, Shipment, Draft, truthy, same_value, text_at,
}
use zdrovena_reconciliation.Shipping.Ports.{
  Exc, describe, Action, dlq_enqueued, Repository, Effects, ProviderRun, returns, raises,
  on_shipment_created, on_shipment_checkpoint, on_command_created, on_pickup_command_created,
  Preview, Request, Failure, draft_not_found, requires_review, claim_conflict, escaped, raised,
  ◌>>=◌, ◌>>◌, pure,
}
use zdrovena_reconciliation.Shipping.Patches.{
  before_colon, or_value, order_number, text_or, shipments_at, put_shipment, command_fields,
  pickup_command_fields, shipment_fields, error_fields, wrapped, still_executing, apply_patch,
  created_event, updated_or, sender_for, run_for, reviewed,
}

module _ {S : Type 0} (repository : Repository S) (effects : Effects S) where
  -- a handler that logs what its body raised
  unfoldable pub logged : {A : Type 0} → String → Action S A → S → S
  logged message body s =
      let (r, s') = body s in elim r [ ok a ↦ s' | err e ↦ effects.log_exception message s' ]

  enqueue_and_record : Request → Draft → Exc → Action S (Unit {0})
  enqueue_and_record request draft e = do
    entry ← repository.enqueue_dlq (record {
      payload = draft;
      error = describe e;
      source = text_or "source" draft "shopify";
      entry_id = request.failure_dlq_entry_id;
      kind = request.execution_dlq_kind;
      draft_id = some (text_at "id" draft);
    })
    effects.record_event
        (dlq_enqueued entry (order_number draft) (before_colon (describe e)) (text_at "id" draft))

  unfoldable pub record_execution_failure : Request → Draft → Exc → S → S
  unfolding logged enqueue_and_record before_colon
  record_execution_failure request draft e =
      logged "Failed to enqueue execution failure" (enqueue_and_record request draft e)

  unfoldable pub release_if : Bool → String → Exc → Action S Bool
  release_if true draft_id e s = repository.update_draft draft_id (error_fields e.message) s
  release_if false draft_id e s = (ok false, s)

  abbrev pub release_if_executing : String → Exc → Option Draft → Action S Bool
  release_if_executing draft_id e current s = release_if (still_executing current) draft_id e s

  unfoldable pub release_execution_claim : String → Exc → S → S
  unfolding logged release_if
  release_execution_claim draft_id e =
      logged "Failed to release execution claim"
        (repository.get_draft draft_id >>= release_if_executing draft_id e)

  -- the provider's run, with the closures' list of persisted shipments
  unfoldable pub run_provider : String → ProviderRun → List Shipment → Action S Draft
  run_provider draft_id (returns patch) persisted s = (ok patch, s)
  run_provider draft_id (raises e) persisted s = (err e, s)
  run_provider draft_id (on_shipment_created x next) persisted s =
      let persisted' = persisted ++ x ∷ [] in
      let (r, s') = repository.update_draft draft_id (shipment_fields persisted') s in
      run_provider draft_id (next (raised r)) persisted' s'
  run_provider draft_id (on_shipment_checkpoint x next) persisted s =
      let persisted' = put_shipment x persisted in
      let (r, s') = repository.update_draft draft_id (shipment_fields persisted') s in
      run_provider draft_id (next (raised r)) persisted' s'
  run_provider draft_id (on_command_created command_id next) persisted s =
      let (r, s') = repository.update_draft draft_id (command_fields command_id) s in
      run_provider draft_id (next (raised r)) persisted s'
  run_provider draft_id (on_pickup_command_created command_id next) persisted s =
      let (r, s') = repository.update_draft draft_id (pickup_command_fields command_id) s in
      run_provider draft_id (next (raised r)) persisted s'

  emit_if_tracked : Request → String → Draft → Draft → Action S (Unit {0})
  emit_if_tracked request draft_id draft patch =
      if truthy (lookup "tracking_number" patch)
      then effects.emit_tracking_assigned draft_id (lookup "shopify_order_number" draft)
          (or_value (lookup "shipment_origin" patch) (some (text request.system_shipment_origin)))
          (lookup "tracking_number" patch) (lookup "courier_draft_id" patch)
      else pure tt

  push_if_present : Option Draft → Action S (Unit {0})
  push_if_present none = pure tt
  push_if_present (some []) = pure tt
  push_if_present (some (f ∷ fields)) = effects.push_tracking (f ∷ fields)

  -- from the provider's patch to the end of the `try` body
  unfoldable pub complete : Request → String → Draft → Draft → Action S Draft
  unfolding created_event emit_if_tracked push_if_present
  complete request draft_id draft patch = do
    repository.update_draft draft_id patch
    updated ← repository.get_draft draft_id
    effects.record_event (created_event draft_id draft patch)
    emit_if_tracked request draft_id draft patch
    push_if_present updated
    pure (updated_or updated patch)

  -- the `try` body
  unfoldable pub attempt : Request → String → Draft → Option Preview → Action S Draft
  unfolding sender_for run_for apply_patch run_provider complete
  attempt request draft_id draft preview = do
    sender ← (λ s. (sender_for request draft preview, s))
    patch ←
        run_provider draft_id (run_for request draft sender)
          (shipments_at (lookup "courier_shipments" draft))
    complete request draft_id draft (apply_patch request patch)

  -- the two `except` branches
  unfoldable pub on_failure : Request → String → Draft → Exc → S → S
  on_failure request draft_id draft e s =
      release_execution_claim draft_id e
        (record_execution_failure request draft e (effects.log_exception "execute_draft failed" s))

  unfoldable pub settle : Request → String → Draft → Result Exc Draft × S → Result Failure Draft × S
  settle request draft_id draft (ok result, s) = (ok result, s)
  settle request draft_id draft (err e, s) =
      (err (wrapped e), on_failure request draft_id draft e s)

  unfoldable pub after_claim :
      Request → String → Draft → Option Preview → Result Exc Bool × S → Result Failure Draft × S
  unfolding attempt settle
  after_claim request draft_id draft preview (err e, s) = (err (escaped e), s)
  after_claim request draft_id draft preview (ok false, s) = (err claim_conflict, s)
  after_claim request draft_id draft preview (ok true, s) =
      settle request draft_id draft (attempt request draft_id draft preview s)

  unfoldable pub claim_and_run :
      Request → String → Draft → Option Preview → S → Result Failure Draft × S
  unfolding after_claim
  claim_and_run request draft_id draft preview s =
      after_claim request draft_id draft preview (repository.try_claim_execution draft_id s)

  unfoldable pub start :
      Request → String → Draft → Result Failure (Option Preview) → S → Result Failure Draft × S
  unfolding claim_and_run
  start request draft_id draft (err e) s = (err e, s)
  start request draft_id draft (ok preview) s = claim_and_run request draft_id draft preview s

  unfoldable pub found : Request → String → Option Draft → S → Result Failure Draft × S
  unfolding reviewed start
  found request draft_id none s = (err draft_not_found, s)
  found request draft_id (some []) s = (err draft_not_found, s)
  found request draft_id (some (f ∷ fields)) s =
      let draft = f ∷ fields in
      if same_value (lookup "status" draft) (some (text "needs_review"))
      then (err requires_review, s)
      else start request draft_id draft (reviewed request draft request.preview_fingerprint) s

  unfoldable pub read : Request → String → Result Exc (Option Draft) × S → Result Failure Draft × S
  unfolding found
  read request draft_id (err e, s) = (err (escaped e), s)
  read request draft_id (ok draft, s) = found request draft_id draft s

  unfoldable pub execute_draft : String → Request → S → Result Failure Draft × S
  unfolding read
  execute_draft draft_id request s = read request draft_id (repository.get_draft draft_id s)
