-- ===== src/Tests/Execution.antt =====
-- Executions of a draft: runs and instances.
use zdrovena_reconciliation.Prelude.{◌≡◌, refl, true, false, none, some, [], ◌∷◌, Option}
use zdrovena_reconciliation.Prelude.Result.{ok, err}
use zdrovena_reconciliation.Shipping.State.{can_execute}
use zdrovena_reconciliation.Shipping.Draft.{status_of}
use zdrovena_reconciliation.Shipping.Store.{
  get_draft, try_claim_execution, update_draft, enqueue_dlq,
}
use zdrovena_reconciliation.Shipping.Ports.{Exc, ProviderRun, raises, Request}
use zdrovena_reconciliation.Shipping.Execution.{
  execute_draft, on_failure, release_execution_claim, record_execution_failure,
}
use zdrovena_reconciliation.Shipping.Execution.Local.{
  Effect, World, updates, enqueues, Storage, local_repository, local_effects,
}
use zdrovena_reconciliation.Shipping.Execution.Release.{is_claimed, IsReleasedOrLeft}
use zdrovena_reconciliation.Shipping.Execution.Guarded.{IsRefused, execute_draft_unclaimable}
use zdrovena_reconciliation.Shipping.Execution.Failed.{execute_draft_failed}
use zdrovena_reconciliation.Tests.Store.{order, store}

abbrev timeout : Exc
timeout = record { is_shipping = false; class_name = "TimeoutError"; message = "no answer" }

abbrev no_settings : Exc
no_settings = record {
  is_shipping = true;
  class_name = "ZdrovenaShippingError";
  message = "no sender";
}

abbrev no_faults : Effect → Option Exc
no_faults effect = none

-- every event fails to be recorded
abbrev all_faults : Effect → Option Exc
all_faults effect = some timeout

abbrev healthy : Storage
healthy call w = none

abbrev dlq_down : Storage
dlq_down (enqueues request) w = some timeout
dlq_down _ w = none

abbrev updates_down : Storage
updates_down (updates i fields) w = some timeout
updates_down _ w = none

abbrev request_of : ProviderRun → Request
request_of run = record {
  build_preview = λ draft. err no_settings;
  resolve_sender = ok [];
  providers = record { inpost = λ d s p. run; apaczka = λ d p. run; allegro_delivery = λ d p. run };
  execution_dlq_kind = "execution";
  system_shipment_origin = "system";
  pickup_window = record { date = none; from_time = none; to_time = none };
  preview_fingerprint = none;
  failure_dlq_entry_id = none;
}

abbrev world : World
world = record { store = store; trace = [] }

abbrev busy_world : World
busy_world = record {
  store = record { drafts = ("d1", order "executing") ∷ []; dlq = [] };
  trace = [];
}

abbrev failing : Request
failing = request_of (raises timeout)

execute_draft_unclaimable_example : IsRefused busy_world (
    execute_draft
      (local_repository "10:00" "u1" healthy)
      (local_effects no_faults)
      "d1"
      failing
      busy_world)
execute_draft_unclaimable_example =
    execute_draft_unclaimable "10:00" "u1" healthy no_faults "d1" failing busy_world
      (unfold can_execute status_of in refl)

execute_draft_failed_example :
    IsReleasedOrLeft dlq_down "d1"
      (execute_draft
        (local_repository "10:00" "u1" dlq_down)
        (local_effects all_faults)
        "d1"
        failing
        world).1
execute_draft_failed_example =
    execute_draft_failed "10:00" "u1" dlq_down all_faults "d1" failing world
      (unfold execute_draft get_draft try_claim_execution can_execute in refl)

-- the dead-letter record and every event fail, and the claim is released all the same
dlq_down_run :
    is_claimed "d1"
      (execute_draft
        (local_repository "10:00" "u1" dlq_down)
        (local_effects all_faults)
        "d1"
        failing
        world).1
    ≡ false
unfolding execute_draft get_draft try_claim_execution can_execute on_failure release_execution_claim
    record_execution_failure update_draft enqueue_dlq
dlq_down_run = refl

-- the releasing write itself fails: the draft stays claimed
updates_down_run :
    is_claimed "d1"
      (execute_draft
        (local_repository "10:00" "u1" updates_down)
        (local_effects no_faults)
        "d1"
        failing
        world).1
    ≡ true
unfolding execute_draft get_draft try_claim_execution can_execute on_failure release_execution_claim
    record_execution_failure update_draft enqueue_dlq
updates_down_run = refl
