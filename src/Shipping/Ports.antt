-- ===== src/Shipping/Ports.antt =====
-- The interfaces of zdrovena/shipping/application/execution/workflow.py: the repository and the effects
-- that the source injects. An operation takes the state and gives back a value, or what it raised,
-- with the state. Providers, previews and the sender's settings are arguments, as in the source.
use Prim.Native.String.{◌++◌ as str_append}
use zdrovena_reconciliation.Prelude.{String, Bool, Option, none, some, List}
use zdrovena_reconciliation.Prelude.Result.{Result, ok, err}
use zdrovena_reconciliation.Shipping.Draft.{Value, Shipment, Draft}
use zdrovena_reconciliation.Shipping.Store.{DlqEntry, DlqRequest}

-- A raised exception: whether it is a `ZdrovenaShippingError`, its class and its text.
pub record Exc : Type 0 where
  pub is_shipping : Bool
  pub class_name : String
  pub message : String

-- `f"{type(exc).__name__}: {exc}"`
abbrev pub describe : Exc → String
describe e = str_append e.class_name (str_append ": " e.message)

abbrev pub Action : Type 0 → Type 0 → Type 0
Action S A = S → Result Exc A × S

pub data Event : Type 0 where
  dlq_enqueued : DlqEntry → Option Value → String → String → Event
  -- draft, order number, courier, tracking number, all tracking numbers, courier draft, dispatch
  -- order, status
  shipment_created :
      String
      → Option Value
      → Option Value
      → Option Value
      → List String
      → Option Value
      → Option Value
      → Option Value
      → Event

-- `ExecutionRepository`
pub record Repository (S : Type 0) : Type 0 where
  pub get_draft : String → Action S (Option Draft)
  pub try_claim_execution : String → Action S Bool
  pub update_draft : String → Draft → Action S Bool
  pub enqueue_dlq : DlqRequest → Action S DlqEntry

-- `ExecutionEffects`; a logging call does not raise
pub record Effects (S : Type 0) : Type 0 where
  pub record_event : Event → Action S (Unit {0})
  pub emit_tracking_assigned :
      String → Option Value → Option Value → Option Value → Option Value → Action S (Unit {0})
  pub push_tracking : Draft → Action S (Unit {0})
  pub log_exception : String → S → S

-- What a provider runner does here: the callbacks that it makes, each with what the runner does when
-- the callback returned (`none`) or raised, and its end, a patch or an exception.
pub data ProviderRun : Type 0 where
  returns : Draft → ProviderRun
  raises : Exc → ProviderRun
  on_shipment_created on_shipment_checkpoint : Shipment → (Option Exc → ProviderRun) → ProviderRun
  on_command_created on_pickup_command_created : String → (Option Exc → ProviderRun) → ProviderRun

pub record PickupWindow : Type 0 where
  pub date : Option String
  pub from_time : Option String
  pub to_time : Option String

pub record ProviderRunners : Type 0 where
  pub inpost : Draft → Draft → PickupWindow → ProviderRun
  pub apaczka : Draft → PickupWindow → ProviderRun
  pub allegro_delivery : Draft → PickupWindow → ProviderRun

pub record Preview : Type 0 where
  pub fingerprint : String
  pub sender : Draft

-- The other arguments of `execute_draft`. Building a preview and resolving the sender read settings.
pub record Request : Type 0 where
  pub build_preview : Draft → Result Exc Preview
  pub resolve_sender : Result Exc Draft
  pub providers : ProviderRunners
  pub execution_dlq_kind : String
  pub system_shipment_origin : String
  pub pickup_window : PickupWindow
  pub preview_fingerprint : Option String
  pub failure_dlq_entry_id : Option String

pub data Failure : Type 0 where
  draft_not_found requires_review fingerprint_mismatch claim_conflict : Failure
  -- raised before the claim, and passed on as it is
  escaped : Exc → Failure
  -- a `ZdrovenaShippingError` after the claim, and any other exception in its wrapper
  shipping communication : Exc → Failure

abbrev pub raised : {A : Type 0} → Result Exc A → Option Exc
raised (ok a) = none
raised (err e) = some e

infixl 5 ◌>>=◌ ◌>>◌
abbrev pub ◌>>=◌ : {S A B : Type 0} → Action S A → (A → Action S B) → Action S B
◌>>=◌ m next s = let (r, s') = m s in elim r [ err e ↦ (err e, s') | ok a ↦ next a s' ]

abbrev pub ◌>>◌ : {S A B : Type 0} → Action S A → Action S B → Action S B
m >> next = m >>= λ _. next

abbrev pub pure : {S A : Type 0} → A → Action S A
pure a s = (ok a, s)
