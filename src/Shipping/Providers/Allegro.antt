-- ===== src/Shipping/Providers/Allegro.antt =====
-- zdrovena/shipping/providers/allegro_delivery.py, and `_run_allegro_delivery` of
-- zdrovena/api/shipping_execution_composition.py. A command is created first, and answers later; the
-- stored shipments remember both. The credentials' check is left out: there is a client.
pub mod Pickup
pub mod Run
pub mod Makes
pub mod Commands
pub mod Quiet
pub mod Once
use zdrovena_reconciliation.Prelude.{
  ℕ, String, Bool, true, false, not, ◌&&◌, ◌||◌, Option, none, some, List, [], ◌∷◌, map, ◌==◌,
  str_eq, if◌then◌else◌,
}
use zdrovena_reconciliation.Prelude.Result.{Result, ok, err}
use zdrovena_reconciliation.Prelude.Dict.{Dict, insert}
use zdrovena_reconciliation.Shipping.State.{Status, same, created, pending_confirmation}
use zdrovena_reconciliation.Shipping.Parcels.{PackageType, ParcelSpec, PhysicalParcel, BreakdownRow}
use zdrovena_reconciliation.Shipping.Planning.{physical_parcels}
use zdrovena_reconciliation.Shipping.Planning.Reference.{Reference, shipment_reference}
use zdrovena_reconciliation.Shipping.Providers.Calls.{spec_of, Key, same_parcel_key}

pub record AllegroShipment : Type 0 where
  pub id : String
  pub tracking_number : String
  pub package_type : PackageType
  pub package_number : ℕ
  pub allegro_command_id : String

-- The draft's keys that are read; a missing text is empty.
pub record AllegroDraft : Type 0 where
  pub packages_breakdown : List BreakdownRow
  pub locker_id : String
  pub order_number : String
  pub external_order_id : String
  pub delivery_method_id : String
  pub credentials_id : Option String
  pub status : Option Status
  pub allegro_command_id : String
  pub allegro_pickup_command_id : String
  pub pickup_ordered : Bool
  pub courier_shipments : List AllegroShipment

-- `suggestedInput`; a block that is missing is empty
pub record SuggestedInput : Type 0 where
  pub sender : Dict String
  pub receiver : Dict String
  pub additional_services : List String

pub data AllegroError : Type 0 where
  no_suggested_input no_blocks no_order_id : AllegroError

pub record AllegroCall : Type 0 where
  pub package_type : PackageType
  pub package_number : ℕ
  pub reference : Reference
  pub delivery_method_id : Option String
  pub credentials_id : Option String
  pub spec : ParcelSpec
  pub sender : Dict String
  pub receiver : Dict String
  pub additional_services : Option String

abbrev pub call_key : AllegroCall → Key
call_key call = (call.package_type, call.package_number)

abbrev pub shipment_key : AllegroShipment → Key
shipment_key s = (s.package_type, s.package_number)

abbrev or_none : String → Option String
or_none s = if str_eq s "" then none else some s

-- `"sendingAtPoint" in proposed_services`
abbrev offers_point : List String → Bool
offers_point [] = false
offers_point (s ∷ ss) = str_eq s "sendingAtPoint" || offers_point ss

abbrev receiver_with : String → Dict String → Dict String
receiver_with point receiver = if str_eq point "" then receiver else insert "point" point receiver

abbrev pub allegro_call : AllegroDraft → SuggestedInput → PhysicalParcel → AllegroCall
allegro_call draft input parcel = record {
  package_type = parcel.package_type;
  package_number = parcel.position;
  reference = shipment_reference draft.order_number parcel.package_type 1 1;
  delivery_method_id = or_none draft.delivery_method_id;
  credentials_id = draft.credentials_id;
  spec = spec_of parcel.package_type;
  sender = input.sender;
  receiver = receiver_with draft.locker_id input.receiver;
  additional_services =
      if offers_point input.additional_services then some "sendingAtPoint" else none;
}

abbrev pub is_empty_block : Dict String → Bool
is_empty_block [] = true
is_empty_block (e ∷ es) = false

pub allegro_call_specs :
    AllegroDraft → Option SuggestedInput → Result AllegroError (List AllegroCall)
allegro_call_specs draft none = err no_suggested_input
allegro_call_specs draft (some input) =
    if is_empty_block input.sender || is_empty_block input.receiver
    then err no_blocks
    else ok (map (allegro_call draft input) (physical_parcels draft.packages_breakdown))

-- `shipments_by_key`
abbrev pub Shipments : Type 0
Shipments = List (Key × AllegroShipment)

pub shipment_of : Key → Shipments → Option AllegroShipment
unfolding same_parcel_key
shipment_of k [] = none
shipment_of k ((j, s) ∷ rest) =
    let found = shipment_of k rest in if same_parcel_key k j then some s else found

pub set_shipment : Key → AllegroShipment → Shipments → Shipments
unfolding same_parcel_key
set_shipment k s [] = (k, s) ∷ []
set_shipment k s ((j, t) ∷ rest) =
    let after = set_shipment k s rest in
    if same_parcel_key k j then (j, s) ∷ rest else (j, t) ∷ after

-- the dict comprehension: of two shipments with one key the later one stays
pub by_key : Shipments → List AllegroShipment → Shipments
unfolding set_shipment
by_key shipments [] = shipments
by_key shipments (s ∷ ss) = by_key (set_shipment (shipment_key s) s shipments) ss

pub ordered_shipments : List AllegroCall → Shipments → List AllegroShipment
unfolding shipment_of
ordered_shipments [] shipments = []
ordered_shipments (call ∷ calls) shipments =
    let rest = ordered_shipments calls shipments in
    elim (shipment_of (call_key call) shipments) [ none ↦ rest | some s ↦ s ∷ rest ]

pub record AllegroPatch : Type 0 where
  pub courier_draft_id : Option String
  pub allegro_shipment_id : Option String
  pub courier_shipments : List AllegroShipment
  pub tracking_number : Option String
  pub status : Status
  pub pickup_ordered : Bool
  pub allegro_command_id : Option String
  pub allegro_dispatch_id : Option String
  pub allegro_pickup_command_id : Option String
  pub error : Option String

abbrev first_id : List AllegroShipment → Option String
first_id [] = none
first_id (s ∷ ss) = or_none s.id

abbrev first_tracking : List AllegroShipment → Option String
first_tracking [] = none
first_tracking (s ∷ ss) = or_none s.tracking_number

-- `active` is `active_command_id`; the pickup's two keys are set by the caller, where it sets them
abbrev pub shipment_result : List AllegroCall → Shipments → Option String → Status → AllegroPatch
shipment_result calls shipments active status =
    let ordered = ordered_shipments calls shipments in
    record {
      courier_draft_id = first_id ordered;
      allegro_shipment_id = first_id ordered;
      courier_shipments = ordered;
      tracking_number = first_tracking ordered;
      status = status;
      pickup_ordered = false;
      allegro_command_id = active;
      allegro_dispatch_id = none;
      allegro_pickup_command_id = none;
      error = none;
    }
