-- ===== src/Shipping/Providers/Inpost.antt =====
-- zdrovena/shipping/providers/inpost.py, and `_run_inpost` of zdrovena/api/shipping_execution_composition.py.
pub mod Collects
pub mod Once
pub mod Complete
pub mod Returns
use Prim.Native.String.{◌++◌ as str_append}
use zdrovena_reconciliation.Prelude.{
  ℕ, ◌+◌, String, Bool, true, false, not, ◌&&◌, Option, none, some, List, [], ◌∷◌, ◌++◌, ◌==◌,
  length, is_some, str_eq, if◌then◌else◌,
}
use zdrovena_reconciliation.Prelude.Result.{Result, ok, err}
use zdrovena_reconciliation.Prelude.Result.{◌>>=◌ as bind}
use zdrovena_reconciliation.Prelude.Dict.{Dict}
use zdrovena_reconciliation.Prelude.Text.{strip}
use zdrovena_reconciliation.Shipping.State.{Status, same, pending_confirmation, created}
use zdrovena_reconciliation.Shipping.Sync.{normalize_pl_phone}
use zdrovena_reconciliation.Shipping.Parcels.{PackageType, one_pak, ParcelSpec, PhysicalParcel}
use zdrovena_reconciliation.Shipping.Planning.{ProductNames, or_text, physical_parcels}
use zdrovena_reconciliation.Shipping.Planning.Reference.{Reference, shipment_reference}
use zdrovena_reconciliation.Shipping.Cod.Money.{Decimal}
use zdrovena_reconciliation.Shipping.Cod.Allocation.{CodAllocation, cod_allocation}
use zdrovena_reconciliation.Shipping.Providers.Calls.{
  Checkpoint, Receiver, Address, ShipmentDraft, spec_of, ProviderError, invalid_cod,
  recipient_phone, locker_needs_one_parcel, of_split, Call, pending, specs_from, split_amounts,
  ProviderRaised, Action, ◌>>=◌, ◌>>◌, pure, planned, Created, book_all, ShipmentPatch,
  shipment_patch, dispatch_shipment_ids, is_blank,
}

-- the arguments that differ by the service
pub data Delivery : Type 0 where
  paczkomat : String → String → Delivery
  kurier : Address → String → Dict String → ParcelSpec → Delivery

pub record InpostArguments : Type 0 where
  pub first_name : String
  pub last_name : String
  pub email : String
  pub phone : String
  pub delivery : Delivery
  pub cod_currency : Option String

abbrev pub is_locker : ShipmentDraft → Bool
is_locker draft = str_eq draft.service "inpost_locker_standard"

-- `"/".join(filter(None, [building, flat]))`
abbrev join_slash : String → String → String
join_slash building flat =
    if str_eq building ""
    then flat
    else if str_eq flat ""
    then building
    else str_append building (str_append "/" flat)

abbrev building_text : Address → String
building_text address =
    join_slash (elim address.building_number [ none ↦ "1" | some b ↦ b ]) address.flat_number

abbrev delivery_of : ShipmentDraft → Dict String → PackageType → Delivery
delivery_of draft sender package_type =
    if is_locker draft
    then paczkomat draft.receiver.locker_id
        (or_text (spec_of package_type).paczkomat_template "large")
    else kurier draft.shipping_address (building_text draft.shipping_address) sender
        (spec_of package_type)

abbrev currency_of : ShipmentDraft → Option ℕ → Option String
currency_of draft none = none
currency_of draft (some amount) = some draft.cod_currency

abbrev pub inpost_call :
    ShipmentDraft → Dict String → String → PhysicalParcel → Option ℕ → Call InpostArguments
inpost_call draft sender phone parcel amount = record {
  package_type = parcel.package_type;
  package_number = parcel.position;
  collects = amount;
  reference =
      shipment_reference draft.order_number parcel.package_type parcel.position
        parcel.count_for_type;
  kwargs = record {
    first_name = draft.receiver.first_name;
    last_name = draft.receiver.last_name;
    email = draft.receiver.email;
    phone = phone;
    delivery = delivery_of draft sender parcel.package_type;
    cod_currency = currency_of draft amount;
  };
}

abbrev text_of_phone : Option String → String
text_of_phone none = ""
text_of_phone (some phone) = phone

module _ (names : ProductNames) (decimal : String → Option Decimal)
    (digits_of : String → String) where
  -- `cod_amounts` of a draft with so many parcels, by its `cod`
  pub inpost_amounts :
      ShipmentDraft → ℕ → Option (Option String) → Result ProviderError (Option (List ℕ))
  unfolding split_amounts
  inpost_amounts draft count none = ok none
  inpost_amounts draft count (some cod) =
      if is_locker draft && not (count == 1)
      then err locker_needs_one_parcel
      else split_amounts names decimal draft.money

  abbrev pub specs_for :
      ShipmentDraft → Dict String → String → Result ProviderError (List (Call InpostArguments))
  specs_for draft sender phone =
      let parcels = physical_parcels draft.money.packages_breakdown in
      bind (inpost_amounts draft (length parcels) draft.money.cod)
        λ amounts. specs_from (inpost_call draft sender phone) amounts 0 parcels

  unfoldable pub inpost_call_specs :
      ShipmentDraft → Dict String → Result ProviderError (List (Call InpostArguments))
  unfolding inpost_amounts specs_from
  inpost_call_specs draft sender =
      if not (str_eq draft.cod_error "")
      then err (invalid_cod draft.cod_error)
      else elim (normalize_pl_phone digits_of draft.receiver.phone) [
        | none ↦ err (recipient_phone (text_of_phone draft.receiver.phone) draft.order_number)
        | some phone ↦ specs_for draft sender phone
      ]

  unfoldable pub pending_inpost_call_specs :
      ShipmentDraft → Dict String → Result ProviderError (List (Call InpostArguments))
  unfolding inpost_call_specs pending
  pending_inpost_call_specs draft sender =
      bind (inpost_call_specs draft sender) λ specs. ok (pending draft.courier_shipments specs)

abbrev or_else : {A : Type 0} → Option A → A → A
or_else none a = a
or_else (some b) a = b

-- the courier's client
pub record InpostClient (S : Type 0) : Type 0 where
  pub create_shipment : Call InpostArguments → Action S Created
  -- the tracking number, empty where there is none yet
  pub get_shipment : String → Action S Created
  pub wait_for_shipment_confirmation : String → Action S Created
  -- `None` for an empty id
  pub create_dispatch_order : List String → Action S (Option String)

unfoldable pub is_resumable_inpost_draft : ShipmentDraft → Bool
is_resumable_inpost_draft draft = elim draft.status [
  | none ↦ false
  | some status ↦ same status pending_confirmation && not (is_blank draft.courier_draft_id)
]

module _ {S : Type 0} (client : InpostClient S) where
  pub confirmation : String → Action S Created
  confirmation shipment_id = client.get_shipment shipment_id >>= λ result.
      if str_eq result.tracking_number ""
      then client.wait_for_shipment_confirmation shipment_id
      else pure result

  abbrev pub refreshed : Checkpoint → Action S Checkpoint
  refreshed shipment =
      if not (is_blank shipment.id) && is_blank shipment.tracking_number
      then (confirmation (strip shipment.id) >>= λ result.
          pure (record shipment { tracking_number = result.tracking_number }))
      else pure shipment

  pub refresh_all : List Checkpoint → Action S (List Checkpoint)
  unfolding confirmation
  refresh_all [] s = (ok [], s)
  refresh_all (shipment ∷ shipments) s =
      (refreshed shipment >>= λ x. refresh_all shipments >>= λ xs. pure (x ∷ xs)) s

  abbrev pub legacy_shipment : String → Created → Checkpoint
  legacy_shipment shipment_id result = record {
    id = if str_eq result.id "" then shipment_id else result.id;
    tracking_number = result.tracking_number;
    package_type = one_pak;
    package_number = 1;
    pickup_number = none;
  }

  abbrev pub shipments_to_resume : ShipmentDraft → List Checkpoint → Action S (List Checkpoint)
  shipments_to_resume draft [] = confirmation (strip draft.courier_draft_id) >>= λ result.
      pure (legacy_shipment (strip draft.courier_draft_id) result ∷ [])
  shipments_to_resume draft (c ∷ cs) = refresh_all (c ∷ cs)

  abbrev pub resumed_patch : ShipmentDraft → List Checkpoint → ShipmentPatch
  resumed_patch draft shipments = record (shipment_patch shipments) {
    dispatch_order_id =
        or_else draft.dispatch_order_id (shipment_patch shipments).dispatch_order_id;
    pickup_ordered = or_else draft.pickup_ordered (shipment_patch shipments).pickup_ordered;
  }

  pub resume_inpost_shipment : ShipmentDraft → Action S ShipmentPatch
  unfolding refresh_all shipment_patch
  resume_inpost_shipment draft = shipments_to_resume draft draft.courier_shipments >>= λ shipments.
      pure (resumed_patch draft shipments)

  -- a dispatch order that fails is logged, and the patch stays as it is
  abbrev pub with_order : ShipmentPatch → Result ProviderRaised (Option String) → ShipmentPatch
  with_order patch (err e) = patch
  with_order patch (ok id) = record patch { dispatch_order_id = id; pickup_ordered = true }

  abbrev pub with_dispatch : ShipmentPatch → Action S ShipmentPatch
  with_dispatch patch s =
      let (r, s') =
        client.create_dispatch_order
          (dispatch_shipment_ids (or_text patch.courier_draft_id "") patch.courier_shipments) s in
      (ok (with_order patch r), s')

  pub dispatched : Bool → ShipmentPatch → Action S ShipmentPatch
  unfolding dispatch_shipment_ids
  dispatched pickup patch =
      if pickup && same patch.status created then with_dispatch patch else pure patch

module _ (names : ProductNames) (decimal : String → Option Decimal) (digits_of : String → String)
    {S : Type 0} (client : InpostClient S)
    (on_shipment_created : Checkpoint → Action S (Unit {0})) where
  -- whether a pickup date is given; the window itself is the client's
  pub run_inpost : Bool → ShipmentDraft → Dict String → Action S ShipmentPatch
  unfolding is_resumable_inpost_draft resume_inpost_shipment pending_inpost_call_specs book_all
      shipment_patch dispatched
  run_inpost pickup draft sender =
      if is_resumable_inpost_draft draft
      then resume_inpost_shipment client draft
      else planned (pending_inpost_call_specs names decimal digits_of draft sender) >>= λ specs.
          book_all client.create_shipment on_shipment_created specs draft.courier_shipments
          >>= λ shipments. dispatched client pickup (shipment_patch shipments)
