-- ===== src/Shipping/Providers/Apaczka.antt =====
-- zdrovena/shipping/providers/apaczka.py, and `_run_apaczka` of
-- zdrovena/api/shipping_execution_composition.py.
pub mod Missing
pub mod Complete
pub mod Once
use Prim.Native.String.{◌++◌ as str_append}
use zdrovena_reconciliation.Prelude.{
  ℕ, ◌+◌, String, Bool, true, false, not, ◌&&◌, ◌||◌, Option, none, some, List, [], ◌∷◌, str_eq,
  if◌then◌else◌,
}
use zdrovena_reconciliation.Prelude.Result.{Result, ok, err}
use zdrovena_reconciliation.Prelude.Result.{◌>>=◌ as bind}
use zdrovena_reconciliation.Prelude.Dict.{Dict}
use zdrovena_reconciliation.Prelude.Text.{strip}
use zdrovena_reconciliation.Shipping.Parcels.{PackageType, ParcelSpec, PhysicalParcel}
use zdrovena_reconciliation.Shipping.Planning.{ProductNames, physical_parcels}
use zdrovena_reconciliation.Shipping.Planning.Reference.{
  Reference, Material, SizeText, parcel_material_and_size, shipment_reference,
}
use zdrovena_reconciliation.Shipping.Cod.Money.{Decimal}
use zdrovena_reconciliation.Shipping.Providers.Calls.{
  Checkpoint, Receiver, Address, ShipmentDraft, spec_of, ProviderError, invalid_cod, pickup_window,
  no_service_id, no_point_id, unknown_point_type, point_not_found, point_without_cod, Call,
  parcel_key, is_checkpointed, split_amounts, amount_at, ProviderRaised, refused, Action, ◌>>=◌,
  ◌>>◌, pure, planned, Created, book_all, ShipmentPatch, shipment_patch,
}

-- when the courier is asked to come: the date and the two ends of the window
pub record ApaczkaWindow : Type 0 where
  pub pickup_date : Option String
  pub pickup_from : Option String
  pub pickup_to : Option String

pub record ApaczkaArguments : Type 0 where
  pub receiver_name : String
  pub receiver_firstname : String
  pub receiver_lastname : String
  pub receiver_email : String
  pub receiver_phone : String
  pub receiver_address : String
  pub receiver_city : String
  pub receiver_zip : String
  pub receiver_point_id : Option String
  pub sender : Dict String
  pub content : Material × SizeText
  pub spec : ParcelSpec
  pub pickup : ApaczkaWindow
  pub cod : Option (String × Option String)

-- the parts of the content line, which the source prints
pub parcel_content : PackageType → Material × SizeText
parcel_content t = parcel_material_and_size t

abbrev text : Option String → String
text none = ""
text (some s) = s

abbrev is_window : String → String → Bool
is_window from to =
    (str_eq from "09:00" && str_eq to "17:00")
    || (str_eq from "11:00" && str_eq to "14:00")
    || (str_eq from "14:00" && str_eq to "17:00")

abbrev is_empty : Option String → Bool
is_empty none = true
is_empty (some s) = false

pub validate_apaczka_pickup_window : String → ApaczkaWindow → Result ProviderError (Unit {0})
validate_apaczka_pickup_window service_id w =
    if not (str_eq service_id "23")
    then ok tt
    else if is_empty w.pickup_date && is_empty w.pickup_from && is_empty w.pickup_to
    then ok tt
    else if str_eq (text w.pickup_date) ""
        || not (is_window (text w.pickup_from) (text w.pickup_to))
    then err (pickup_window w.pickup_from w.pickup_to)
    else ok tt

-- `APACZKA_POINT_TYPE_BY_SERVICE_ID.get(service_id)`
pub point_type_of : String → Option String
point_type_of id =
    if str_eq id "14" || str_eq id "15"
    then some "UPS"
    else if str_eq id "23" || str_eq id "26"
    then some "DPD"
    else if str_eq id "50" || str_eq id "53"
    then some "PWR"
    else if str_eq id "64" || str_eq id "66"
    then some "POCZTA"
    else if str_eq id "86"
    then some "DHL_PARCEL"
    else if str_eq id "203"
    then some "GLS"
    else if str_eq id "314" || str_eq id "317"
    then some "PACKETA"
    else none

-- `str(pickup_point.get("id") or receiver.get("locker_id") or "").strip()`
abbrev pub point_id_of : ShipmentDraft → String
point_id_of draft =
    strip
      (if str_eq draft.pickup_point_id "" then draft.receiver.locker_id else draft.pickup_point_id)

abbrev filled : String → Option String
filled s = if str_eq s "" then none else some s

pub apaczka_cod_pickup_point_id : ShipmentDraft → Option String
apaczka_cod_pickup_point_id draft = elim draft.money.cod [
  | none ↦ none
  | some cod ↦ filled (point_id_of draft)
]

-- a point of the courier's: whether `option_cod` is `True`
pub record Point : Type 0 where
  pub option_cod : Bool

abbrev pub checked_point : String → Option Point → Result ProviderError (Unit {0})
checked_point point_id none = err (point_not_found point_id)
checked_point point_id (some point) =
    if point.option_cod then ok tt else err (point_without_cod point_id)

pub validate_apaczka_cod_pickup_point :
    {S : Type 0} → (String → String → Action S (Option Point)) → ShipmentDraft → Action S (Unit {0})
unfolding apaczka_cod_pickup_point_id point_type_of
validate_apaczka_cod_pickup_point get_point draft = elim (apaczka_cod_pickup_point_id draft) [
  | none ↦ pure tt
  | some point_id ↦ elim (point_type_of (strip draft.apaczka_service_id)) [
    | none ↦ planned (err (unknown_point_type point_id))
    | some point_type ↦
        get_point point_type point_id >>= λ point. planned (checked_point point_id point)
  ]
]

-- `" ".join(filter(None, [...]))`
abbrev join_words : List String → String
join_words [] = ""
join_words (w ∷ ws) =
    let rest = join_words ws in
    if str_eq w "" then rest else if str_eq rest "" then w else str_append w (str_append " " rest)

-- what is collected, in what currency and on which account
abbrev collected_fields : ShipmentDraft → Option String → Option ℕ → Option (String × Option String)
collected_fields draft account none = none
collected_fields draft account (some amount) = some (draft.cod_currency, account)

abbrev pub apaczka_call :
    ShipmentDraft
    → Dict String
    → Option String
    → ApaczkaWindow
    → PhysicalParcel
    → Option ℕ
    → Call ApaczkaArguments
apaczka_call draft pickup_address account w parcel amount = record {
  package_type = parcel.package_type;
  package_number = parcel.position;
  collects = amount;
  reference =
      shipment_reference draft.order_number parcel.package_type parcel.position
        parcel.count_for_type;
  kwargs = record {
    receiver_name =
        strip (str_append draft.receiver.first_name (str_append " " draft.receiver.last_name));
    receiver_firstname = draft.receiver.first_name;
    receiver_lastname = draft.receiver.last_name;
    receiver_email = draft.receiver.email;
    receiver_phone = text draft.receiver.phone;
    receiver_address = join_words (
        draft.shipping_address.street
        ∷ text draft.shipping_address.building_number
        ∷ draft.shipping_address.flat_number
        ∷ []);
    receiver_city = draft.shipping_address.city;
    receiver_zip = draft.shipping_address.post_code;
    receiver_point_id = filled (point_id_of draft);
    sender = pickup_address;
    content = parcel_content parcel.package_type;
    spec = spec_of parcel.package_type;
    pickup = w;
    cod = collected_fields draft account amount;
  };
}

-- the loop over the parcels, which passes over those that have a checkpoint
pub missing_specs :
    {A : Type 0}
    → (PhysicalParcel → Option ℕ → Call A)
    → List Checkpoint
    → Option (List ℕ)
    → ℕ
    → List PhysicalParcel
    → Result ProviderError (List (Call A))
unfolding amount_at is_checkpointed
missing_specs build existing amounts position [] = ok []
missing_specs build existing amounts position (parcel ∷ parcels) =
    let rest = missing_specs build existing amounts (position + 1) parcels in
    if is_checkpointed (parcel_key parcel) existing
    then rest
    else bind (amount_at amounts position)
        λ amount. bind rest λ specs. ok (build parcel amount ∷ specs)

module _ (names : ProductNames) (decimal : String → Option Decimal) where
  pub apaczka_amounts :
      ShipmentDraft → Option (Option String) → Result ProviderError (Option (List ℕ))
  unfolding split_amounts
  apaczka_amounts draft none = ok none
  apaczka_amounts draft (some cod) = split_amounts names decimal draft.money

  abbrev pub missing_for :
      ShipmentDraft
      → Dict String
      → Option String
      → ApaczkaWindow
      → Result ProviderError (List (Call ApaczkaArguments))
  missing_for draft pickup_address account w =
      bind (apaczka_amounts draft draft.money.cod) λ amounts.
        missing_specs (apaczka_call draft pickup_address account w) draft.courier_shipments amounts
          0 (physical_parcels draft.money.packages_breakdown)

  pub apaczka_call_specs :
      ShipmentDraft
      → Dict String
      → Option String
      → ApaczkaWindow
      → Result ProviderError (List (Call ApaczkaArguments))
  unfolding validate_apaczka_pickup_window apaczka_amounts missing_specs
  apaczka_call_specs draft pickup_address account w =
      if not (str_eq draft.cod_error "")
      then err (invalid_cod draft.cod_error)
      else bind (validate_apaczka_pickup_window draft.apaczka_service_id w)
          λ u. missing_for draft pickup_address account w

-- the courier's client
pub record ApaczkaClient (S : Type 0) : Type 0 where
  pub create_shipment : Call ApaczkaArguments → Action S Created
  pub get_order_pickup_number : String → Action S String
  pub get_point : String → String → Action S (Option Point)

module _ {S : Type 0} (client : ApaczkaClient S) where
  abbrev pub or_blank : Result ProviderRaised String → String
  or_blank (err e) = ""
  or_blank (ok number) = number

  pub apaczka_pickup_number : String → Action S String
  apaczka_pickup_number order_id s =
      let (r, s') = client.get_order_pickup_number order_id s in
      if str_eq order_id "" then (ok "", s) else (ok (or_blank r), s')

  -- one parcel's order, with its pickup number
  pub create_order : Call ApaczkaArguments → Action S Created
  unfolding apaczka_pickup_number
  create_order call = client.create_shipment call >>= λ result.
      apaczka_pickup_number result.id >>= λ number.
      pure (record result { pickup_number = some number })

-- `get_apaczka_cod_bank_account`, given the secret
abbrev pub cod_bank_account : ShipmentDraft → Option String → Option String
cod_bank_account draft secret = elim draft.money.cod [ none ↦ none | some cod ↦ secret ]

abbrev requires_point : String → Bool
requires_point id = str_eq id "23" || str_eq id "64"

-- the checks of `_run_apaczka` before there is a client
pub check_service : ShipmentDraft → ApaczkaWindow → Result ProviderError (Unit {0})
unfolding validate_apaczka_pickup_window
check_service draft w =
    if str_eq draft.apaczka_service_id ""
    then err no_service_id
    else if requires_point draft.apaczka_service_id && str_eq (point_id_of draft) ""
    then err (no_point_id draft.apaczka_service_id)
    else validate_apaczka_pickup_window draft.apaczka_service_id w

module _ (names : ProductNames) (decimal : String → Option Decimal) {S : Type 0}
    (client : ApaczkaClient S) (on_shipment_created : Checkpoint → Action S (Unit {0})) where
  -- all that comes before the first booking
  pub plan_apaczka :
      ShipmentDraft
      → Dict String
      → Option String
      → ApaczkaWindow
      → Action S (List (Call ApaczkaArguments))
  unfolding check_service validate_apaczka_cod_pickup_point apaczka_call_specs
  plan_apaczka draft pickup_address secret w =
      planned (check_service draft w)
      >> validate_apaczka_cod_pickup_point client.get_point draft
      >> planned
          (apaczka_call_specs names decimal draft pickup_address (cod_bank_account draft secret) w)

  pub run_apaczka :
      ShipmentDraft → Dict String → Option String → ApaczkaWindow → Action S ShipmentPatch
  unfolding plan_apaczka create_order book_all shipment_patch
  run_apaczka draft pickup_address secret w =
      plan_apaczka draft pickup_address secret w >>= λ specs.
      book_all (create_order client) on_shipment_created specs draft.courier_shipments
      >>= λ shipments. pure (shipment_patch shipments)
