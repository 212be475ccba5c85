-- ===== src/Shipping/Providers/Calls.antt =====
-- What the providers under zdrovena/shipping/providers share: the draft that they read, the calls that
-- they plan, one for each parcel, and the loop of zdrovena/api/shipping_execution_composition.py that
-- makes them. A stored shipment's type and number are read as a parcel's; the sender's settings, the
-- couriers and the callback that stores a shipment are arguments. MOCK_COURIER is off.
use zdrovena_reconciliation.Prelude.{
  ℕ, ◌+◌, String, Bool, true, false, not, ◌&&◌, ◌||◌, Option, none, some, List, [], ◌∷◌, ◌++◌, ◌==◌,
  get_elem?, str_eq, if◌then◌else◌,
}
use zdrovena_reconciliation.Prelude.Result.{Result, ok, err}
use zdrovena_reconciliation.Prelude.Result.{◌>>=◌ as bind}
use zdrovena_reconciliation.Prelude.Text.{strip}
use zdrovena_reconciliation.Shipping.State.{Status, created, pending_confirmation}
use zdrovena_reconciliation.Shipping.Parcels.{
  PackageType, three_pak, two_pak, one_pak, half_pak, glass_box, glass_two_pak, unlisted,
  ParcelSpec, parcel_specs, default_dims, PhysicalParcel,
}
use zdrovena_reconciliation.Shipping.Planning.{ProductNames}
use zdrovena_reconciliation.Shipping.Planning.Reference.{Reference}
use zdrovena_reconciliation.Shipping.Ports.{Exc}
use zdrovena_reconciliation.Shipping.Cod.Money.{CodError, Decimal}
use zdrovena_reconciliation.Shipping.Cod.Allocation.{CodDraft, cod_allocation}

-- a stored shipment of `courier_shipments`
pub record Checkpoint : Type 0 where
  pub id : String
  pub tracking_number : String
  pub package_type : PackageType
  pub package_number : ℕ
  pub pickup_number : Option String

pub record Receiver : Type 0 where
  pub first_name : String
  pub last_name : String
  pub email : String
  pub phone : Option String
  pub locker_id : String

pub record Address : Type 0 where
  pub street : String
  pub building_number : Option String
  pub flat_number : String
  pub city : String
  pub post_code : String

-- The draft's keys that the providers read. A missing text is empty but for the phone and the
-- building number; `money` has the collection amount, the order's lines and the stored plan.
pub record ShipmentDraft : Type 0 where
  pub money : CodDraft
  pub cod_error : String
  pub cod_currency : String
  pub status : Option Status
  pub service : String
  pub apaczka_service_id : String
  pub order_number : String
  pub receiver : Receiver
  pub pickup_point_id : String
  pub shipping_address : Address
  pub courier_draft_id : String
  pub courier_shipments : List Checkpoint
  -- `none` where the key is missing
  pub dispatch_order_id : Option (Option String)
  pub pickup_ordered : Option Bool

-- `PARCEL_SPECS.get(package_type, PARCEL_SPECS["1-pak"])`
abbrev pub spec_of : PackageType → ParcelSpec
spec_of t = elim (parcel_specs t) [ some spec ↦ spec | none ↦ default_dims ]

-- why no call is planned: the refusals of both providers, what the split raises, and an `IndexError`
pub data ProviderError : Type 0 where
  invalid_cod : String → ProviderError
  recipient_phone : String → String → ProviderError
  locker_needs_one_parcel : ProviderError
  of_split : CodError → ProviderError
  missing_amount : ℕ → ProviderError
  pickup_window : Option String → Option String → ProviderError
  no_service_id : ProviderError
  no_point_id : String → ProviderError
  unknown_point_type : String → ProviderError
  point_not_found point_without_cod : String → ProviderError

-- the call for one parcel: what it collects, in grosze, and the courier's own arguments
pub record Call (A : Type 0) : Type 0 where
  pub package_type : PackageType
  pub package_number : ℕ
  pub collects : Option ℕ
  pub reference : Reference
  pub kwargs : A

-- `(package_type, package_number)`
abbrev pub Key : Type 0
Key = PackageType × ℕ

abbrev pub key_of : {A : Type 0} → Call A → Key
key_of call = (call.package_type, call.package_number)

abbrev pub stored_key : Checkpoint → Key
stored_key c = (c.package_type, c.package_number)

abbrev pub parcel_key : PhysicalParcel → Key
parcel_key p = (p.package_type, p.position)

unfoldable pub same_type : PackageType → PackageType → Bool
same_type three_pak three_pak = true
same_type two_pak two_pak = true
same_type one_pak one_pak = true
same_type half_pak half_pak = true
same_type glass_box glass_box = true
same_type glass_two_pak glass_two_pak = true
same_type (unlisted s) (unlisted t) = str_eq s t
same_type _ _ = false

unfoldable pub same_parcel_key : Key → Key → Bool
unfolding same_type
same_parcel_key (s, m) (t, n) = same_type s t && m == n

-- `key in existing_keys`
unfoldable pub is_checkpointed : Key → List Checkpoint → Bool
unfolding same_parcel_key
is_checkpointed k [] = false
is_checkpointed k (c ∷ cs) = same_parcel_key k (stored_key c) || is_checkpointed k cs

-- the calls for the parcels that have no checkpoint
unfoldable pub pending : {A : Type 0} → List Checkpoint → List (Call A) → List (Call A)
unfolding is_checkpointed
pending existing [] = []
pending existing (spec ∷ specs) =
    let rest = pending existing specs in
    if is_checkpointed (key_of spec) existing then rest else spec ∷ rest

-- `cod_amounts[position]`, where there is anything to collect
unfoldable pub amount_at : Option (List ℕ) → ℕ → Result ProviderError (Option ℕ)
amount_at none position = ok none
amount_at (some amounts) position = elim (get_elem? amounts position) [
  | none ↦ err (missing_amount position)
  | some amount ↦ ok (some amount)
]

-- `cod_amounts`, of a draft with a collection amount
unfoldable pub split_amounts :
    ProductNames → (String → Option Decimal) → CodDraft → Result ProviderError (Option (List ℕ))
split_amounts names decimal money = elim (cod_allocation names decimal money) [
  | err e ↦ err (of_split e)
  | ok allocation ↦ ok (some allocation.amounts)
]

-- the loop over the parcels, from a position on: the call for each, with what it collects
unfoldable pub specs_from :
    {A : Type 0}
    → (PhysicalParcel → Option ℕ → Call A)
    → Option (List ℕ)
    → ℕ
    → List PhysicalParcel
    → Result ProviderError (List (Call A))
unfolding amount_at
specs_from build amounts position [] = ok []
specs_from build amounts position (parcel ∷ parcels) = bind (amount_at amounts position) λ amount.
    bind (specs_from build amounts (position + 1) parcels) λ rest. ok (build parcel amount ∷ rest)

-- an exception: a refusal of the provider's own, or one that the courier's client or the callback raised
pub data ProviderRaised : Type 0 where
  refused : ProviderError → ProviderRaised
  communication : Exc → ProviderRaised

abbrev pub Action : Type 0 → Type 0 → Type 0
Action S A = S → Result ProviderRaised A × S

infixl 5 ◌>>=◌ ◌>>◌
abbrev pub ◌>>=◌ : {S A B : Type 0} → Action S A → (A → Action S B) → Action S B
◌>>=◌ m next s = let (r, s') = m s in elim r [ err e ↦ (err e, s') | ok a ↦ next a s' ]

abbrev pub ◌>>◌ : {S A B : Type 0} → Action S A → Action S B → Action S B
m >> next = m >>= λ _. next

abbrev pub pure : {S A : Type 0} → A → Action S A
pure a s = (ok a, s)

abbrev pub planned : {S A : Type 0} → Result ProviderError A → Action S A
planned (ok a) s = (ok a, s)
planned (err e) s = (err (refused e), s)

-- what a courier answers to a new shipment; the pickup number is Apaczka's
pub record Created : Type 0 where
  pub id : String
  pub tracking_number : String
  pub pickup_number : Option String

abbrev pub checkpoint_of : {A : Type 0} → Call A → Created → Checkpoint
checkpoint_of call result = record {
  id = result.id;
  tracking_number = result.tracking_number;
  package_type = call.package_type;
  package_number = call.package_number;
  pickup_number = result.pickup_number;
}

module _ {S A : Type 0} (create : Call A → Action S Created)
    (on_shipment_created : Checkpoint → Action S (Unit {0})) where
  -- the loop over the planned calls
  unfoldable pub book_all : List (Call A) → List Checkpoint → Action S (List Checkpoint)
  book_all [] existing s = (ok existing, s)
  book_all (call ∷ calls) existing s =
      (create call >>= λ result.
      on_shipment_created (checkpoint_of call result)
      >> book_all calls (existing ++ checkpoint_of call result ∷ []))
        s

-- what `shipment_patch` writes on the draft
pub record ShipmentPatch : Type 0 where
  pub courier_draft_id : Option String
  pub courier_shipments : List Checkpoint
  pub dispatch_order_id : Option String
  pub tracking_number : Option String
  pub status : Status
  pub pickup_ordered : Bool
  pub error : Option String

abbrev pub is_blank : String → Bool
is_blank s = str_eq (strip s) ""

-- `all(... for shipment in shipments)`
abbrev pub all_tracked : List Checkpoint → Bool
all_tracked [] = true
all_tracked (c ∷ cs) = not (is_blank c.tracking_number) && all_tracked cs

abbrev pub first_of : {A : Type 0} → List A → Option A
first_of [] = none
first_of (x ∷ xs) = some x

abbrev pub is_confirmed : List Checkpoint → Bool
is_confirmed [] = false
is_confirmed (c ∷ cs) = all_tracked (c ∷ cs)

unfoldable pub shipment_patch : List Checkpoint → ShipmentPatch
shipment_patch shipments = record {
  courier_draft_id = elim (first_of shipments) [ none ↦ none | some c ↦ some c.id ];
  courier_shipments = shipments;
  dispatch_order_id = none;
  tracking_number = elim (first_of shipments) [ none ↦ none | some c ↦ some c.tracking_number ];
  status = if is_confirmed shipments then created else pending_confirmation;
  pickup_ordered = false;
  error = none;
}

-- `dispatch_shipment_ids` of a patch
pub filled_ids : List Checkpoint → List String
filled_ids [] = []
filled_ids (c ∷ cs) = let rest = filled_ids cs in if is_blank c.id then rest else strip c.id ∷ rest

unfoldable pub dispatch_shipment_ids : String → List Checkpoint → List String
unfolding filled_ids
dispatch_shipment_ids legacy shipments = elim (filled_ids shipments) [
  | id ∷ ids ↦ id ∷ ids
  | [] ↦ if is_blank legacy then [] else strip legacy ∷ []
]
