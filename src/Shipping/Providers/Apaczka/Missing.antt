-- ===== src/Shipping/Providers/Apaczka/Missing.antt =====
-- The loop of `apaczka_call_specs` and its full plan.
use zdrovena_reconciliation.Prelude.{
  ℕ, ◌+◌, ◌≡◌, refl, ap, String, Option, none, some, List, [], ◌∷◌, arith, if◌then◌else◌, inl, inr,
  Bool-cases, str_eq,
}
use zdrovena_reconciliation.Prelude.Dict.{Dict}
use zdrovena_reconciliation.Prelude.Result.{Result, ok, err, Result-cases}
use zdrovena_reconciliation.Prelude.Result.{◌>>=◌ as bind}
use zdrovena_reconciliation.Shipping.Parcels.{PhysicalParcel}
use zdrovena_reconciliation.Shipping.Planning.{ProductNames, physical_parcels}
use zdrovena_reconciliation.Shipping.Cod.Money.{Decimal}
use zdrovena_reconciliation.Shipping.Providers.Calls.{
  Checkpoint, ShipmentDraft, Call, key_of, parcel_key, is_checkpointed, pending, ProviderError,
  amount_at, specs_from,
}
use zdrovena_reconciliation.Shipping.Providers.Apaczka.{
  ApaczkaWindow, ApaczkaArguments, apaczka_call, missing_specs, apaczka_amounts, apaczka_call_specs,
  validate_apaczka_pickup_window,
}
use zdrovena_reconciliation.Shipping.Providers.Plans.{
  Plans, Plans-bind, IsAgreed, IsPlan, split_amounts-Plans, Succeeds, Succeeds-agreed,
}

pending-empty : {A : Type 0} (specs : List (Call A)) → pending [] specs ≡ specs
unfolding pending
pending-empty [] = refl
pending-empty (spec ∷ specs) = ap (λ xs. spec ∷ xs) (pending-empty specs)

-- what is left of a plan, where there is one
abbrev pub left_of :
    {A : Type 0}
    → List Checkpoint
    → Result ProviderError (List (Call A))
    → Result ProviderError (List (Call A))
left_of existing r = bind r λ specs. ok (pending existing specs)

-- where the full plan succeeds, the second result is what is left of it
IsLeft :
    {A : Type 0}
    → List Checkpoint
    → Result ProviderError (List (Call A))
    → Result ProviderError (List (Call A))
    → Type 0
IsLeft existing (err e) r = Unit
IsLeft existing (ok full) r = r ≡ ok (pending existing full)

module _ {A : Type 0} (build : PhysicalParcel → Option ℕ → Call A)
    (key_of_build : (p : PhysicalParcel) (a : Option ℕ) → key_of (build p a) ≡ parcel_key p)
    (existing : List Checkpoint) where
  missing_specs-IsLeft :
      (amounts : Option (List ℕ)) (position : ℕ) (parcels : List PhysicalParcel)
      → IsLeft existing
          (specs_from build amounts position parcels)
          (missing_specs build existing amounts position parcels)
  unfolding missing_specs specs_from pending IsLeft
  missing_specs-IsLeft amounts position [] = refl
  missing_specs-IsLeft amounts position (p ∷ ps) =
      go (amount_at amounts position) (specs_from build amounts (position + 1) ps) _
        (missing_specs-IsLeft amounts (position + 1) ps)
    where
      go :
          (a : Result ProviderError (Option ℕ)) (full r : Result ProviderError (List (Call A)))
          → IsLeft existing full r
          → IsLeft existing (bind a λ amount. bind full λ rest. ok (build p amount ∷ rest)) (
              if is_checkpointed (parcel_key p) existing
              then r
              else bind a λ amount. bind r λ specs. ok (build p amount ∷ specs))
      go (err e) full r h = tt
      go (ok a) (err e) r h = tt
      go (ok a) (ok full) r h = elim (Bool-cases (is_checkpointed (parcel_key p) existing)) [
        | inl f ↦ rw (key_of_build p a, f) h
        | inr f ↦ rw (key_of_build p a, f, h) refl
      ]

joined :
    {A : Type 0} (P : List (Call A) → Type 0) (existing : List Checkpoint)
    (full r r' : Result ProviderError (List (Call A)))
    → Succeeds P full
    → IsLeft existing full r
    → IsLeft [] full r'
    → r ≡ left_of existing r'
unfolding IsLeft
joined P existing (ok full) r r' s h h' = rw (h, h', pending-empty full) refl
joined P existing (err e) r r' s h h' = absurd s

left_whole :
    {A : Type 0} (P : List (Call A) → Type 0) (full r : Result ProviderError (List (Call A)))
    → Succeeds P full
    → IsLeft [] full r
    → Plans P r
unfolding IsLeft
left_whole P (ok full) r h l = rw (l, pending-empty full) h
left_whole P (err e) r h l = absurd h

validate-Plans :
    (service_id : String) (w : ApaczkaWindow)
    → Plans (λ u. Unit {0}) (validate_apaczka_pickup_window service_id w)
unfolding validate_apaczka_pickup_window
validate-Plans service_id w = ground arith

-- the draft as it was before the first of its parcels was booked
abbrev pub unbooked : ShipmentDraft → ShipmentDraft
unbooked draft = record draft { courier_shipments = [] }

module _ (names : ProductNames) (decimal : String → Option Decimal) (draft : ShipmentDraft)
    (pickup_address : Dict String) (account : Option String) (w : ApaczkaWindow) where
  abbrev apaczka_build : PhysicalParcel → Option ℕ → Call ApaczkaArguments
  apaczka_build = apaczka_call draft pickup_address account w

  apaczka_amounts-unbooked :
      (cod : Option (Option String))
      → apaczka_amounts names decimal (unbooked draft) cod ≡ apaczka_amounts names decimal draft cod
  unfolding apaczka_amounts
  apaczka_amounts-unbooked none = refl
  apaczka_amounts-unbooked (some cod) = refl

  apaczka_amounts-Plans :
      (cod : Option (Option String))
      → Plans (IsAgreed names decimal draft.money cod) (apaczka_amounts names decimal draft cod)
  unfolding apaczka_amounts
  apaczka_amounts-Plans none = refl
  apaczka_amounts-Plans (some cod) = split_amounts-Plans names decimal draft.money cod

  abbrev loop :
      List Checkpoint → Option (List ℕ) → Result ProviderError (List (Call ApaczkaArguments))
  loop existing amounts =
      missing_specs apaczka_build existing amounts 0
        (physical_parcels draft.money.packages_breakdown)

  missing_for-eq :
      (r : Result ProviderError (Option (List ℕ)))
      → Plans (IsAgreed names decimal draft.money draft.money.cod) r
      → bind r (loop draft.courier_shipments) ≡ left_of draft.courier_shipments (bind r (loop []))
  missing_for-eq (err e) h = refl
  missing_for-eq (ok amounts) h =
      let parcels = physical_parcels draft.money.packages_breakdown in
      joined (IsPlan names decimal draft.money) draft.courier_shipments
        (specs_from apaczka_build amounts 0 parcels) _ _
        (Succeeds-agreed names decimal draft.money apaczka_build (λ p a. refl) (λ p a. refl)
          draft.money.cod amounts refl h)
        (missing_specs-IsLeft apaczka_build (λ p a. refl) draft.courier_shipments amounts 0 parcels)
        (missing_specs-IsLeft apaczka_build (λ p a. refl) [] amounts 0 parcels)

  abbrev pub specs_of : ShipmentDraft → Result ProviderError (List (Call ApaczkaArguments))
  specs_of d = apaczka_call_specs names decimal d pickup_address account w

  apaczka_call_specs-pending :
      specs_of draft ≡ left_of draft.courier_shipments (specs_of (unbooked draft))
  unfolding apaczka_call_specs
  apaczka_call_specs-pending = elim (Bool-cases (str_eq draft.cod_error "")) [
    | inr f ↦ rw (f, apaczka_call_specs) refl
    | inl f ↦ elim (Result-cases (validate_apaczka_pickup_window draft.apaczka_service_id w)) [
      | inl (e, g) ↦ rw (f, g, apaczka_call_specs) refl
      | inr (u, g) ↦
          rw (f, g, apaczka_call_specs, apaczka_amounts-unbooked draft.money.cod)
            (missing_for-eq (apaczka_amounts names decimal draft draft.money.cod)
              (apaczka_amounts-Plans draft.money.cod))
    ]
  ]

  missing_for-Plans :
      (r : Result ProviderError (Option (List ℕ)))
      → Plans (IsAgreed names decimal draft.money draft.money.cod) r
      → Plans (IsPlan names decimal draft.money) (bind r (loop []))
  missing_for-Plans (err e) h = h
  missing_for-Plans (ok amounts) h =
      let parcels = physical_parcels draft.money.packages_breakdown in
      left_whole (IsPlan names decimal draft.money) (specs_from apaczka_build amounts 0 parcels) _
        (Succeeds-agreed names decimal draft.money apaczka_build (λ p a. refl) (λ p a. refl)
          draft.money.cod amounts refl h)
        (missing_specs-IsLeft apaczka_build (λ p a. refl) [] amounts 0 parcels)

  unbooked-Plans : Plans (IsPlan names decimal draft.money) (specs_of (unbooked draft))
  unfolding apaczka_call_specs
  unbooked-Plans = elim (Bool-cases (str_eq draft.cod_error "")) [
    | inr f ↦ rw (f, apaczka_call_specs) tt
    | inl f ↦
        rw (f, apaczka_call_specs)
          (Plans-bind (λ u. Unit {0}) (IsPlan names decimal draft.money) _ _
            (validate-Plans draft.apaczka_service_id w)
            λ u v. rw (apaczka_amounts-unbooked draft.money.cod) (
              missing_for-Plans (apaczka_amounts names decimal draft draft.money.cod)
                (apaczka_amounts-Plans draft.money.cod)))
  ]

  -- The calls to Apaczka. For a draft of which nothing is booked the planning returns one call for
  -- each physical parcel, in their order, and the calls collect nothing, or, where there is a
  -- collection amount, amounts that are not zero and add up to it to the grosz; or it refuses, which counts the
  -- split's uncaught `decimal.InvalidOperation` on more than 28 digits in. Once
  -- parcels are booked, it gives exactly the calls of that plan for the parcels without a checkpoint:
  -- each keeps its number and its own share of the amount, however many before it are passed over.
  -- It then refuses exactly where the planning of the unbooked draft does.
  pub apaczka_call_specs_left :
      Plans (IsPlan names decimal draft.money) (specs_of (unbooked draft))
      × (specs_of draft ≡ left_of draft.courier_shipments (specs_of (unbooked draft)))
  apaczka_call_specs_left = (unbooked-Plans, apaczka_call_specs-pending)
