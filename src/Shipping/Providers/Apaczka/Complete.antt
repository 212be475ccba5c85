-- ===== src/Shipping/Providers/Apaczka/Complete.antt =====
-- What an Apaczka execution that returns has done: with any client, and any callback.
use zdrovena_reconciliation.Prelude.{◌≡◌, refl, subst, String, Option, some, List, map, inl, inr}
use zdrovena_reconciliation.Prelude.Dict.{Dict}
use zdrovena_reconciliation.Prelude.Result.{Result, ok, err, Result-cases}
use zdrovena_reconciliation.Shipping.Planning.{ProductNames}
use zdrovena_reconciliation.Shipping.Cod.Money.{Decimal}
use zdrovena_reconciliation.Shipping.Providers.Calls.{
  Checkpoint, ShipmentDraft, Call, key_of, pending, ProviderError, Action, ◌>>=◌, ◌>>◌, planned,
  pure, ShipmentPatch, shipment_patch, book_all, checkpoint_of, Created,
}
use zdrovena_reconciliation.Shipping.Providers.Yields.{
  Yields, Yields-bind, Yields-any, Yields-mono, IsReply, AreReplies, AreMissing, IsBooked,
  IsExtended, parcel_keys, book_all-IsExtended, AreReplies-AreMissing,
}
use zdrovena_reconciliation.Shipping.Providers.Plans.{Plans, IsPlan}
use zdrovena_reconciliation.Shipping.Providers.Apaczka.{
  ApaczkaWindow, ApaczkaArguments, ApaczkaClient, check_service, validate_apaczka_cod_pickup_point,
  apaczka_call_specs, create_order, apaczka_pickup_number, cod_bank_account, plan_apaczka,
  run_apaczka,
}
use zdrovena_reconciliation.Shipping.Providers.Apaczka.Missing.{
  left_of, unbooked, apaczka_call_specs_left,
}

module _ (names : ProductNames) (decimal : String → Option Decimal) where
  -- the calls for the parcels of a draft that have no checkpoint
  abbrev pub IsPending : ShipmentDraft → List (Call ApaczkaArguments) → Type 0
  IsPending draft specs =
      (full : List (Call ApaczkaArguments)) × (specs ≡ pending draft.courier_shipments full)
      × (map key_of full ≡ parcel_keys draft)

  abbrev IsPlanned :
      ShipmentDraft
      → Result ProviderError (List (Call ApaczkaArguments))
      → List (Call ApaczkaArguments)
      → Type 0
  IsPlanned draft r specs = (r ≡ ok specs) × IsPending draft specs

  planned-IsPlanned :
      {S : Type 0} (draft : ShipmentDraft)
      (r full : Result ProviderError (List (Call ApaczkaArguments)))
      → Plans (IsPlan names decimal draft.money) full
      → r ≡ left_of draft.courier_shipments full
      → Yields {S = S} (IsPlanned draft r) (planned r)
  planned-IsPlanned draft r (err e) p f s = rw f tt
  planned-IsPlanned draft r (ok full) p f s = rw f (refl, (full, refl, p.0))

  module _ {S : Type 0} (client : ApaczkaClient S)
      (on_shipment_created : Checkpoint → Action S (Unit {0})) where
    abbrev pub booked : ShipmentDraft → List (Call ApaczkaArguments) → Action S ShipmentPatch
    booked draft specs =
        book_all (create_order client) on_shipment_created specs draft.courier_shipments
        >>= λ shipments. pure (shipment_patch shipments)

    -- Apaczka's answer to the call is stored as it came, whatever its pickup number is
    create_order-IsReply :
        (call : Call ApaczkaArguments)
        → Yields
            (λ r. IsReply client.create_shipment call (checkpoint_of call r))
            (create_order client call)
    unfolding create_order
    create_order-IsReply call =
        let P = λ (r : Created). IsReply client.create_shipment call (checkpoint_of call r) in
        Yields-bind P P (client.create_shipment call)
          (λ result. apaczka_pickup_number client result.id >>= λ number.
            pure (record result { pickup_number = some number }))
          (λ s. elim (Result-cases (client.create_shipment call s).0) [
            | inl (e, q) ↦ rw q tt
            | inr (result, q) ↦ rw q (s, result, q, refl, refl, refl, refl)
          ])
          λ result reply.
            Yields-bind (λ n. Unit {0}) P (apaczka_pickup_number client result.id)
              (λ number. pure (record result { pickup_number = some number }))
              (Yields-any (apaczka_pickup_number client result.id)) λ number u s. reply

    booked-IsBooked :
        (draft : ShipmentDraft) (plan : Result ProviderError (List (Call ApaczkaArguments)))
        (specs : List (Call ApaczkaArguments))
        → IsPlanned draft plan specs
        → Yields
            (IsBooked client.create_shipment plan (parcel_keys draft) draft.courier_shipments)
            (booked draft specs)
    unfolding shipment_patch
    booked-IsBooked draft plan specs (q, (full, e, keys)) =
        let existing = draft.courier_shipments in
        Yields-bind (IsExtended client.create_shipment specs existing)
          (IsBooked client.create_shipment plan (parcel_keys draft) existing)
          (book_all (create_order client) on_shipment_created specs existing)
          (λ shipments. pure (shipment_patch shipments))
          (book_all-IsExtended client.create_shipment (create_order client) on_shipment_created
            create_order-IsReply specs existing)
          λ shipments (new, f, replies) s. (
            specs,
            new,
            q,
            f,
            replies,
            subst (λ ks. AreMissing ks existing new) keys
                (AreReplies-AreMissing client.create_shipment full existing new
                  (subst (λ calls. AreReplies client.create_shipment calls new) e replies)),
            refl,
          )

    plan_apaczka-IsPlanned :
        (draft : ShipmentDraft) (pickup_address : Dict String) (secret : Option String)
        (w : ApaczkaWindow)
        → Yields
            (IsPlanned draft (
              apaczka_call_specs names decimal draft pickup_address
                (cod_bank_account draft secret)
                w))
            (plan_apaczka names decimal client on_shipment_created draft pickup_address secret w)
    unfolding plan_apaczka
    plan_apaczka-IsPlanned draft pickup_address secret w =
        let account = cod_bank_account draft secret in
        let plan = apaczka_call_specs names decimal draft pickup_address account w in
        let left = apaczka_call_specs_left names decimal draft pickup_address account w in
        Yields-bind (λ u. Unit {0}) (IsPlanned draft plan)
          (planned (check_service draft w)
            >> validate_apaczka_cod_pickup_point client.get_point draft)
          (λ u. planned plan)
          (Yields-any (
            planned (check_service draft w)
            >> validate_apaczka_cod_pickup_point client.get_point draft))
          λ u v.
            planned-IsPlanned draft plan
              (apaczka_call_specs names decimal (unbooked draft) pickup_address account w) left.0
              left.1

    pub plan_apaczka-IsPending :
        (draft : ShipmentDraft) (pickup_address : Dict String) (secret : Option String)
        (w : ApaczkaWindow)
        → Yields
            (IsPending draft)
            (plan_apaczka names decimal client on_shipment_created draft pickup_address secret w)
    plan_apaczka-IsPending draft pickup_address secret w =
        let plan =
          apaczka_call_specs names decimal draft pickup_address (cod_bank_account draft secret) w in
        Yields-mono (IsPlanned draft plan) (IsPending draft)
          (plan_apaczka names decimal client on_shipment_created draft pickup_address secret w)
          (λ specs p. p.1) (plan_apaczka-IsPlanned draft pickup_address secret w)

    -- An Apaczka execution that returns leaves in the patch the shipments that were stored, as they
    -- were, and after them one for each planned call, in order, with the id and the tracking number
    -- that Apaczka answered that call with and the call's type and number. There is one new shipment
    -- for each parcel whose type and number no stored shipment has, and none for any other parcel:
    -- also where two parcels have one type and number and a single shipment of them is stored. The
    -- patch says `created` when all its shipments have a tracking number, and `pending_confirmation`
    -- otherwise. The client and the callback are any.
    pub run_apaczka_books_missing :
        (draft : ShipmentDraft) (pickup_address : Dict String) (secret : Option String)
        (w : ApaczkaWindow)
        → Yields
            (IsBooked client.create_shipment
              (apaczka_call_specs names decimal draft pickup_address
                (cod_bank_account draft secret)
                w)
              (parcel_keys draft)
              draft.courier_shipments)
            (run_apaczka names decimal client on_shipment_created draft pickup_address secret w)
    unfolding run_apaczka
    run_apaczka_books_missing draft pickup_address secret w =
        let plan =
          apaczka_call_specs names decimal draft pickup_address (cod_bank_account draft secret) w in
        Yields-bind (IsPlanned draft plan)
          (IsBooked client.create_shipment plan (parcel_keys draft) draft.courier_shipments)
          (plan_apaczka names decimal client on_shipment_created draft pickup_address secret w)
          (booked draft) (plan_apaczka-IsPlanned draft pickup_address secret w)
          λ specs p. booked-IsBooked draft plan specs p
