-- ===== src/Shipping/Providers/Inpost/Complete.antt =====
-- What an InPost execution that returns has done: with any client, and any callback.
use zdrovena_reconciliation.Prelude.{
  ◌≡◌, refl, subst, String, Bool, false, ◌&&◌, Option, List, inl, inr, Bool-cases,
}
use zdrovena_reconciliation.Prelude.Dict.{Dict}
use zdrovena_reconciliation.Prelude.Result.{Result, ok, err, Result-cases}
use zdrovena_reconciliation.Prelude.Result.{◌>>=◌ as bind}
use zdrovena_reconciliation.Shipping.State.{same, created}
use zdrovena_reconciliation.Shipping.Planning.{ProductNames}
use zdrovena_reconciliation.Shipping.Cod.Money.{Decimal}
use zdrovena_reconciliation.Shipping.Providers.Calls.{
  Checkpoint, ShipmentDraft, Key, Call, pending, ProviderError, ProviderRaised, Action, ◌>>=◌,
  planned, ShipmentPatch, shipment_patch, book_all, checkpoint_of,
}
use zdrovena_reconciliation.Shipping.Providers.Plans.{Plans}
use zdrovena_reconciliation.Shipping.Providers.Yields.{
  Yields, Yields-bind, IsReply, AreMissing, IsBooked, IsExtended, parcel_keys, book_all-IsExtended,
  AreReplies-AreMissing,
}
use zdrovena_reconciliation.Shipping.Providers.Inpost.{
  InpostArguments, InpostClient, inpost_call_specs, pending_inpost_call_specs,
  is_resumable_inpost_draft, with_order, dispatched, run_inpost,
}
use zdrovena_reconciliation.Shipping.Providers.Inpost.Collects.{
  inpost_call_specs-Plans, IsInpostPlan,
}

module _ (names : ProductNames) (decimal : String → Option Decimal) (digits_of : String → String)
    {S : Type 0} (client : InpostClient S)
    (on_shipment_created : Checkpoint → Action S (Unit {0})) where
  -- InPost's answer to the call is stored as it came
  inpost-IsReply :
      (call : Call InpostArguments)
      → Yields
          (λ r. IsReply client.create_shipment call (checkpoint_of call r))
          (client.create_shipment call)
  inpost-IsReply call s = elim (Result-cases (client.create_shipment call s).0) [
    | inl (e, q) ↦ rw q tt
    | inr (result, q) ↦ rw q (s, result, q, refl, refl, refl, refl)
  ]

  module _ (plan : Result ProviderError (List (Call InpostArguments))) (parcels : List Key)
      (existing : List Checkpoint) where
    abbrev IsPatch : ShipmentPatch → Type 0
    IsPatch = IsBooked client.create_shipment plan parcels existing

    with_order-IsPatch :
        (patch : ShipmentPatch) (r : Result ProviderRaised (Option String))
        → IsPatch patch
        → IsPatch (with_order client patch r)
    with_order-IsPatch patch (err e) h = h
    with_order-IsPatch patch (ok id) h = h

    dispatched-IsPatch :
        (pickup : Bool) (patch : ShipmentPatch)
        → IsPatch patch
        → Yields IsPatch (dispatched client pickup patch)
    unfolding dispatched
    dispatched-IsPatch pickup patch h s = elim (Bool-cases (pickup && same patch.status created)) [
      | inl f ↦ rw f (with_order-IsPatch patch _ h)
      | inr f ↦ rw f h
    ]

  abbrev left :
      ShipmentDraft
      → Result ProviderError (List (Call InpostArguments))
      → Result ProviderError (List (Call InpostArguments))
  left draft r = bind r λ specs. ok (pending draft.courier_shipments specs)

  booking :
      Bool
      → ShipmentDraft
      → Result ProviderError (List (Call InpostArguments))
      → Action S ShipmentPatch
  booking pickup draft r = planned (left draft r) >>= λ specs.
      book_all client.create_shipment on_shipment_created specs draft.courier_shipments
      >>= λ shipments. dispatched client pickup (shipment_patch shipments)

  booking-IsPatch :
      (pickup : Bool) (draft : ShipmentDraft)
      (r : Result ProviderError (List (Call InpostArguments)))
      → Plans (IsInpostPlan names decimal digits_of draft) r
      → Yields
          (IsPatch (left draft r) (parcel_keys draft) draft.courier_shipments)
          (booking pickup draft r)
  unfolding booking shipment_patch
  booking-IsPatch pickup draft (err e) p = λ s. tt
  booking-IsPatch pickup draft (ok full) p =
      let existing = draft.courier_shipments in
      let calls = pending existing full in
      Yields-bind (IsExtended client.create_shipment calls existing)
        (IsPatch (ok calls) (parcel_keys draft) existing)
        (book_all client.create_shipment on_shipment_created calls existing)
        (λ shipments. dispatched client pickup (shipment_patch shipments))
        (book_all-IsExtended client.create_shipment client.create_shipment on_shipment_created
          inpost-IsReply calls existing)
        λ shipments (new, e, replies).
          dispatched-IsPatch (ok calls) (parcel_keys draft) existing pickup
            (shipment_patch shipments)
            (
              calls,
              new,
              refl,
              e,
              replies,
              subst (λ keys. AreMissing keys existing new) p.0.0
                  (AreReplies-AreMissing client.create_shipment full existing new replies),
              refl,
            )

  -- An InPost execution that is no resumption and returns leaves in the patch the shipments that were
  -- stored, as they were, and after them one for each planned call, in order, with the id and the
  -- tracking number that InPost answered that call with and the call's type and number. There is one
  -- new shipment for each parcel whose type and number no stored shipment has, and none for any other
  -- parcel: also where two parcels have one type and number and a single shipment of them is stored.
  -- The patch says `created` when all its shipments have a tracking number, and
  -- `pending_confirmation` otherwise. The client and the callback are any.
  pub run_inpost_books_missing :
      (pickup : Bool) (draft : ShipmentDraft) (sender : Dict String)
      → is_resumable_inpost_draft draft ≡ false
      → Yields
          (IsBooked client.create_shipment
            (pending_inpost_call_specs names decimal digits_of draft sender)
            (parcel_keys draft)
            draft.courier_shipments)
          (run_inpost names decimal digits_of client on_shipment_created pickup draft sender)
  unfolding run_inpost pending_inpost_call_specs booking
  run_inpost_books_missing pickup draft sender f s =
      rw (f, run_inpost)
        (booking-IsPatch pickup draft (inpost_call_specs names decimal digits_of draft sender)
          (inpost_call_specs-Plans names decimal digits_of draft sender) s)
