-- ===== src/Shipping/Providers/Inpost/Returns.antt =====
-- An InPost execution that gets its answers comes to its end, whatever the pickup's order does.
use zdrovena_reconciliation.Prelude.{
  ◌≡◌, refl, String, Bool, true, false, ◌&&◌, Option, List, [], ◌∷◌, ◌++◌, inl, inr, Bool-cases,
}
use zdrovena_reconciliation.Prelude.Dict.{Dict}
use zdrovena_reconciliation.Prelude.Result.{Result, ok, err}
use zdrovena_reconciliation.Shipping.State.{same, created}
use zdrovena_reconciliation.Shipping.Planning.{ProductNames}
use zdrovena_reconciliation.Shipping.Cod.Money.{Decimal}
use zdrovena_reconciliation.Shipping.Providers.Calls.{
  Checkpoint, ShipmentDraft, Call, ProviderError, ProviderRaised, Action, ◌>>=◌, ◌>>◌, planned,
  ShipmentPatch, shipment_patch, Created, checkpoint_of, book_all,
}
use zdrovena_reconciliation.Shipping.Providers.Inpost.{
  InpostArguments, InpostClient, pending_inpost_call_specs, is_resumable_inpost_draft, dispatched,
  run_inpost,
}

abbrev pub is_ok : {E A : Type 0} → Result E A → Bool
is_ok (ok a) = true
is_ok (err e) = false

-- the action raises nothing, in any state
abbrev pub Returns : {S A : Type 0} → Action S A → Type 0
Returns {S = S} m = (s : S) → is_ok (m s).0 ≡ true

Returns-bind :
    {S A B : Type 0} (m : Action S A) (f : A → Action S B)
    → Returns m
    → ((a : A) → Returns (f a))
    → Returns (m >>= f)
Returns-bind {S = S} {A = A} m f h k s = go (m s).0 (m s).1 (h s)
  where
    go :
        (r : Result ProviderRaised A) (after : S)
        → is_ok r ≡ true
        → is_ok (((λ s. (r, s)) >>= f) after).0 ≡ true
    go (err e) after p = cc
    go (ok a) after p = k a after

planned-Returns :
    {S A : Type 0} (r : Result ProviderError A) → is_ok r ≡ true → Returns {S = S} (planned r)
planned-Returns (ok a) h = λ s. refl
planned-Returns (err e) h = λ s. cc

book_all-Returns :
    {S A : Type 0} (create : Call A → Action S Created)
    (on_shipment_created : Checkpoint → Action S (Unit {0}))
    → ((call : Call A) → Returns (create call))
    → ((c : Checkpoint) → Returns (on_shipment_created c))
    → (calls : List (Call A)) (existing : List Checkpoint)
    → Returns (book_all create on_shipment_created calls existing)
unfolding book_all
book_all-Returns create on_shipment_created h k [] existing = λ s. refl
book_all-Returns create on_shipment_created h k (call ∷ calls) existing =
    let after = λ (result : Created).
      book_all create on_shipment_created calls (existing ++ checkpoint_of call result ∷ []) in
    Returns-bind (create call)
      (λ result. on_shipment_created (checkpoint_of call result) >> after result) (h call)
      λ result.
        Returns-bind (on_shipment_created (checkpoint_of call result)) (λ x. after result)
          (k (checkpoint_of call result))
          λ x.
            book_all-Returns create on_shipment_created h k calls
              (existing ++ checkpoint_of call result ∷ [])

module _ (names : ProductNames) (decimal : String → Option Decimal) (digits_of : String → String)
    {S : Type 0} (client : InpostClient S)
    (on_shipment_created : Checkpoint → Action S (Unit {0})) where
  dispatched-Returns :
      (pickup : Bool) (patch : ShipmentPatch) → Returns (dispatched client pickup patch)
  unfolding dispatched
  dispatched-Returns pickup patch s = elim (Bool-cases (pickup && same patch.status created)) [
    | inl f ↦ rw f
    | inr f ↦ rw f
  ]

  -- An InPost execution that is no resumption returns its patch, if its calls can be planned, InPost
  -- answers every booking, and every new shipment can be stored. Whether a pickup is ordered with it,
  -- and whether that order fails, does not matter.
  pub run_inpost-Returns :
      (pickup : Bool) (draft : ShipmentDraft) (sender : Dict String)
      → is_resumable_inpost_draft draft ≡ false
      → is_ok (pending_inpost_call_specs names decimal digits_of draft sender) ≡ true
      → ((call : Call InpostArguments) → Returns (client.create_shipment call))
      → ((c : Checkpoint) → Returns (on_shipment_created c))
      → Returns (run_inpost names decimal digits_of client on_shipment_created pickup draft sender)
  unfolding run_inpost
  run_inpost-Returns pickup draft sender f p h k s =
      let plan = pending_inpost_call_specs names decimal digits_of draft sender in
      let existing = draft.courier_shipments in
      rw (f, run_inpost)
        (Returns-bind (planned plan)
          (λ specs.
            book_all client.create_shipment on_shipment_created specs existing >>= λ shipments.
            dispatched client pickup (shipment_patch shipments))
          (planned-Returns plan p)
          (λ specs.
            Returns-bind (book_all client.create_shipment on_shipment_created specs existing)
              (λ shipments. dispatched client pickup (shipment_patch shipments))
              (book_all-Returns client.create_shipment on_shipment_created h k specs existing)
              λ shipments. dispatched-Returns pickup (shipment_patch shipments))
          s)
