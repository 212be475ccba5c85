-- ===== src/Shipping/Providers/Allegro/Quiet.antt =====
-- The pickup of Allegro creates no shipment.
use zdrovena_reconciliation.Prelude.{
  ◌≡◌, refl, ◌∙◌, String, Option, none, some, List, [], ◌∷◌, arith,
}
use zdrovena_reconciliation.Prelude.Result.{Result, ok, err}
use zdrovena_reconciliation.Shipping.Providers.Calls.{Key}
use zdrovena_reconciliation.Shipping.Providers.Allegro.Pickup.{
  AllegroRaised, Attempted, ◌>>=◌, ◌>>◌, AllegroClient, PickupCommand, PickupChoice, concluded,
  by_selection, new_pickup, pickup_outcome, selected, order_allegro_pickup,
}
use zdrovena_reconciliation.Shipping.Providers.Allegro.Run.{
  Callbacks, client_beside, checkpoint_pickup,
}
use zdrovena_reconciliation.Shipping.Providers.Allegro.Commands.{recorded, callbacks_beside}

-- an action of the pickup that leaves the record as it is
abbrev Quiet : {S C A : Type 0} → Attempted ((S × List Key) × C) A → Type 0
Quiet {S = S} {C = C} m = (t : (S × List Key) × C) → (m t).1.0.1 ≡ t.0.1

Quiet-bind :
    {S C A B : Type 0} (m : Attempted ((S × List Key) × C) A)
    (f : A → Attempted ((S × List Key) × C) B)
    → Quiet m
    → ((a : A) → Quiet (f a))
    → Quiet (m >>= f)
Quiet-bind {S = S} {C = C} {A = A} m f h g t = go (m t).0 (m t).1 (h t)
  where
    go :
        (r : Result AllegroRaised A) (after : (S × List Key) × C)
        → after.0.1 ≡ t.0.1
        → (((λ u. (r, u)) >>= f) after).1.0.1 ≡ t.0.1
    go (err e) after p = p
    go (ok a) after p = g a after ∙ p

module _ {S : Type 0} (client : AllegroClient S) (callbacks : Callbacks S) where
  abbrev pickup_client : AllegroClient ((S × List Key) × Option String)
  pickup_client = client_beside (Option String) (recorded client callbacks)

  abbrev stored_pickup : String → Attempted ((S × List Key) × Option String) (Unit {0})
  stored_pickup = checkpoint_pickup (recorded client callbacks) (callbacks_beside client callbacks)

  concluded-Quiet :
      (id : String) (command : PickupCommand)
      → Quiet (concluded pickup_client stored_pickup id command)
  concluded-Quiet id command t = ground arith

  pickup_outcome-Quiet : (id : String) → Quiet (pickup_outcome pickup_client stored_pickup id)
  unfolding pickup_outcome
  pickup_outcome-Quiet id =
      Quiet-bind (pickup_client.get_pickup_status id) (concluded pickup_client stored_pickup id)
        (λ t. refl) (concluded-Quiet id)

  new_pickup-Quiet :
      (ids : List String) (choice : PickupChoice)
      → Quiet (new_pickup pickup_client stored_pickup ids choice)
  new_pickup-Quiet ids choice =
      Quiet-bind pickup_client.uuid4
        (λ id.
          pickup_client.create_pickup id ids choice
          >> stored_pickup id
          >> pickup_outcome pickup_client stored_pickup id)
        (λ t. refl)
        λ id.
          Quiet-bind (pickup_client.create_pickup id ids choice >> stored_pickup id)
            (λ u. pickup_outcome pickup_client stored_pickup id)
            (Quiet-bind (pickup_client.create_pickup id ids choice) (λ u. stored_pickup id)
              (λ t. refl) λ u t. refl)
            λ u. pickup_outcome-Quiet id

  by_selection-Quiet :
      (ids : List String) (choice : Option PickupChoice)
      → Quiet (by_selection pickup_client stored_pickup ids choice)
  by_selection-Quiet ids none = λ t. refl
  by_selection-Quiet ids (some choice) = new_pickup-Quiet ids choice

  pub order-Quiet :
      (ids : List String) (command : Option String)
      → Quiet (order_allegro_pickup pickup_client stored_pickup ids command)
  unfolding order_allegro_pickup
  order-Quiet [] command = λ t. refl
  order-Quiet (id ∷ ids) (some command) = pickup_outcome-Quiet command
  order-Quiet (id ∷ ids) none =
      Quiet-bind (pickup_client.get_pickup_proposals (id ∷ ids))
        (λ proposals. by_selection pickup_client stored_pickup (id ∷ ids) (selected proposals))
        (λ t. refl) λ proposals. by_selection-Quiet (id ∷ ids) (selected proposals)
