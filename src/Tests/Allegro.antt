-- ===== src/Tests/Allegro.antt =====
-- Runs of Allegro Delivery, and its theorem at such an input.
use zdrovena_reconciliation.Prelude.{ℕ, ◌+◌, ◌≤◌, ◌≡◌, refl, true, false, none, some, List, [], ◌∷◌}
use zdrovena_reconciliation.Prelude.Result.{Result, ok}
use zdrovena_reconciliation.Shipping.State.{same, pending_confirmation}
use zdrovena_reconciliation.Shipping.Parcels.{three_pak, one_pak}
use zdrovena_reconciliation.Shipping.Planning.{physical_parcels}
use zdrovena_reconciliation.Shipping.Providers.Calls.{Key}
use zdrovena_reconciliation.Shipping.Providers.Keys.{count}
use zdrovena_reconciliation.Shipping.Providers.Allegro.{AllegroDraft, SuggestedInput, AllegroPatch}
use zdrovena_reconciliation.Shipping.Providers.Allegro.Pickup.{
  AllegroRaised, returned, is_done, AllegroClient, order_allegro_pickup,
}
use zdrovena_reconciliation.Shipping.Providers.Allegro.Run.{Callbacks, beside, run_allegro_delivery}
use zdrovena_reconciliation.Shipping.Providers.Allegro.Commands.{recorded, callbacks_beside}
use zdrovena_reconciliation.Shipping.Providers.Allegro.Once.{
  may_create, run_allegro_delivery_commands,
}

-- the first parcel's command is stored, the second parcel has none
abbrev draft : AllegroDraft
draft = record {
  packages_breakdown =
      (record { row_type = some three_pak; qty = some 1 })
      ∷ (record { row_type = some one_pak; qty = some 1 })
      ∷ [];
  locker_id = "";
  order_number = "#1001";
  external_order_id = "A-7";
  delivery_method_id = "";
  credentials_id = none;
  status = some pending_confirmation;
  allegro_command_id = "c1";
  allegro_pickup_command_id = "";
  pickup_ordered = false;
  courier_shipments =
      (record {
        id = "";
        tracking_number = "";
        package_type = three_pak;
        package_number = 1;
        allegro_command_id = "c1";
      })
      ∷ [];
}

abbrev input : SuggestedInput
input = record {
  sender = ("name", "Zdrovena") ∷ [];
  receiver = ("name", "Jan") ∷ [];
  additional_services = [];
}

abbrev client : AllegroClient ℕ
client = record {
  uuid4 = λ s. (ok "c2", s);
  create_shipment = λ id call s. (ok tt, s + 1);
  wait_for_shipment = λ id s. (ok (is_done id), s);
  get_waybill = λ id s. (ok "W", s);
  get_pickup_proposals =
      λ ids s. (ok ((record { id = "p"; date = ""; min_time = none; max_time = none }) ∷ []), s);
  create_pickup = λ id ids choice s. (ok tt, s);
  get_pickup_status =
      λ id s. (ok (record { status = "SUCCESS"; pickup_id = "P1"; carrier_pickup_id = none }), s);
}

abbrev callbacks : Callbacks ℕ
callbacks = record {
  on_command_created = λ id. returned tt;
  on_pickup_command_created = λ id. returned tt;
  on_shipment_checkpoint = λ shipment. returned tt;
}

abbrev run : Result AllegroRaised AllegroPatch × (ℕ × List Key)
run =
    run_allegro_delivery (recorded client callbacks) (callbacks_beside client callbacks)
      (λ id. beside (returned (some input))) true draft (0, [])

abbrev commands : List Key
commands = run.1.1

-- only the second parcel gets a command
commands_run : commands ≡ (one_pak, 1) ∷ []
unfolding run_allegro_delivery physical_parcels same order_allegro_pickup
commands_run = refl

run_allegro_delivery_commands_example :
    count (three_pak, 1) commands ≤ may_create client callbacks (three_pak, 1) draft
run_allegro_delivery_commands_example =
    run_allegro_delivery_commands client callbacks (three_pak, 1) (λ id. returned (some input)) true
      draft 0
