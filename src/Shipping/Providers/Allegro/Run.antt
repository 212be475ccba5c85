-- ===== src/Shipping/Providers/Allegro/Run.antt =====
-- `_run_allegro_delivery` of zdrovena/api/shipping_execution_composition.py, over any client and any
-- callbacks.
use zdrovena_reconciliation.Prelude.{
  String, Bool, true, ◌||◌, Option, none, some, List, [], ◌∷◌, str_eq, if◌then◌else◌,
}
use zdrovena_reconciliation.Prelude.Result.{Result, ok, err}
use zdrovena_reconciliation.Shipping.State.{same, created, pending_confirmation}
use zdrovena_reconciliation.Shipping.Providers.Allegro.{
  AllegroShipment, AllegroDraft, SuggestedInput, no_order_id, AllegroCall, call_key,
  allegro_call_specs, Shipments, shipment_of, set_shipment, by_key, ordered_shipments, AllegroPatch,
  shipment_result,
}
use zdrovena_reconciliation.Shipping.Providers.Allegro.Pickup.{
  AllegroRaised, planning, pickup_terminal, other, Attempted, ◌>>=◌, ◌>>◌, returned, raised, Waited,
  is_pending, is_done, AllegroClient, success, PickupResult, order_allegro_pickup,
}

-- how the loop over the calls ends: at a pending command, or at the end
pub data Ended : Type 0 where
  waits : Shipments → String → Ended
  finished : Shipments → Option String → Ended

pub record Callbacks (S : Type 0) : Type 0 where
  pub on_command_created : String → Attempted S (Unit {0})
  pub on_pickup_command_created : String → Attempted S (Unit {0})
  pub on_shipment_checkpoint : AllegroShipment → Attempted S (Unit {0})

abbrev pub stored_id : Option AllegroShipment → String
stored_id none = ""
stored_id (some s) = s.id

-- `(shipment_checkpoint or {}).get("allegro_command_id")`
abbrev pub stored_command : Option AllegroShipment → String
stored_command none = ""
stored_command (some s) = s.allegro_command_id

-- the command that is resumed, empty where there is none
abbrev pub resumed_command : String → Option AllegroShipment → String
resumed_command legacy stored =
    if str_eq (stored_command stored) "" then legacy else stored_command stored

abbrev pub checkpoint : AllegroCall → String → AllegroShipment
checkpoint call command_id = record {
  id = "";
  tracking_number = "";
  package_type = call.package_type;
  package_number = call.package_number;
  allegro_command_id = command_id;
}

abbrev pub confirmed : AllegroCall → String → String → String → AllegroShipment
confirmed call command_id shipment_id waybill = record (checkpoint call command_id) {
  id = shipment_id;
  tracking_number = waybill;
}

abbrev command_or : String → String → String
command_or default pending = if str_eq pending "" then default else pending

module _ {S : Type 0} (client : AllegroClient S) (callbacks : Callbacks S) where
  unfoldable pub new_command : AllegroCall → Attempted S String
  new_command call = client.uuid4 >>= λ command_id.
      client.create_shipment command_id call
      >> callbacks.on_command_created command_id
      >> returned command_id

  unfoldable pub command_for : String → AllegroCall → Attempted S String
  unfolding new_command
  command_for resumed call = if str_eq resumed "" then new_command call else returned resumed

  -- what follows a call of the loop
  abbrev pub Next : Type 0
  Next = Shipments → Option String → Attempted S Ended

  unfoldable pub after_wait : AllegroCall → Next → Shipments → String → Waited → Attempted S Ended
  unfolding set_shipment
  after_wait call next shipments command_id (is_pending pending) =
      returned (waits shipments (command_or command_id pending))
  after_wait call next shipments command_id (is_done shipment_id) =
      client.get_waybill shipment_id >>= λ waybill.
      callbacks.on_shipment_checkpoint (confirmed call command_id shipment_id waybill)
      >> next
          (set_shipment (call_key call) (confirmed call command_id shipment_id waybill) shipments)
          (some command_id)

  -- one call of the loop, from the command on; the checkpoint is in the shipments
  unfoldable pub run_call : AllegroCall → Next → Shipments → String → Attempted S Ended
  unfolding after_wait
  run_call call next shipments command_id =
      callbacks.on_shipment_checkpoint (checkpoint call command_id)
      >> client.wait_for_shipment command_id
      >>= λ waited. after_wait call next shipments command_id waited

  -- the loop; `legacy` is the draft's own command, for the first call
  unfoldable pub run_calls : String → List AllegroCall → Next
  unfolding shipment_of set_shipment command_for run_call
  run_calls legacy [] shipments active = returned (finished shipments active)
  run_calls legacy (call ∷ calls) shipments active =
      let next = run_calls "" calls in
      let stored = shipment_of (call_key call) shipments in
      if str_eq (stored_id stored) ""
      then (command_for (resumed_command legacy stored) call >>= λ command_id.
          run_call call next (set_shipment (call_key call) (checkpoint call command_id) shipments)
            command_id)
      else next shipments active

-- `legacy_command_id`
abbrev pub legacy_command : AllegroDraft → String
legacy_command draft = elim draft.status [
  | none ↦ ""
  | some status ↦ if same status pending_confirmation then draft.allegro_command_id else ""
]

-- `pickup_command_id` at the start
abbrev pub pickup_command : AllegroDraft → Option String
pickup_command draft =
    if draft.pickup_ordered || str_eq draft.allegro_pickup_command_id ""
    then none
    else some draft.allegro_pickup_command_id

abbrev pub shipment_ids_of : List AllegroShipment → List String
shipment_ids_of [] = []
shipment_ids_of (s ∷ ss) =
    let rest = shipment_ids_of ss in if str_eq s.id "" then rest else s.id ∷ rest

abbrev with_pickup : AllegroPatch → PickupResult → AllegroPatch
with_pickup patch result = elim result.status [
  | success ↦ record patch { pickup_ordered = true; allegro_dispatch_id = result.pickup_id }
  | _ ↦ record patch { allegro_pickup_command_id = result.command_id }
]

-- a refusal that the run catches leaves the pickup's command, unless that command has ended
abbrev after_pickup :
    AllegroPatch
    → Option String
    → Result AllegroRaised PickupResult
    → Result AllegroRaised AllegroPatch
after_pickup patch command (ok result) = ok (with_pickup patch result)
after_pickup patch command (err pickup_terminal) = ok patch
after_pickup patch command (err (planning e)) = err (planning e)
after_pickup patch command (err (other e)) = err (other e)
after_pickup patch command (err e) = ok (record patch { allegro_pickup_command_id = command })

-- the state with the closure's `pickup_command_id`
abbrev pub beside : {S B A : Type 0} → Attempted S A → Attempted (S × B) A
beside m (s, b) = let (r, s') = m s in (r, (s', b))

abbrev pub client_beside : {S : Type 0} (B : Type 0) → AllegroClient S → AllegroClient (S × B)
client_beside B client = record {
  uuid4 = beside client.uuid4;
  create_shipment = λ id call. beside (client.create_shipment id call);
  wait_for_shipment = λ id. beside (client.wait_for_shipment id);
  get_waybill = λ id. beside (client.get_waybill id);
  get_pickup_proposals = λ ids. beside (client.get_pickup_proposals ids);
  create_pickup = λ id ids choice. beside (client.create_pickup id ids choice);
  get_pickup_status = λ id. beside (client.get_pickup_status id);
}

module _ {S : Type 0} (client : AllegroClient S) (callbacks : Callbacks S) where
  unfoldable pub plan_allegro :
      (String → Attempted S (Option SuggestedInput)) → AllegroDraft → Attempted S (List AllegroCall)
  unfolding allegro_call_specs
  plan_allegro get_proposal draft =
      if str_eq draft.external_order_id ""
      then raised (planning no_order_id)
      else (get_proposal draft.external_order_id >>= λ input.
          elim (allegro_call_specs draft input) [
            | err e ↦ raised (planning e)
            | ok calls ↦ returned calls
          ])

  abbrev pub checkpoint_pickup : String → Attempted (S × Option String) (Unit {0})
  checkpoint_pickup command_id (s, command) =
      let (r, s') = callbacks.on_pickup_command_created command_id s in (r, (s', some command_id))

  unfoldable pub attempt_pickup :
      AllegroPatch → List String → Option String → Attempted S AllegroPatch
  unfolding order_allegro_pickup
  attempt_pickup patch ids command s =
      let (r, (s', command')) =
        order_allegro_pickup (client_beside (Option String) client) checkpoint_pickup ids command
          (s, command) in
      (after_pickup patch command' r, s')

  -- whether a pickup date is given; the date itself is not used
  unfoldable pub conclude_allegro :
      Bool → AllegroDraft → List AllegroCall → Ended → Attempted S AllegroPatch
  unfolding attempt_pickup ordered_shipments
  conclude_allegro pickup draft calls (waits shipments command) =
      returned (shipment_result calls shipments (some command) pending_confirmation)
  conclude_allegro pickup draft calls (finished shipments active) =
      let patch = shipment_result calls shipments active created in
      if pickup
      then attempt_pickup patch (shipment_ids_of (ordered_shipments calls shipments))
          (pickup_command draft)
      else returned patch

  unfoldable pub run_allegro_delivery :
      (String → Attempted S (Option SuggestedInput))
      → Bool
      → AllegroDraft
      → Attempted S AllegroPatch
  unfolding plan_allegro run_calls by_key conclude_allegro
  run_allegro_delivery get_proposal pickup draft = plan_allegro get_proposal draft >>= λ calls.
      run_calls client callbacks (legacy_command draft) calls (by_key [] draft.courier_shipments)
        none
      >>= λ ended. conclude_allegro pickup draft calls ended
