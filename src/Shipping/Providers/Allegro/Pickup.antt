-- ===== src/Shipping/Providers/Allegro/Pickup.antt =====
-- `order_allegro_pickup` of zdrovena/api/shipping_execution_composition.py, over any client.
use zdrovena_reconciliation.Prelude.{
  String, Option, none, some, List, [], ◌∷◌, str_eq, if◌then◌else◌,
}
use zdrovena_reconciliation.Prelude.Result.{Result, ok, err}
use zdrovena_reconciliation.Shipping.Ports.{Exc}
use zdrovena_reconciliation.Shipping.Providers.Allegro.{AllegroError, AllegroCall}

-- What is raised: the planning's refusals, a pickup command's terminal state, the exceptions that the
-- run catches (`AllegroBusinessError`, `AllegroAuthError`, `CourierTransientError`,
-- `MissingSecretError`), and any other.
pub data AllegroRaised : Type 0 where
  planning : AllegroError → AllegroRaised
  pickup_terminal : AllegroRaised
  no_shipments : AllegroRaised
  unexpected_status : String → AllegroRaised
  caught other : Exc → AllegroRaised

abbrev pub Attempted : Type 0 → Type 0 → Type 0
Attempted S A = S → Result AllegroRaised A × S

infixl 5 ◌>>=◌ ◌>>◌
abbrev pub ◌>>=◌ : {S A B : Type 0} → Attempted S A → (A → Attempted S B) → Attempted S B
◌>>=◌ m next s = let (r, s') = m s in elim r [ err e ↦ (err e, s') | ok a ↦ next a s' ]

abbrev pub ◌>>◌ : {S A B : Type 0} → Attempted S A → Attempted S B → Attempted S B
m >> next = m >>= λ _. next

abbrev pub returned : {S A : Type 0} → A → Attempted S A
returned a s = (ok a, s)

abbrev pub raised : {S A : Type 0} → AllegroRaised → Attempted S A
raised e s = (err e, s)

pub record PickupProposal : Type 0 where
  pub id : String
  pub date : String
  pub min_time : Option String
  pub max_time : Option String

pub record PickupCommand : Type 0 where
  pub status : String
  pub pickup_id : String
  pub carrier_pickup_id : Option String

-- a proposal of the old format by its id, one of the new by its date and times
pub data PickupChoice : Type 0 where
  proposal_item : String → PickupChoice
  pickup_time : String → String → String → PickupChoice

pub data Waited : Type 0 where
  is_pending : String → Waited
  is_done : String → Waited

-- The client, and `uuid.uuid4`. The pickup address, whose settings may be missing, is read with the
-- proposals.
pub record AllegroClient (S : Type 0) : Type 0 where
  pub uuid4 : Attempted S String
  -- the command's id and the parcel's arguments
  pub create_shipment : String → AllegroCall → Attempted S (Unit {0})
  -- the shipment's id, or `AllegroCommandPending` with its command
  pub wait_for_shipment : String → Attempted S Waited
  -- the waybill
  pub get_waybill : String → Attempted S String
  pub get_pickup_proposals : List String → Attempted S (List PickupProposal)
  pub create_pickup : String → List String → PickupChoice → Attempted S (Unit {0})
  pub get_pickup_status : String → Attempted S PickupCommand

pub data PickupStatus : Type 0 where
  no_slot in_progress success : PickupStatus

pub record PickupResult : Type 0 where
  pub status : PickupStatus
  pub command_id : Option String
  pub pickup_id : Option String
  pub carrier_pickup_id : Option String

pub new_format : List PickupProposal → Option PickupProposal
new_format [] = none
new_format (p ∷ ps) = let rest = new_format ps in if str_eq p.date "" then rest else some p

pub legacy_format : List PickupProposal → Option PickupProposal
legacy_format [] = none
legacy_format (p ∷ ps) =
    let rest = legacy_format ps in
    if str_eq p.id "" then rest else if str_eq p.date "" then some p else rest

abbrev time_or : String → Option String → String
time_or default none = default
time_or default (some t) = t

abbrev choice_of : PickupProposal → PickupChoice
choice_of p = pickup_time p.date (time_or "08:00" p.min_time) (time_or "18:00" p.max_time)

abbrev legacy_choice : Option PickupProposal → Option PickupChoice
legacy_choice none = none
legacy_choice (some p) = some (proposal_item p.id)

abbrev selected_of : Option PickupProposal → Option PickupProposal → Option PickupChoice
selected_of none legacy = legacy_choice legacy
selected_of (some p) legacy = some (choice_of p)

pub selected : List PickupProposal → Option PickupChoice
unfolding new_format legacy_format
selected proposals = selected_of (new_format proposals) (legacy_format proposals)

abbrev no_slot_result : PickupResult
no_slot_result = record {
  status = no_slot;
  command_id = none;
  pickup_id = none;
  carrier_pickup_id = none;
}

module _ {S : Type 0} (client : AllegroClient S)
    (on_command_created : String → Attempted S (Unit {0})) where
  abbrev pub concluded : String → PickupCommand → Attempted S PickupResult
  concluded command_id command =
      if str_eq command.status "IN_PROGRESS"
      then returned (record {
        status = in_progress;
        command_id = some command_id;
        pickup_id = none;
        carrier_pickup_id = none;
      })
      else if str_eq command.status "ERROR"
      then raised pickup_terminal
      else if str_eq command.status "SUCCESS"
      then (if str_eq command.pickup_id ""
          then raised pickup_terminal
          else returned (record {
            status = success;
            command_id = some command_id;
            pickup_id = some command.pickup_id;
            carrier_pickup_id = command.carrier_pickup_id;
          }))
      else raised (unexpected_status command.status)

  unfoldable pub pickup_outcome : String → Attempted S PickupResult
  pickup_outcome command_id =
      client.get_pickup_status command_id >>= λ command. concluded command_id command

  abbrev pub new_pickup : List String → PickupChoice → Attempted S PickupResult
  new_pickup shipment_ids choice = client.uuid4 >>= λ command_id.
      client.create_pickup command_id shipment_ids choice
      >> on_command_created command_id
      >> pickup_outcome command_id

  abbrev pub by_selection : List String → Option PickupChoice → Attempted S PickupResult
  by_selection shipment_ids none = returned no_slot_result
  by_selection shipment_ids (some choice) = new_pickup shipment_ids choice

  unfoldable pub order_allegro_pickup : List String → Option String → Attempted S PickupResult
  unfolding pickup_outcome selected
  order_allegro_pickup [] command_id = raised no_shipments
  order_allegro_pickup (id ∷ ids) (some command_id) = pickup_outcome command_id
  order_allegro_pickup (id ∷ ids) none = client.get_pickup_proposals (id ∷ ids) >>= λ proposals.
      by_selection (id ∷ ids) (selected proposals)
