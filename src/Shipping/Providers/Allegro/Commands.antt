-- ===== src/Shipping/Providers/Allegro/Commands.antt =====
-- The create-commands of the loop of Allegro Delivery, over any client and any callbacks.
use zdrovena_reconciliation.Prelude.{
  ℕ, ◌+◌, ◌-◌, ◌≤◌, ◌≡◌, ap, String, true, false, Option, some, List, [], ◌∷◌, map, arith, str_eq,
  if◌then◌else◌, inl, inr, Bool-cases,
}
use zdrovena_reconciliation.Shipping.Providers.Calls.{Key, same_parcel_key}
use zdrovena_reconciliation.Shipping.Providers.Keys.{count, same_parcel_key-eq}
use zdrovena_reconciliation.Shipping.Providers.Allegro.{
  AllegroCall, call_key, Shipments, shipment_of, set_shipment,
}
use zdrovena_reconciliation.Shipping.Providers.Allegro.Pickup.{
  Attempted, ◌>>=◌, ◌>>◌, returned, Waited, is_pending, is_done, AllegroClient,
}
use zdrovena_reconciliation.Shipping.Providers.Allegro.Run.{
  Callbacks, Ended, stored_id, resumed_command, checkpoint, confirmed, beside, client_beside, Next,
  new_command, command_for, run_call, after_wait, run_calls,
}
use zdrovena_reconciliation.Shipping.Providers.Allegro.Makes.{
  has_command, shipment_of-set_shipment, Makes, Makes-bind, Makes-after, Makes-before, Makes-beside,
}

module _ {S : Type 0} (client : AllegroClient S) (callbacks : Callbacks S) where
  -- the client with a record of the parcels whose creation was asked for
  abbrev pub recorded : AllegroClient (S × List Key)
  recorded = record (client_beside (List Key) client) {
    create_shipment = λ id call (s, log).
        let (r, s') = client.create_shipment id call s in (r, (s', call_key call ∷ log));
  }

  abbrev pub callbacks_beside : Callbacks (S × List Key)
  callbacks_beside = record {
    on_command_created = λ id. beside (callbacks.on_command_created id);
    on_pickup_command_created = λ id. beside (callbacks.on_pickup_command_created id);
    on_shipment_checkpoint = λ shipment. beside (callbacks.on_shipment_checkpoint shipment);
  }

  module _ (k : Key) where
    pub Makes-le :
        {A : Type 0} (a b : ℕ) (m : Attempted (S × List Key) A) → a ≤ b → Makes k a m → Makes k b m
    Makes-le a b m l h s log = omega (arith, h s log)

    pub Makes-returned : {A : Type 0} (a : A) → Makes {S = S} k 0 (returned a)
    Makes-returned a s log = omega arith

    new_command-Makes :
        (call : AllegroCall)
        → Makes k (count k (call_key call ∷ [])) (new_command recorded callbacks_beside call)
    unfolding new_command count
    new_command-Makes call =
        let here = count k (call_key call ∷ []) in
        Makes-after k here recorded.uuid4
          (λ id.
            recorded.create_shipment id call
            >> callbacks_beside.on_command_created id
            >> returned id)
          (Makes-beside k client.uuid4)
          λ id.
            Makes-before k here
              (recorded.create_shipment id call >> callbacks_beside.on_command_created id)
              (λ u. returned id)
              (Makes-before k here (recorded.create_shipment id call)
                (λ u. callbacks_beside.on_command_created id) (λ s log. omega arith)
                (λ u. Makes-beside k (callbacks.on_command_created id)))
              λ u. Makes-returned id

    -- what may still be created, once the shipments are so
    abbrev left : ℕ → Shipments → ℕ
    left c shipments = if has_command (shipment_of k shipments) then 0 else c

    abbrev MakesNext : ℕ → Next recorded callbacks_beside → Type 0
    MakesNext c next =
        (after : Shipments) (active : Option String) → Makes k (left c after) (next after active)

    with_checkpoint : AllegroCall → String → Shipments → Shipments
    with_checkpoint call command_id shipments =
        set_shipment (call_key call) (checkpoint call command_id) shipments

    confirmed_le :
        (c : ℕ) (call : AllegroCall) (shipments : Shipments) (command_id id waybill : String)
        → left c (
            set_shipment
              (call_key call)
              (confirmed call command_id id waybill)
              (with_checkpoint call command_id shipments))
          ≤ left c (with_checkpoint call command_id shipments)
    unfolding with_checkpoint
    confirmed_le c call shipments command_id id waybill = ground (
      arith,
      shipment_of-set_shipment k (call_key call) (checkpoint call command_id) shipments,
      shipment_of-set_shipment k (call_key call) (confirmed call command_id id waybill)
          (with_checkpoint call command_id shipments),
    )

    after_wait-Makes :
        (c : ℕ) (call : AllegroCall) (next : Next recorded callbacks_beside) (shipments : Shipments)
        (command_id : String) (waited : Waited)
        → MakesNext c next
        → Makes k (left c (with_checkpoint call command_id shipments)) (
            after_wait recorded callbacks_beside call next
              (with_checkpoint call command_id shipments)
              command_id
              waited)
    unfolding after_wait
    after_wait-Makes c call next shipments command_id (is_pending p) h = λ s log. omega arith
    after_wait-Makes c call next shipments command_id (is_done id) h =
        let before = with_checkpoint call command_id shipments in
        Makes-after k (left c before) (recorded.get_waybill id)
          (λ waybill.
            callbacks_beside.on_shipment_checkpoint (confirmed call command_id id waybill)
            >> next (set_shipment (call_key call) (confirmed call command_id id waybill) before)
                (some command_id))
          (Makes-beside k (client.get_waybill id))
          λ waybill.
            let shipment = confirmed call command_id id waybill in
            let after = set_shipment (call_key call) shipment before in
            Makes-after k (left c before) (callbacks_beside.on_shipment_checkpoint shipment)
              (λ u. next after (some command_id))
              (Makes-beside k (callbacks.on_shipment_checkpoint shipment))
              λ u.
                Makes-le (left c after) (left c before) (next after (some command_id))
                  (confirmed_le c call shipments command_id id waybill) (h after (some command_id))

    run_call-Makes :
        (c : ℕ) (call : AllegroCall) (next : Next recorded callbacks_beside) (shipments : Shipments)
        (command_id : String)
        → MakesNext c next
        → Makes k (left c (with_checkpoint call command_id shipments)) (
            run_call recorded callbacks_beside call next
              (with_checkpoint call command_id shipments)
              command_id)
    unfolding run_call
    run_call-Makes c call next shipments command_id h =
        let before = with_checkpoint call command_id shipments in
        let stored = callbacks_beside.on_shipment_checkpoint (checkpoint call command_id) in
        Makes-after k (left c before) (stored >> recorded.wait_for_shipment command_id)
          (λ waited. after_wait recorded callbacks_beside call next before command_id waited)
          (Makes-after k 0 stored (λ u. recorded.wait_for_shipment command_id)
            (Makes-beside k (callbacks.on_shipment_checkpoint (checkpoint call command_id)))
            λ u. Makes-beside k (client.wait_for_shipment command_id))
          λ waited. after_wait-Makes c call next shipments command_id waited h

    -- the commands that a plan may still ask for
    abbrev pub allowed : List AllegroCall → Shipments → ℕ
    allowed calls shipments = left (count k (map call_key calls)) shipments

    resumed_le :
        (call : AllegroCall) (calls : List AllegroCall) (shipments : Shipments) (resumed : String)
        → str_eq resumed "" ≡ false
        → left (count k (map call_key calls)) (with_checkpoint call resumed shipments)
          ≤ allowed (call ∷ calls) shipments
    unfolding with_checkpoint count
    resumed_le call calls shipments resumed h =
        ground
          (arith, h, shipment_of-set_shipment k (call_key call) (checkpoint call resumed) shipments)

    -- a parcel without a command and without an id may get a command
    started_le :
        (legacy : String) (call : AllegroCall) (calls : List AllegroCall) (shipments : Shipments)
        (command_id : String)
        → str_eq (stored_id (shipment_of (call_key call) shipments)) "" ≡ true
        → str_eq (resumed_command legacy (shipment_of (call_key call) shipments)) "" ≡ true
        → count k (call_key call ∷ [])
            + left (count k (map call_key calls)) (with_checkpoint call command_id shipments)
          ≤ allowed (call ∷ calls) shipments
    unfolding with_checkpoint count
    started_le legacy call calls shipments command_id h r =
        elim (Bool-cases (same_parcel_key k (call_key call))) [
          | inl e ↦
              let g : shipment_of k shipments ≡ shipment_of (call_key call) shipments =
                ap (λ j. shipment_of j shipments) (same_parcel_key-eq k (call_key call) e) in
              ground (
                arith,
                e,
                g,
                h,
                r,
                shipment_of-set_shipment k (call_key call) (checkpoint call command_id) shipments,
              )
          | inr e ↦ ground (
            arith,
            e,
            shipment_of-set_shipment k (call_key call) (checkpoint call command_id) shipments,
          )
        ]

    -- the branch of the loop for a parcel whose shipment has no id
    abbrev open_call :
        String → AllegroCall → List AllegroCall → Shipments → Attempted (S × List Key) Ended
    open_call legacy call calls shipments =
        command_for recorded callbacks_beside
          (resumed_command legacy (shipment_of (call_key call) shipments)) call
        >>= λ command_id.
            run_call recorded callbacks_beside call (run_calls recorded callbacks_beside "" calls)
              (with_checkpoint call command_id shipments) command_id

    open_call-Makes :
        (legacy : String) (call : AllegroCall) (calls : List AllegroCall) (shipments : Shipments)
        → MakesNext (count k (map call_key calls)) (run_calls recorded callbacks_beside "" calls)
        → str_eq (stored_id (shipment_of (call_key call) shipments)) "" ≡ true
        → Makes k (allowed (call ∷ calls) shipments) (open_call legacy call calls shipments)
    unfolding command_for
    open_call-Makes legacy call calls shipments h e =
        let c = count k (map call_key calls) in
        let next = run_calls recorded callbacks_beside "" calls in
        let resumed = resumed_command legacy (shipment_of (call_key call) shipments) in
        let here = count k (call_key call ∷ []) in
        let started : Attempted (S × List Key) Ended =
          new_command recorded callbacks_beside call >>= λ command_id.
          run_call recorded callbacks_beside call next (with_checkpoint call command_id shipments)
            command_id in
        elim (Bool-cases (str_eq resumed "")) [
          | inr r ↦
              rw (r, command_for)
                (Makes-le (left c (with_checkpoint call resumed shipments))
                  (allowed (call ∷ calls) shipments)
                  (run_call recorded callbacks_beside call next
                    (with_checkpoint call resumed shipments) resumed)
                  (resumed_le call calls shipments resumed r)
                  (run_call-Makes c call next shipments resumed h))
          | inl r ↦
              rw (r, command_for)
                (Makes-le (here + (allowed (call ∷ calls) shipments - here))
                  (allowed (call ∷ calls) shipments) started
                  (omega (arith, started_le legacy call calls shipments "" e r))
                  (Makes-bind k here (allowed (call ∷ calls) shipments - here)
                    (new_command recorded callbacks_beside call)
                    (λ command_id.
                      run_call recorded callbacks_beside call next
                        (with_checkpoint call command_id shipments) command_id)
                    (new_command-Makes call)
                    λ command_id.
                      Makes-le (left c (with_checkpoint call command_id shipments))
                        (allowed (call ∷ calls) shipments - here)
                        (run_call recorded callbacks_beside call next
                          (with_checkpoint call command_id shipments) command_id)
                        (omega (arith, started_le legacy call calls shipments command_id e r))
                        (run_call-Makes c call next shipments command_id h)))
        ]

    pub run_calls-Makes :
        (legacy : String) (calls : List AllegroCall) (shipments : Shipments)
        (active : Option String)
        → Makes k
            (allowed calls shipments)
            (run_calls recorded callbacks_beside legacy calls shipments active)
    unfolding run_calls with_checkpoint count
    run_calls-Makes legacy [] shipments active = λ s log. omega arith
    run_calls-Makes legacy (call ∷ calls) shipments active =
        elim (Bool-cases (str_eq (stored_id (shipment_of (call_key call) shipments)) "")) [
          | inl e ↦ rw e (open_call-Makes legacy call calls shipments (run_calls-Makes "" calls) e)
          | inr e ↦ rw e (
              Makes-le (allowed calls shipments) (allowed (call ∷ calls) shipments)
                (run_calls recorded callbacks_beside "" calls shipments active) (ground arith)
                (run_calls-Makes "" calls shipments active))
        ]
