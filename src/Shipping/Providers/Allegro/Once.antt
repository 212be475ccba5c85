-- ===== src/Shipping/Providers/Allegro/Once.antt =====
-- The commands of a whole run of Allegro Delivery.
use zdrovena_reconciliation.Prelude.{
  ℕ, ◌+◌, ◌≤◌, ◌≡◌, refl, ap, subst, String, Bool, true, false, ◌||◌, Option, none, some, List, [],
  ◌∷◌, map, arith, str_eq, if◌then◌else◌, inl, inr, Bool-cases,
}
use zdrovena_reconciliation.Prelude.Result.{Result, ok, err}
use zdrovena_reconciliation.Shipping.Parcels.{PhysicalParcel}
use zdrovena_reconciliation.Shipping.Planning.{physical_parcels}
use zdrovena_reconciliation.Shipping.Providers.Calls.{Key, parcel_key}
use zdrovena_reconciliation.Shipping.Providers.Keys.{count}
use zdrovena_reconciliation.Shipping.Providers.Yields.{OnOk}
use zdrovena_reconciliation.Shipping.Providers.Allegro.{
  AllegroDraft, SuggestedInput, AllegroCall, call_key, shipment_of, by_key, ordered_shipments,
  AllegroPatch, allegro_call, allegro_call_specs, AllegroError, is_empty_block,
}
use zdrovena_reconciliation.Shipping.Providers.Allegro.Pickup.{
  AllegroRaised, planning, Attempted, ◌>>=◌, returned, raised, AllegroClient,
}
use zdrovena_reconciliation.Shipping.Providers.Allegro.Run.{
  Callbacks, Ended, waits, finished, beside, attempt_pickup, conclude_allegro, plan_allegro,
  run_calls, run_allegro_delivery, legacy_command, pickup_command, shipment_ids_of,
}
use zdrovena_reconciliation.Shipping.Providers.Allegro.Makes.{
  has_command, Makes, Makes-after, Makes-before, Makes-beside,
}
use zdrovena_reconciliation.Shipping.Providers.Allegro.Commands.{
  recorded, callbacks_beside, allowed, run_calls-Makes,
}
use zdrovena_reconciliation.Shipping.Providers.Allegro.Quiet.{order-Quiet}

module _ {S : Type 0} (client : AllegroClient S) (callbacks : Callbacks S) where
  module _ (k : Key) where
    conclude_allegro-Makes :
        (pickup : Bool) (draft : AllegroDraft) (calls : List AllegroCall) (ended : Ended)
        → Makes k 0 (
            conclude_allegro
              (recorded client callbacks)
              (callbacks_beside client callbacks)
              pickup
              draft
              calls
              ended)
    unfolding conclude_allegro attempt_pickup
    conclude_allegro-Makes pickup draft calls (waits shipments command) = λ s log. omega arith
    conclude_allegro-Makes true draft calls (finished shipments active) = λ s log.
        let patch_ids = shipment_ids_of (ordered_shipments calls shipments) in
        let command = pickup_command draft in
        omega
          (arith, ap (count k) (order-Quiet client callbacks patch_ids command ((s, log), command)))
    conclude_allegro-Makes false draft calls (finished shipments active) = λ s log. omega arith

    -- a step that makes none, and then one that is bounded for what the first may return
    Makes-when :
        {A B : Type 0} (P : A → Type 0) (n : ℕ) (m : Attempted (S × List Key) A)
        (f : A → Attempted (S × List Key) B)
        → Makes k 0 m
        → ((t : S × List Key) → OnOk P (m t).0)
        → ((x : A) → P x → Makes k n (f x))
        → Makes k n (m >>= f)
    Makes-when {A = A} P n m f h y g s log = go (m (s, log)).0 (m (s, log)).1 (h s log) (y (s, log))
      where
        go :
            (r : Result AllegroRaised A) (after : S × List Key)
            → count k after.1 ≤ count k log + 0
            → OnOk P r
            → count k (((λ t. (r, t)) >>= f) after).1.1 ≤ count k log + n
        go (err e) after p q = omega arith
        go (ok x) (s', log') p q = omega (arith, g x q s' log')

    -- the calls of a plan are those of the draft's parcels
    abbrev IsPlanned : AllegroDraft → List AllegroCall → Type 0
    IsPlanned draft calls =
        map call_key calls ≡ map parcel_key (physical_parcels draft.packages_breakdown)

    map-call :
        (draft : AllegroDraft) (input : SuggestedInput) (ps : List PhysicalParcel)
        → map call_key (map (allegro_call draft input) ps) ≡ map parcel_key ps
    map-call draft input [] = refl
    map-call draft input (p ∷ ps) = ap (λ ks. parcel_key p ∷ ks) (map-call draft input ps)

    -- The create-commands for the parcel `k` that a run may ask for: none when a stored shipment has its
    -- id or its command, and else one for each parcel of that key.
    abbrev pub may_create : AllegroDraft → ℕ
    may_create draft =
        if has_command (shipment_of k (by_key [] draft.courier_shipments))
        then 0
        else count k (map parcel_key (physical_parcels draft.packages_breakdown))

    executed : Bool → AllegroDraft → List AllegroCall → Attempted (S × List Key) AllegroPatch
    executed pickup draft calls =
        run_calls (recorded client callbacks) (callbacks_beside client callbacks)
          (legacy_command draft) calls (by_key [] draft.courier_shipments) none
        >>= λ ended.
            conclude_allegro (recorded client callbacks) (callbacks_beside client callbacks) pickup
              draft calls ended

    executed-Makes :
        (pickup : Bool) (draft : AllegroDraft) (calls : List AllegroCall)
        → IsPlanned draft calls
        → Makes k (may_create draft) (executed pickup draft calls)
    unfolding executed
    executed-Makes pickup draft calls e =
        let start = by_key [] draft.courier_shipments in
        let loop =
          run_calls (recorded client callbacks) (callbacks_beside client callbacks)
            (legacy_command draft) calls start none in
        subst
          (λ ks.
            Makes k (if has_command (shipment_of k start) then 0 else count k ks)
              (executed pickup draft calls))
          e
          (Makes-before k (allowed client callbacks k calls start) loop
            (conclude_allegro (recorded client callbacks) (callbacks_beside client callbacks) pickup
              draft calls)
            (run_calls-Makes client callbacks k (legacy_command draft) calls start none)
            (conclude_allegro-Makes pickup draft calls))

    of_specs : Result AllegroError (List AllegroCall) → Attempted (S × List Key) (List AllegroCall)
    of_specs r = elim r [ err e ↦ raised (planning e) | ok calls ↦ returned calls ]

    allegro_call_specs-IsPlanned :
        (draft : AllegroDraft) (input : Option SuggestedInput) (t : S × List Key)
        → OnOk (IsPlanned draft) (of_specs (allegro_call_specs draft input) t).0
    unfolding allegro_call_specs of_specs
    allegro_call_specs-IsPlanned draft none t = tt
    allegro_call_specs-IsPlanned draft (some input) t =
        elim (Bool-cases (is_empty_block input.sender || is_empty_block input.receiver)) [
          | inl e ↦ rw e tt
          | inr e ↦ rw e (map-call draft input (physical_parcels draft.packages_breakdown))
        ]

    of_specs-Makes : (r : Result AllegroError (List AllegroCall)) → Makes k 0 (of_specs r)
    unfolding of_specs
    of_specs-Makes (err e) = λ s log. omega arith
    of_specs-Makes (ok calls) = λ s log. omega arith

    abbrev allegro_plan_of :
        (String → Attempted S (Option SuggestedInput))
        → AllegroDraft
        → Attempted (S × List Key) (List AllegroCall)
    allegro_plan_of get_proposal draft =
        plan_allegro (recorded client callbacks) (callbacks_beside client callbacks)
          (λ id. beside (get_proposal id)) draft

    allegro_plan_of-Makes :
        (get_proposal : String → Attempted S (Option SuggestedInput)) (draft : AllegroDraft)
        → Makes k 0 (allegro_plan_of get_proposal draft)
    unfolding plan_allegro of_specs
    allegro_plan_of-Makes get_proposal draft =
        elim (Bool-cases (str_eq draft.external_order_id "")) [
          | inl e ↦ rw (e, plan_allegro) λ s log. omega arith
          | inr e ↦
              rw (e, plan_allegro)
                (Makes-after k 0 (beside (get_proposal draft.external_order_id))
                  (λ input. of_specs (allegro_call_specs draft input))
                  (Makes-beside k (get_proposal draft.external_order_id))
                  λ input. of_specs-Makes (allegro_call_specs draft input))
        ]

    allegro_plan_of-IsPlanned :
        (get_proposal : String → Attempted S (Option SuggestedInput)) (draft : AllegroDraft)
        (t : S × List Key)
        → OnOk (IsPlanned draft) (allegro_plan_of get_proposal draft t).0
    unfolding plan_allegro of_specs
    allegro_plan_of-IsPlanned get_proposal draft t =
        elim (Bool-cases (str_eq draft.external_order_id "")) [
          | inl e ↦ rw (e, plan_allegro) tt
          | inr e ↦
              rw (e, plan_allegro)
                (go (beside (get_proposal draft.external_order_id) t).0
                  (beside (get_proposal draft.external_order_id) t).1)
        ]
      where
        go :
            (r : Result AllegroRaised (Option SuggestedInput)) (after : S × List Key)
            → OnOk
                (IsPlanned draft)
                (((λ u. (r, u)) >>= λ input. of_specs (allegro_call_specs draft input)) after).0
        go (err e) after = tt
        go (ok input) after = allegro_call_specs-IsPlanned draft input after

    -- A run of Allegro Delivery, whatever Allegro answers and whatever the callbacks do: for a parcel
    -- whose stored shipment has its id or at least its create-command no other create-command is
    -- sent, and else one at most for each parcel of its type and number.
    pub run_allegro_delivery_commands :
        (get_proposal : String → Attempted S (Option SuggestedInput)) (pickup : Bool)
        (draft : AllegroDraft) (s : S)
        → count k
            (run_allegro_delivery
              (recorded client callbacks)
              (callbacks_beside client callbacks)
              (λ id. beside (get_proposal id))
              pickup
              draft
              (s, [])).1.1
          ≤ may_create draft
    unfolding run_allegro_delivery plan_allegro count executed
    run_allegro_delivery_commands get_proposal pickup draft s =
        let m = allegro_plan_of get_proposal draft in
        let h : Makes k (may_create draft) (m >>= executed pickup draft) =
          Makes-when (IsPlanned draft) (may_create draft) m (executed pickup draft)
            (allegro_plan_of-Makes get_proposal draft)
            (allegro_plan_of-IsPlanned get_proposal draft) (executed-Makes pickup draft) in
        let q : count k
              (run_allegro_delivery (recorded client callbacks) (callbacks_beside client callbacks)
                (λ id. beside (get_proposal id)) pickup draft (s, [])).1.1
            ≤ 0 + may_create draft =
          h s [] in
        omega (arith, q)
