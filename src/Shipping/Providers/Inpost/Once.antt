-- ===== src/Shipping/Providers/Inpost/Once.antt =====
-- Executions of InPost drafts that follow one another, whatever the courier's API, the store and the
-- network do.
use zdrovena_reconciliation.Prelude.{
  ◌+◌, ◌≤◌, refl, sym, subst, String, Bool, not, ◌&&◌, Option, List, [], ◌∷◌, arith, All, inl, inr,
  Bool-cases,
}
use zdrovena_reconciliation.Prelude.Dict.{Dict}
use zdrovena_reconciliation.Prelude.Result.{Result, ok, err}
use zdrovena_reconciliation.Prelude.Result.{◌>>=◌ as bind}
use zdrovena_reconciliation.Prelude.Text.{strip}
use zdrovena_reconciliation.Shipping.Planning.{ProductNames}
use zdrovena_reconciliation.Shipping.Cod.Money.{Decimal}
use zdrovena_reconciliation.Shipping.Providers.Calls.{
  Checkpoint, ShipmentDraft, Key, Call, pending, ProviderError, Action, ◌>>=◌, planned, pure,
  ProviderRaised, is_blank, Created, ShipmentPatch, shipment_patch, book_all,
}
use zdrovena_reconciliation.Shipping.Providers.Keys.{count, AreDistinct}
use zdrovena_reconciliation.Shipping.Providers.Site.{
  Weather, Site, IsSound, create, persist, book_all-IsSound, Reads, Reads-bind, Reads-map,
  after-Reads, empty_site, empty_site-IsSound,
}
use zdrovena_reconciliation.Shipping.Providers.Inpost.{
  InpostArguments, InpostClient, inpost_call_specs, pending_inpost_call_specs,
  is_resumable_inpost_draft, shipments_to_resume, legacy_shipment, resumed_patch, confirmation,
  refresh_all, refreshed, resume_inpost_shipment, dispatched, run_inpost,
}
use zdrovena_reconciliation.Shipping.Providers.Yields.{parcel_keys}
use zdrovena_reconciliation.Shipping.Providers.Plans.{Plans}
use zdrovena_reconciliation.Shipping.Providers.Inpost.Collects.{
  inpost_call_specs-Plans, IsInpostPlan,
}

-- One execution: what the operator's click carries, the draft but for its checkpoints, and what
-- happens outside. Reading a shipment or ordering a pickup books no parcel.
pub record Execution : Type 0 where
  pub draft : ShipmentDraft
  pub sender : Dict String
  pub pickup : Bool
  pub weather : Weather
  pub shipment : String → Result ProviderRaised Created
  pub confirmed : String → Result ProviderRaised Created
  pub dispatch_order : List String → Result ProviderRaised (Option String)

abbrev client_of : Execution → InpostClient Site
client_of e = record {
  create_shipment = create e.weather;
  get_shipment = λ id site. (e.shipment id, site);
  wait_for_shipment_confirmation = λ id site. (e.confirmed id, site);
  create_dispatch_order = λ ids site. (e.dispatch_order ids, site);
}

-- the draft as the execution reads it: with the checkpoints that are stored
abbrev stored_draft : Execution → Site → ShipmentDraft
stored_draft e site = record e.draft { courier_shipments = site.stored }

abbrev HasDistinctParcels : Execution → Type 0
HasDistinctParcels e = AreDistinct (parcel_keys e.draft)

module _ (names : ProductNames) (decimal : String → Option Decimal)
    (digits_of : String → String) where
  unfoldable pub execution : Execution → Site → Result ProviderRaised ShipmentPatch × Site
  unfolding run_inpost
  execution e site =
      run_inpost names decimal digits_of (client_of e) (persist e.weather) e.pickup
        (stored_draft e site) e.sender site

  unfoldable pub executions : List Execution → Site → Site
  unfolding execution
  executions [] site = site
  executions (e ∷ es) site = executions es (execution e site).1

  module _ (e : Execution) where
    confirmation-Reads : (id : String) → Reads (confirmation (client_of e) id)
    unfolding confirmation
    confirmation-Reads id =
        Reads-bind ((client_of e).get_shipment id) _ (λ site. refl) λ result site. ground arith

    refreshed-Reads : (c : Checkpoint) → Reads (refreshed (client_of e) c)
    refreshed-Reads c = elim (Bool-cases (not (is_blank c.id) && is_blank c.tracking_number)) [
      | inl f ↦
          rw f (
            Reads-map (confirmation (client_of e) (strip c.id)) _ (confirmation-Reads (strip c.id)))
      | inr f ↦ rw f λ site. refl
    ]

    refresh_all-Reads : (cs : List Checkpoint) → Reads (refresh_all (client_of e) cs)
    unfolding refresh_all
    refresh_all-Reads [] = λ site. refl
    refresh_all-Reads (c ∷ cs) =
        Reads-bind (refreshed (client_of e) c)
          (λ x. refresh_all (client_of e) cs >>= λ xs. pure (x ∷ xs)) (refreshed-Reads c)
          λ x. Reads-map (refresh_all (client_of e) cs) _ (refresh_all-Reads cs)

    to_resume-Reads :
        (draft : ShipmentDraft) (cs : List Checkpoint)
        → Reads (shipments_to_resume (client_of e) draft cs)
    to_resume-Reads draft [] =
        Reads-map (confirmation (client_of e) (strip draft.courier_draft_id))
          (λ result. legacy_shipment (client_of e) (strip draft.courier_draft_id) result ∷ [])
          (confirmation-Reads (strip draft.courier_draft_id))
    to_resume-Reads draft (c ∷ cs) = refresh_all-Reads (c ∷ cs)

    resume-Reads : (draft : ShipmentDraft) → Reads (resume_inpost_shipment (client_of e) draft)
    unfolding resume_inpost_shipment
    resume-Reads draft =
        Reads-map (shipments_to_resume (client_of e) draft draft.courier_shipments)
          (resumed_patch (client_of e) draft) (to_resume-Reads draft draft.courier_shipments)

    dispatched-Reads :
        (pickup : Bool) (patch : ShipmentPatch) → Reads (dispatched (client_of e) pickup patch)
    unfolding dispatched
    dispatched-Reads pickup patch site = ground arith

    booking : Site → Result ProviderError (List (Call InpostArguments)) → Action Site ShipmentPatch
    booking site r = planned (bind r λ specs. ok (pending site.stored specs)) >>= λ specs.
        book_all (create e.weather) (persist e.weather) specs site.stored >>= λ shipments.
        dispatched (client_of e) e.pickup (shipment_patch shipments)

    booking-IsSound :
        (site : Site) (r : Result ProviderError (List (Call InpostArguments)))
        → HasDistinctParcels e
        → Plans (IsInpostPlan names decimal digits_of (stored_draft e site)) r
        → IsSound site
        → IsSound (booking site r site).1
    unfolding booking
    booking-IsSound site (err x) d p h = h
    booking-IsSound site (ok specs) d p h =
        let loop =
          book_all (create e.weather) (persist e.weather) (pending site.stored specs) site.stored in
        subst IsSound
          (sym (
            after-Reads loop
              (λ shipments. dispatched (client_of e) e.pickup (shipment_patch shipments))
              (λ shipments. dispatched-Reads e.pickup (shipment_patch shipments)) site))
          (book_all-IsSound e.weather specs site.stored site (subst AreDistinct (sym p.0.0) d) h)

    execution-IsSound :
        (site : Site) → HasDistinctParcels e → IsSound site → IsSound (execution e site).1
    unfolding execution run_inpost pending_inpost_call_specs booking
    execution-IsSound site d h =
        let draft = stored_draft e site in
        elim (Bool-cases (is_resumable_inpost_draft draft)) [
          | inl f ↦ rw (f, run_inpost) (subst IsSound (sym (resume-Reads draft site)) h)
          | inr f ↦
              rw (f, run_inpost)
                (booking-IsSound site (inpost_call_specs names decimal digits_of draft e.sender) d
                  (inpost_call_specs-Plans names decimal digits_of draft e.sender) h)
        ]

  executions-IsSound :
      (es : List Execution) (site : Site)
      → All HasDistinctParcels es
      → IsSound site
      → IsSound (executions es site)
  unfolding executions
  executions-IsSound [] site d h = h
  executions-IsSound (e ∷ es) site d h =
      executions-IsSound es (execution e site).1 d.1 (execution-IsSound e site d.0 h)

  -- Whatever drafts are executed one after another on the same checkpoints, whatever the courier
  -- answers, whichever writes fail and wherever an execution breaks off: as long as no draft has two
  -- parcels of one type and number, the bookings of a parcel at InPost are one at most and, besides,
  -- those of which no checkpoint could be written.
  pub books_once :
      (es : List Execution) (k : Key)
      → All HasDistinctParcels es
      → let site = executions es empty_site in count k site.booked ≤ 1 + count k site.unrecorded
  books_once es k d =
      let h = executions-IsSound es empty_site d empty_site-IsSound k in omega (arith, h.0, h.1)
