-- ===== src/Shipping/Providers/Apaczka/Once.antt =====
-- Executions of Apaczka drafts that follow one another, whatever the courier's API, the store and the
-- network do.
use zdrovena_reconciliation.Prelude.{
  ◌+◌, ◌≤◌, ◌≡◌, refl, ap, sym, subst, String, Option, some, List, [], ◌∷◌, arith, All, str_eq,
  if◌then◌else◌, inl, inr, Bool-cases, Option-cases,
}
use zdrovena_reconciliation.Prelude.Dict.{Dict}
use zdrovena_reconciliation.Prelude.Result.{Result, ok, err}
use zdrovena_reconciliation.Prelude.Text.{strip}
use zdrovena_reconciliation.Shipping.Planning.{ProductNames}
use zdrovena_reconciliation.Shipping.Cod.Money.{Decimal}
use zdrovena_reconciliation.Shipping.Providers.Calls.{
  ShipmentDraft, Key, Call, key_of, pending, ProviderError, ◌>>=◌, ◌>>◌, planned, pure,
  ProviderRaised, ShipmentPatch, shipment_patch, book_all,
}
use zdrovena_reconciliation.Shipping.Providers.Keys.{count, AreDistinct}
use zdrovena_reconciliation.Shipping.Providers.Site.{
  Answer, created, refused, lost, Weather, Site, IsSound, create, order_answered, persist,
  book_all-IsSound, Reads, Reads-bind, after-Reads, checked-IsSound, empty_site, empty_site-IsSound,
}
use zdrovena_reconciliation.Shipping.Providers.Yields.{parcel_keys}
use zdrovena_reconciliation.Shipping.Providers.Apaczka.{
  ApaczkaWindow, ApaczkaArguments, ApaczkaClient, Point, check_service, point_type_of,
  checked_point, validate_apaczka_cod_pickup_point, apaczka_cod_pickup_point_id, apaczka_call_specs,
  apaczka_pickup_number, or_blank, create_order, cod_bank_account, plan_apaczka, run_apaczka,
}
use zdrovena_reconciliation.Shipping.Providers.Apaczka.Complete.{
  IsPending, booked, plan_apaczka-IsPending,
}

-- One execution: what the operator's click carries, the draft but for its checkpoints, and what
-- happens outside. Looking a point or a pickup number up books no parcel.
pub record Execution : Type 0 where
  pub draft : ShipmentDraft
  pub pickup_address : Dict String
  pub secret : Option String
  pub pickup : ApaczkaWindow
  pub weather : Weather
  pub number : String → Result ProviderRaised String
  pub point : String → String → Result ProviderRaised (Option Point)

abbrev client_of : Execution → ApaczkaClient Site
client_of e = record {
  create_shipment = create e.weather;
  get_order_pickup_number = λ id site. (e.number id, site);
  get_point = λ type id site. (e.point type id, site);
}

abbrev stored_draft : Execution → Site → ShipmentDraft
stored_draft e site = record e.draft { courier_shipments = site.stored }

abbrev number_of : Execution → String → String
number_of e id = if str_eq id "" then "" else or_blank (client_of e) (e.number id)

-- what an order comes to once its pickup number is read
abbrev numbered : Execution → Answer → Answer
numbered e (created result) =
    created (record result { pickup_number = some (number_of e result.id) })
numbered e (refused x) = refused x
numbered e (lost x) = lost x

abbrev numbered_weather : Execution → Weather
numbered_weather e = record e.weather { answer = λ k. numbered e (e.weather.answer k) }

number_read :
    (e : Execution) (id : String) (site : Site)
    → apaczka_pickup_number (client_of e) id site ≡ (ok (number_of e id), site)
unfolding apaczka_pickup_number
number_read e id site = elim (Bool-cases (str_eq id "")) [ inl f ↦ rw f refl | inr f ↦ rw f refl ]

create_order-numbered :
    (e : Execution) (call : Call ApaczkaArguments) (site : Site) (a : Answer)
    → (order_answered call a >>= λ result.
          apaczka_pickup_number (client_of e) result.id >>= λ number.
          pure (record result { pickup_number = some number }))
        site
      ≡ order_answered call (numbered e a) site
unfolding order_answered apaczka_pickup_number
create_order-numbered e call site (refused x) = refl
create_order-numbered e call site (lost x) = refl
create_order-numbered e call site (created result) =
    let booked = record site { booked = key_of call ∷ site.booked } in
    ap (λ r. (((λ s. r) >>= λ number. pure (record result { pickup_number = some number })) booked))
      (number_read e result.id booked)

create_order-create : (e : Execution) → create_order (client_of e) ≡ create (numbered_weather e)
unfolding create_order create
create_order-create e =
    λ i call site. create_order-numbered e call site (e.weather.answer (key_of call)) i

module _ (names : ProductNames) (decimal : String → Option Decimal) where
  unfoldable pub execution : Execution → Site → Result ProviderRaised ShipmentPatch × Site
  unfolding run_apaczka
  execution e site =
      run_apaczka names decimal (client_of e) (persist e.weather) (stored_draft e site)
        e.pickup_address e.secret e.pickup site

  unfoldable pub executions : List Execution → Site → Site
  unfolding execution
  executions [] site = site
  executions (e ∷ es) site = executions es (execution e site).1

  module _ (e : Execution) where
    planned-Reads : {A : Type 0} (r : Result ProviderError A) → Reads (planned r)
    planned-Reads (ok a) site = refl
    planned-Reads (err x) site = refl

    looked_up_point :
        (id type : String)
        → Reads ((client_of e).get_point type id >>= λ point. planned (checked_point id point))
    looked_up_point id type =
        Reads-bind ((client_of e).get_point type id) (λ point. planned (checked_point id point))
          (λ site. refl) λ point. planned-Reads (checked_point id point)

    validate-Reads :
        (draft : ShipmentDraft)
        → Reads (validate_apaczka_cod_pickup_point (client_of e).get_point draft)
    unfolding validate_apaczka_cod_pickup_point
    validate-Reads draft site = elim (Option-cases (apaczka_cod_pickup_point_id draft)) [
      | inl f ↦ rw (f, validate_apaczka_cod_pickup_point) refl
      | inr (id, f) ↦ elim (Option-cases (point_type_of (strip draft.apaczka_service_id))) [
        | inl g ↦ rw (f, g, validate_apaczka_cod_pickup_point) refl
        | inr (type, g) ↦
            rw (f, g, validate_apaczka_cod_pickup_point) (looked_up_point id type site)
      ]
    ]

    plan_apaczka-Reads :
        (draft : ShipmentDraft)
        → Reads (
            plan_apaczka names decimal
              (client_of e)
              (persist e.weather)
              draft
              e.pickup_address
              e.secret
              e.pickup)
    unfolding plan_apaczka
    plan_apaczka-Reads draft =
        let service = planned (check_service draft e.pickup) in
        let point = validate_apaczka_cod_pickup_point (client_of e).get_point draft in
        let specs =
          apaczka_call_specs names decimal draft e.pickup_address (cod_bank_account draft e.secret)
            e.pickup in
        Reads-bind (service >> point) (λ u. planned specs)
          (Reads-bind service (λ u. point) (planned-Reads (check_service draft e.pickup))
            λ u. validate-Reads draft)
          λ u. planned-Reads specs

    booked-IsSound :
        (site : Site) (specs : List (Call ApaczkaArguments))
        → AreDistinct (parcel_keys e.draft)
        → IsPending names decimal (stored_draft e site) specs
        → IsSound site
        → IsSound
            (booked names decimal
              (client_of e)
              (persist e.weather)
              (stored_draft e site)
              specs
              site).1
    unfolding persist
    booked-IsSound site specs d (full, f, keys) h =
        rw (f, create_order-create e)
          (subst IsSound
            (sym (
              after-Reads
                (book_all (create (numbered_weather e)) (persist e.weather)
                  (pending site.stored full) site.stored)
                (λ shipments. pure (shipment_patch shipments)) (λ shipments s. refl) site))
            (book_all-IsSound (numbered_weather e) full site.stored site
              (subst AreDistinct (sym keys) d) h))

    execution-IsSound :
        (site : Site)
        → AreDistinct (parcel_keys e.draft)
        → IsSound site
        → IsSound (execution e site).1
    unfolding execution run_apaczka
    execution-IsSound site d h =
        let draft = stored_draft e site in
        checked-IsSound (IsPending names decimal draft)
          (plan_apaczka names decimal (client_of e) (persist e.weather) draft e.pickup_address
            e.secret e.pickup)
          (booked names decimal (client_of e) (persist e.weather) draft) site
          (plan_apaczka-Reads draft)
          (plan_apaczka-IsPending names decimal (client_of e) (persist e.weather) draft
            e.pickup_address e.secret e.pickup site)
          (λ specs p. booked-IsSound site specs d p h) h

  executions-IsSound :
      (es : List Execution) (site : Site)
      → All (λ e. AreDistinct (parcel_keys e.draft)) es
      → IsSound site
      → IsSound (executions es site)
  unfolding executions
  executions-IsSound [] site d h = h
  executions-IsSound (e ∷ es) site d h =
      executions-IsSound es (execution e site).1 d.1 (execution-IsSound e site d.0 h)

  -- Whatever drafts are executed one after another on the same checkpoints, whatever the courier
  -- answers, whichever writes fail and wherever an execution breaks off: as long as no draft has two
  -- parcels of one type and number, the bookings of a parcel at Apaczka are one at most and, besides,
  -- those of which no checkpoint could be written.
  pub apaczka_books_once :
      (es : List Execution) (k : Key)
      → All (λ e. AreDistinct (parcel_keys e.draft)) es
      → let site = executions es empty_site in count k site.booked ≤ 1 + count k site.unrecorded
  apaczka_books_once es k d =
      let h = executions-IsSound es empty_site d empty_site-IsSound k in omega (arith, h.0, h.1)
