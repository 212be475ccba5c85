-- ===== src/Tests/Providers.antt =====
-- Runs of the providers, and their theorems at such inputs.
use zdrovena_reconciliation.Prelude.{
  ℕ, ◌+◌, ◌≤◌, ◌≡◌, refl, String, Bool, true, false, none, some, List, [], ◌∷◌, map, if◌then◌else◌,
}
use zdrovena_reconciliation.Prelude.Text.{strip}
use zdrovena_reconciliation.Prelude.Dict.{Dict}
use zdrovena_reconciliation.Prelude.Result.{Result, ok, err}
use zdrovena_reconciliation.Shipping.State.{Status, same}
use zdrovena_reconciliation.Shipping.Parcels.{three_pak, one_pak, glass_box, to_legacy_row}
use zdrovena_reconciliation.Shipping.Planning.{
  half_packs_for_item, product_name, physical_parcels, calc_packages,
}
use zdrovena_reconciliation.Shipping.Sync.{normalize_pl_phone}
use zdrovena_reconciliation.Shipping.Cod.Fractions.{total_of}
use zdrovena_reconciliation.Shipping.Cod.Money.{grosze}
use zdrovena_reconciliation.Shipping.Cod.Remainder.{largest_remainder}
use zdrovena_reconciliation.Shipping.Cod.Assign.{packable_lines, assign_half_packs}
use zdrovena_reconciliation.Shipping.Cod.Allocation.{cod_allocation}
use zdrovena_reconciliation.Shipping.Providers.Calls.{
  ShipmentDraft, Key, parcel_key, ProviderRaised, communication,
}
use zdrovena_reconciliation.Shipping.Providers.Keys.{count, AreDistinct}
use zdrovena_reconciliation.Shipping.Providers.Plans.{Plans, IsPlan}
use zdrovena_reconciliation.Shipping.Providers.Yields.{Yields, IsBooked, parcel_keys}
use zdrovena_reconciliation.Shipping.Providers.Distinct.{calc_packages-AreDistinct}
use zdrovena_reconciliation.Shipping.Providers.Site.{
  Weather, Answer, Site, create, persist, empty_site,
}
use zdrovena_reconciliation.Shipping.Providers.Site
use zdrovena_reconciliation.Shipping.Providers.Inpost.{
  inpost_call_specs, pending_inpost_call_specs, InpostClient, run_inpost, is_resumable_inpost_draft,
}
use zdrovena_reconciliation.Shipping.Sync.{normalize_pl_phone}
use zdrovena_reconciliation.Shipping.Providers.Inpost.Collects.{
  IsInpostPlan, inpost_call_specs-Plans,
}
use zdrovena_reconciliation.Shipping.Providers.Inpost.Returns.{Returns, run_inpost-Returns}
use zdrovena_reconciliation.Shipping.Providers.Inpost.Complete.{run_inpost_books_missing}
use zdrovena_reconciliation.Shipping.Providers.Inpost.Once as InpostOnce
use zdrovena_reconciliation.Shipping.Providers.Inpost.Once.{books_once}
use zdrovena_reconciliation.Shipping.Providers.Apaczka.{
  ApaczkaWindow, ApaczkaClient, apaczka_call_specs, run_apaczka,
}
use zdrovena_reconciliation.Shipping.Providers.Apaczka.Missing.{left_of, apaczka_call_specs_left}
use zdrovena_reconciliation.Shipping.Providers.Apaczka.Complete.{run_apaczka_books_missing}
use zdrovena_reconciliation.Shipping.Providers.Apaczka.Once as ApaczkaOnce
use zdrovena_reconciliation.Shipping.Providers.Apaczka.Once.{apaczka_books_once}
use zdrovena_reconciliation.Tests.Planning.{names, items}
use zdrovena_reconciliation.Tests.Cod.{decimal, draft as money}

abbrev digits_of : String → String
digits_of s = s

abbrev draft : ShipmentDraft
draft = record {
  money = money;
  cod_error = "";
  cod_currency = "PLN";
  status = some Status.pending;
  service = "inpost_courier_standard";
  apaczka_service_id = "21";
  order_number = "#1001";
  receiver = record {
    first_name = "Jan";
    last_name = "Kowalski";
    email = "jan@example.com";
    phone = some "601202303";
    locker_id = "";
  };
  pickup_point_id = "";
  shipping_address = record {
    street = "Prosta";
    building_number = some "1";
    flat_number = "";
    city = "Warszawa";
    post_code = "00-001";
  };
  courier_draft_id = "";
  courier_shipments = [];
  dispatch_order_id = none;
  pickup_ordered = none;
}

abbrev sender : Dict String
sender = []

inpost_call_specs-Plans_example :
    Plans
      (IsInpostPlan names decimal digits_of draft)
      (inpost_call_specs names decimal digits_of draft sender)
inpost_call_specs-Plans_example = inpost_call_specs-Plans names decimal digits_of draft sender

-- The first execution breaks off at the second parcel, whose answer is lost; the second one books what has
-- no checkpoint.
abbrev answer : Bool → Key → Answer
answer calm (three_pak, n) =
    Site.created (record { id = "A"; tracking_number = "1"; pickup_number = none })
answer calm k =
    if calm
    then Site.created (record { id = "B"; tracking_number = "2"; pickup_number = none })
    else Site.lost (record { is_shipping = false; class_name = "Timeout"; message = "" })

abbrev weather : Bool → Weather
weather calm = record {
  answer = answer calm;
  write = λ k. record { is_written = true; raises = none };
}

abbrev no_answer : {A : Type 0} → Result ProviderRaised A
no_answer =
    err (communication (record { is_shipping = false; class_name = "Timeout"; message = "" }))

abbrev execution : Bool → InpostOnce.Execution
execution calm = record {
  draft = draft;
  sender = sender;
  pickup = false;
  weather = weather calm;
  shipment = λ id. no_answer;
  confirmed = λ id. no_answer;
  dispatch_order = λ ids. no_answer;
}

abbrev two_executions : List InpostOnce.Execution
two_executions = execution false ∷ execution true ∷ []

abbrev after_two : Site
after_two = InpostOnce.executions names decimal digits_of two_executions empty_site

-- the second parcel is booked twice, once without a checkpoint
executions_run :
    map {B = ℕ × ℕ}
      (λ k. (count k after_two.booked, count k after_two.unrecorded))
      ((three_pak, 1) ∷ (one_pak, 1) ∷ (glass_box, 1) ∷ [])
    ≡ (1, 0) ∷ (2, 1) ∷ (1, 0) ∷ []
unfolding InpostOnce.executions same normalize_pl_phone count create persist cod_allocation grosze
    largest_remainder total_of packable_lines half_packs_for_item product_name strip
    assign_half_packs physical_parcels
executions_run = refl

draft-AreDistinct : AreDistinct (parcel_keys draft)
unfolding count physical_parcels
draft-AreDistinct = (refl, (refl, (refl, tt)))

books_once_example :
    count (one_pak, 1) after_two.booked ≤ 1 + count (one_pak, 1) after_two.unrecorded
books_once_example =
    books_once names decimal digits_of two_executions (one_pak, 1)
      (draft-AreDistinct, (draft-AreDistinct, tt))

abbrev inpost_client : InpostClient Site
inpost_client = record {
  create_shipment = create (weather true);
  get_shipment = λ id site. (no_answer, site);
  wait_for_shipment_confirmation = λ id site. (no_answer, site);
  create_dispatch_order = λ ids site. (no_answer, site);
}

run_inpost_books_missing_example :
    Yields
      (IsBooked inpost_client.create_shipment
        (pending_inpost_call_specs names decimal digits_of draft sender)
        (parcel_keys draft)
        [])
      (run_inpost names decimal digits_of inpost_client (persist (weather true)) false draft sender)
unfolding is_resumable_inpost_draft same
run_inpost_books_missing_example =
    run_inpost_books_missing names decimal digits_of inpost_client (persist (weather true)) false
      draft sender refl

abbrev window : ApaczkaWindow
window = record { pickup_date = none; pickup_from = none; pickup_to = none }

-- the first parcel is booked
abbrev resumed : ShipmentDraft
resumed = record draft {
  courier_shipments =
      (record {
        id = "A";
        tracking_number = "1";
        package_type = three_pak;
        package_number = 1;
        pickup_number = none;
      })
      ∷ [];
}

apaczka_call_specs_left_example :
    Plans (IsPlan names decimal money) (apaczka_call_specs names decimal draft sender none window)
    × (apaczka_call_specs names decimal resumed sender none window
        ≡ left_of resumed.courier_shipments
            (apaczka_call_specs names decimal draft sender none window))
apaczka_call_specs_left_example = apaczka_call_specs_left names decimal resumed sender none window

abbrev order : Bool → ApaczkaOnce.Execution
order calm = record {
  draft = draft;
  pickup_address = sender;
  secret = none;
  pickup = window;
  weather = weather calm;
  number = λ id. no_answer;
  point = λ type id. no_answer;
}

apaczka_books_once_example :
    let site = ApaczkaOnce.executions names decimal (order false ∷ order true ∷ []) empty_site in
    count (one_pak, 1) site.booked ≤ 1 + count (one_pak, 1) site.unrecorded
apaczka_books_once_example =
    apaczka_books_once names decimal (order false ∷ order true ∷ []) (one_pak, 1)
      (draft-AreDistinct, (draft-AreDistinct, tt))

abbrev apaczka_client : ApaczkaClient Site
apaczka_client = record {
  create_shipment = create (weather true);
  get_order_pickup_number = λ id site. (ok "77", site);
  get_point = λ type id site. (no_answer, site);
}

run_apaczka_books_missing_example :
    Yields
      (IsBooked apaczka_client.create_shipment
        (apaczka_call_specs names decimal draft sender none window)
        (parcel_keys draft)
        [])
      (run_apaczka names decimal apaczka_client (persist (weather true)) draft sender none window)
run_apaczka_books_missing_example =
    run_apaczka_books_missing names decimal apaczka_client (persist (weather true)) draft sender
      none window

calc_packages-AreDistinct_example :
    AreDistinct
      (map parcel_key (physical_parcels (map to_legacy_row (calc_packages names items).breakdown)))
calc_packages-AreDistinct_example = calc_packages-AreDistinct names items

-- every booking is answered, and the pickup's order fails
abbrev answering_client : InpostClient (Unit {0})
answering_client = record {
  create_shipment =
      λ call s. (ok (record { id = "I1"; tracking_number = "T1"; pickup_number = none }), s);
  get_shipment = λ id s. (no_answer, s);
  wait_for_shipment_confirmation = λ id s. (no_answer, s);
  create_dispatch_order = λ ids s. (no_answer, s);
}

-- a draft with nothing to collect
abbrev prepaid : ShipmentDraft
prepaid = record draft { money = record money { cod = none } }

run_inpost-Returns_example :
    Returns
      (run_inpost names decimal digits_of answering_client (λ c s. (ok tt, s)) true prepaid sender)
unfolding is_resumable_inpost_draft same pending_inpost_call_specs inpost_call_specs
    normalize_pl_phone physical_parcels
run_inpost-Returns_example =
    run_inpost-Returns names decimal digits_of answering_client (λ c s. (ok tt, s)) true prepaid
      sender refl refl (λ call s. refl) (λ c s. refl)
