-- ===== src/Shipping/Patches.antt =====
-- What zdrovena/shipping/application/execution/workflow.py reads off a draft and writes on it.
use zdrovena_reconciliation.Prelude.{
  String, Bool, true, false, ◌&&◌, Option, none, some, List, [], ◌∷◌, str_eq, if◌then◌else◌,
}
use zdrovena_reconciliation.Prelude.Text.{strip}
use zdrovena_reconciliation.Prelude.Result.{Result, ok, err}
use zdrovena_reconciliation.Prelude.Dict.{lookup, insert}
use zdrovena_reconciliation.Shipping.State.{executing, same}
use zdrovena_reconciliation.Shipping.Draft.{
  Value, null, text, shipments, Shipment, Draft, truthy, same_value, status_of, text_at,
}
use zdrovena_reconciliation.Shipping.Ports.{
  Exc, Event, shipment_created, ProviderRun, Preview, Request, Failure, fingerprint_mismatch,
  escaped, shipping, communication,
}

-- `error.split(":", 1)[0]`
unfoldable pub before_colon : String → String
before_colon String.[] = String.[]
before_colon (String.◌∷◌ c rest) =
    let tail = before_colon rest in
    if str_eq (String.◌∷◌ c String.[]) ":" then String.[] else String.◌∷◌ c tail

-- `x or y` on what `get` returned
abbrev pub or_value : Option Value → Option Value → Option Value
or_value x y = if truthy x then x else y

abbrev pub order_number : Draft → Option Value
order_number draft = or_value (lookup "shopify_order_number" draft) (lookup "order_number" draft)

-- `str(draft.get(key) or default)`
abbrev pub text_or : String → Draft → String → String
text_or key draft default = if str_eq (text_at key draft) "" then default else text_at key draft

-- a dict that is missing or empty is false
abbrev pub present : Option Draft → Bool
present none = false
present (some []) = false
present (some (f ∷ fields)) = true

abbrev pub shipments_at : Option Value → List Shipment
shipments_at (some (shipments xs)) = xs
shipments_at _ = []

abbrev pub same_key : Option String → Option String → Bool
same_key none none = true
same_key (some a) (some b) = str_eq a b
same_key _ _ = false

-- `persist_allegro_shipment`: the first record of the same parcel is replaced, or one is added
unfoldable pub put_shipment : Shipment → List Shipment → List Shipment
put_shipment x [] = x ∷ []
put_shipment x (y ∷ ys) =
    let rest = put_shipment x ys in
    if same_key y.package_type x.package_type && same_key y.package_number x.package_number
    then x ∷ ys
    else y ∷ rest

-- the tracking numbers that are not blank
unfoldable pub tracking_numbers : List Shipment → List String
tracking_numbers [] = []
tracking_numbers (x ∷ xs) =
    let number : String = elim x.tracking_number [ none ↦ "" | some t ↦ t ] in
    let rest = tracking_numbers xs in if str_eq (strip number) "" then rest else number ∷ rest

abbrev pub command_fields : String → Draft
command_fields command_id =
    ("allegro_command_id", text command_id)
    ∷ ("status", text "pending_confirmation")
    ∷ ("error", null)
    ∷ []

abbrev pub pickup_command_fields : String → Draft
pickup_command_fields command_id =
    ("allegro_pickup_command_id", text command_id) ∷ ("allegro_dispatch_id", null) ∷ []

abbrev pub shipment_fields : List Shipment → Draft
shipment_fields persisted = ("courier_shipments", shipments persisted) ∷ []

abbrev pub error_fields : String → Draft
error_fields message = ("status", text "error") ∷ ("error", text message) ∷ []

-- what the function raises for an exception after the claim
abbrev pub wrapped : Exc → Failure
wrapped e = if e.is_shipping then shipping e else communication e

-- `current and current.get("status") == EXECUTING`
abbrev pub still_executing : Option Draft → Bool
still_executing none = false
still_executing (some current) = elim (status_of current) [
  | none ↦ false
  | some s ↦ same s executing
]

unfoldable pub apply_patch : Request → Draft → Draft
apply_patch request patch =
    if truthy (lookup "courier_draft_id" patch)
    then insert "shipment_origin" (text request.system_shipment_origin) patch
    else patch

unfoldable pub created_event : String → Draft → Draft → Event
unfolding tracking_numbers
created_event draft_id draft patch =
    shipment_created draft_id (lookup "shopify_order_number" draft) (lookup "courier" draft)
      (lookup "tracking_number" patch)
      (tracking_numbers (shipments_at (lookup "courier_shipments" patch)))
      (lookup "courier_draft_id" patch) (lookup "dispatch_order_id" patch) (lookup "status" patch)

-- `updated or patch`
abbrev pub updated_or : Option Draft → Draft → Draft
updated_or none patch = patch
updated_or (some []) patch = patch
updated_or (some (f ∷ fields)) patch = f ∷ fields

abbrev pub is_courier : String → Draft → Bool
is_courier name draft = same_value (lookup "courier" draft) (some (text name))

unfoldable pub sender_for : Request → Draft → Option Preview → Result Exc Draft
sender_for request draft none = request.resolve_sender
sender_for request draft (some preview) =
    if is_courier "inpost" draft then ok preview.sender else request.resolve_sender

-- a draft with no courier goes to Apaczka
unfoldable pub run_for : Request → Draft → Draft → ProviderRun
run_for request draft sender =
    if is_courier "allegro_delivery" draft
    then request.providers.allegro_delivery draft request.pickup_window
    else if is_courier "inpost" draft
    then request.providers.inpost draft sender request.pickup_window
    else request.providers.apaczka draft request.pickup_window

-- the comparison of the reviewed preview, where one was reviewed
unfoldable pub reviewed : Request → Draft → Option String → Result Failure (Option Preview)
reviewed request draft none = ok none
reviewed request draft (some fingerprint) = elim (request.build_preview draft) [
  | err e ↦ err (escaped e)
  | ok preview ↦
      if str_eq preview.fingerprint fingerprint then ok (some preview) else err fingerprint_mismatch
]
