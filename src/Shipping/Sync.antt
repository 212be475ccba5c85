-- ===== src/Shipping/Sync.antt =====
-- zdrovena/shipping/application/drafts.py: a stored draft meets the same order, read again from the shop.
-- Python's `\D` is a parameter: the digits of a phone.
pub mod Fields
pub mod Kept
pub mod Frozen
use zdrovena_reconciliation.Prelude.{
  ℕ, ◌+◌, String, Bool, true, false, not, ◌&&◌, ◌||◌, ◌==◌, Option, none, some, List, [], ◌∷◌,
  is_some, str_eq, if◌then◌else◌,
}
use Prim.Native.String.{◌++◌ as str_append}
use zdrovena_reconciliation.Prelude.Text.{strip, starts_with}
use zdrovena_reconciliation.Prelude.Dict.{Dict, lookup, insert, update}
use zdrovena_reconciliation.Shipping.Draft.{
  Value, null, flag, number, text, rows, receiver, Draft, truthy, same_value,
}
use zdrovena_reconciliation.Shipping.Patches.{or_value}

abbrev pub preserved_fields : List String
preserved_fields =
    "id" ∷ "created_at" ∷ "execution_started_at" ∷ "shipment_origin" ∷ "courier_draft_id"
    ∷ "courier_shipments" ∷ "dispatch_order_id" ∷ "allegro_shipment_id" ∷ "allegro_dispatch_id"
    ∷ "allegro_pickup_command_id" ∷ "pickup_ordered" ∷ "fakturownia_invoice_id"
    ∷ "fakturownia_invoice_number" ∷ "fakturownia_invoice_error" ∷ "fakturownia_invoice_attempts"
    ∷ "fakturownia_invoice_attempted_at" ∷ "allegro_fulfillment_status" ∷ []

abbrev pub match_fields : List String
match_fields =
    "shipping_service_match_status" ∷ "shipping_service_match_source"
    ∷ "shipping_service_match_detail" ∷ []

-- `draft.get(key) == s`
abbrev pub has : String → String → Draft → Bool
has key s draft = same_value (lookup key draft) (some (text s))

-- what `get` returned, stored again
abbrev pub or_null : Option Value → Value
or_null none = null
or_null (some v) = v

abbrev pub is_terminal : Draft → Bool
is_terminal draft = has "status" "created" draft || has "status" "cancelled" draft

abbrev pub is_busy : Draft → Bool
is_busy draft = has "status" "executing" draft || has "status" "pending_confirmation" draft

abbrev pub is_started : Draft → Bool
is_started draft =
    has "status" "executing" draft
    || (has "status" "pending_confirmation" draft || has "status" "created" draft)

abbrev pub with_field : String → Option Value → Draft → Draft
with_field field none fields = fields
with_field field (some v) fields = (field, v) ∷ fields

-- `for field in fields: if field in existing: merged[field] = existing[field]`
unfoldable pub copied : List String → Draft → Draft
copied [] existing = []
copied (field ∷ fields) existing = with_field field (lookup field existing) (copied fields existing)

-- `str(value or "").strip()` is not empty
abbrev pub is_filled : Option Value → Bool
is_filled (some (text s)) = not (str_eq (strip s) "")
is_filled v = truthy v

-- the event of a tracking number that was assigned
pub record Assigned : Type 0 where
  pub draft_id : Option Value
  pub order_number : Option Value
  pub origin : String
  pub tracking_number : Option Value
  pub courier_draft_id : Option Value

abbrev pub origin_of : Draft → String
origin_of merged = if truthy (lookup "courier_draft_id" merged) then "system" else "external"

-- `len(s)`
unfoldable pub text_length : String → ℕ
text_length String.[] = 0
text_length (String.◌∷◌ c s) = 1 + text_length s

-- `normalize_pl_phone` of zdrovena/common/shipping_format.py
unfoldable pub normalize_pl_phone : (String → String) → Option String → Option String
unfolding starts_with text_length
normalize_pl_phone digits_of none = none
normalize_pl_phone digits_of (some raw) =
    let digits = digits_of raw in
    if str_eq raw ""
    then none
    else if starts_with digits "48" && (text_length digits == 11)
    then some (str_append "+" digits)
    else if text_length digits == 9
    then some (str_append "+48" digits)
    else none

abbrev phone_of : Option Value → Option String
phone_of (some (receiver phone)) = phone
phone_of _ = none

unfoldable pub inpost_phone_missing : (String → String) → Draft → Bool
unfolding normalize_pl_phone
inpost_phone_missing digits_of draft =
    has "courier" "inpost" draft
    && not (is_some (normalize_pl_phone digits_of (phone_of (lookup "receiver" draft))))

-- fields that are written under a condition
unfoldable pub only : Bool → Draft → Draft
only true fields = fields
only false fields = []

-- `if … else …` between fields to write
unfoldable pub choose : Bool → Draft → Draft → Draft
choose true fields others = fields
choose false fields others = others

-- Each part of the merge by the fields that it writes, in the source's order.
abbrev pub origin_fields : Draft → Draft
origin_fields merged =
    only
      (truthy (lookup "tracking_number" merged) && not (truthy (lookup "shipment_origin" merged)))
      (("shipment_origin", text (origin_of merged)) ∷ [])

abbrev pub assigned : Draft → Option Assigned
assigned merged =
    if truthy (lookup "tracking_number" merged) && not (truthy (lookup "shipment_origin" merged))
    then some (record {
      draft_id = lookup "id" merged;
      order_number = lookup "shopify_order_number" merged;
      origin = origin_of merged;
      tracking_number = lookup "tracking_number" merged;
      courier_draft_id = lookup "courier_draft_id" merged;
    })
    else none

abbrev pub fulfilled_fields : Draft → Draft → Draft
fulfilled_fields existing incoming =
    only (truthy (lookup "fulfilled_at" existing) && not (truthy (lookup "fulfilled_at" incoming)))
      (("fulfilled_at", or_null (lookup "fulfilled_at" existing)) ∷ [])

abbrev pub shipped_fields : Draft → Draft → Draft
shipped_fields incoming merged =
    ("status", text "created")
    ∷ only (not (truthy (lookup "fulfilled_at" merged))) (
        (
          "fulfilled_at",
          or_null (or_value (lookup "source_updated_at" incoming) (lookup "updated_at" incoming)),
        )
        ∷ [])

-- a draft that the operator has cleared, and that nothing new speaks against
abbrev pub is_cleared : (String → String) → Draft → Draft → Draft → Bool
is_cleared digits_of existing incoming merged =
    (has "status" "pending" existing && has "status" "needs_review" incoming)
    && (not (truthy (lookup "unreadable_products" merged))
        && not (inpost_phone_missing digits_of merged))

abbrev pub status_fields : (String → String) → Draft → Draft → Draft → Draft
status_fields digits_of existing incoming merged =
    choose
      (has "status" "pending_confirmation" existing && is_filled (lookup "tracking_number" merged))
      (("status", text "created") ∷ [])
      (choose (is_terminal existing || is_busy existing)
        (("status", or_null (lookup "status" existing)) ∷ [])
        (choose (has "status" "created" incoming) (shipped_fields incoming merged) (
          choose (has "status" "cancelled" incoming) (("status", text "cancelled") ∷ []) (
            choose (has "status" "error" existing)
              (("status", text "error") ∷ ("error", or_null (lookup "error" existing)) ∷ [])
              (choose (is_cleared digits_of existing incoming merged)
                (("status", text "pending") ∷ [])
                ((
                  "status",
                  or_null (or_value (lookup "status" incoming) (lookup "status" existing)),
                )
                  ∷ []))))))

abbrev pub fulfillment_fields : Draft → Draft → Draft
fulfillment_fields existing incoming =
    only
      (has "fulfillment_status" "fulfilled" existing
        || has "fulfillment_status" "fulfilled" incoming)
      (("fulfillment_status", text "fulfilled") ∷ [])

abbrev pub matched_fields : Draft → Draft
matched_fields existing =
    only (has "shipping_service_match_status" "manual" existing) (copied match_fields existing)

abbrev pub apaczka_fields : Draft → Draft → Draft
apaczka_fields existing incoming =
    only
      (truthy (lookup "apaczka_service_id" existing)
        && same_value (lookup "courier" incoming) (lookup "courier" existing))
      (("apaczka_service_id", or_null (lookup "apaczka_service_id" existing))
        ∷ matched_fields existing)

abbrev total : List ℕ → ℕ
total [] = 0
total (n ∷ ns) = n + total ns

abbrev rows_total : Option Value → ℕ
rows_total (some (rows ns)) = total ns
rows_total _ = 0

abbrev pub plan_fields : Draft → Draft
plan_fields existing =
    only
      (has "packages_source" "operator" existing && truthy (lookup "packages_breakdown" existing))
      (("packages_breakdown", or_null (lookup "packages_breakdown" existing))
        ∷ (
          "packages_count",
          or_null (
              or_value (lookup "packages_count" existing)
                (some (number (rows_total (lookup "packages_breakdown" existing))))),
        )
        ∷ ("packages_source", text "operator")
        ∷ [])

-- `existing.get(key, merged.get(key))`
abbrev pub get_or : String → Draft → Draft → Value
get_or key existing merged = elim (lookup key existing) [
  | some v ↦ v
  | none ↦ or_null (lookup key merged)
]

abbrev pub service_fields : Draft → Draft → Draft
service_fields existing merged =
    only (truthy (lookup "service" existing) && (is_busy existing || is_terminal existing)) (
      ("service", or_null (lookup "service" existing))
      ∷ ("courier", get_or "courier" existing merged)
      ∷ [])

abbrev pub cod_fields : Draft → Draft
cod_fields existing =
    only (truthy (lookup "execution_started_at" existing) || is_started existing) (
      ("cod", or_null (lookup "cod" existing))
      ∷ ("cod_error", or_null (lookup "cod_error" existing))
      ∷ copied ("shipping_price" ∷ "order_items" ∷ []) existing)

abbrev pub tracking_fields : Draft → Draft
tracking_fields existing = only (truthy (lookup "tracking_number" existing)) (
    ("tracking_number", or_null (lookup "tracking_number" existing))
    ∷ ("tracking_company", or_null (lookup "tracking_company" existing))
    ∷ [])

-- `{**existing, **incoming}` with what the stored draft keeps
abbrev pub preserved : Draft → Draft → Draft
preserved existing incoming =
    update (update (update existing incoming) (copied preserved_fields existing))
      (fulfilled_fields existing incoming)

abbrev pub with_status : (String → String) → Draft → Draft → Draft → Draft
with_status digits_of existing incoming merged =
    update merged (status_fields digits_of existing incoming merged)

-- the service, after the fields that are written before it
abbrev pub with_service : Draft → Draft → Draft
with_service existing merged = update merged (service_fields existing merged)

-- what follows the status
abbrev pub completed : Draft → Draft → Draft → Draft
completed existing incoming merged =
    update
      (update
        (with_service existing (
          update
            (update (update merged (fulfillment_fields existing incoming))
              (apaczka_fields existing incoming))
            (plan_fields existing)))
        (cod_fields existing))
      (tracking_fields existing)

unfoldable pub merge_synced_draft : (String → String) → Draft → Draft → Draft × Option Assigned
unfolding copied only choose inpost_phone_missing
merge_synced_draft digits_of existing incoming =
    let kept = preserved existing incoming in
    let merged = update kept (origin_fields kept) in
    (completed existing incoming (with_status digits_of existing incoming merged), assigned kept)
