-- ===== src/Tests/Sync.antt =====
-- Synchronisation of drafts: runs and instances.
use zdrovena_reconciliation.Prelude.{◌≡◌, ◌⊎◌, refl, String, true, some, [], ◌∷◌}
use zdrovena_reconciliation.Prelude.Text.{strip}
use zdrovena_reconciliation.Prelude.Dict.{lookup}
use zdrovena_reconciliation.Shipping.Draft.{Draft, text, number, rows, json}
use zdrovena_reconciliation.Shipping.Sync.{merge_synced_draft}
use zdrovena_reconciliation.Shipping.Sync.Kept.{
  merge_synced_draft_lasting, merge_synced_draft_settled,
}
use zdrovena_reconciliation.Shipping.Sync.Frozen.{merge_synced_draft_frozen}

abbrev as_it_is : String → String
as_it_is s = s

abbrev status_text : String
status_text = "pending_confirmation"

abbrev booked : Draft
booked =
    ("id", text "d1")
    ∷ ("status", text "pending_confirmation")
    ∷ ("courier_draft_id", text "c1")
    ∷ ("cod", json true "129.90")
    ∷ ("packages_source", text "operator")
    ∷ ("packages_breakdown", rows (2 ∷ 1 ∷ []))
    ∷ []

abbrev from_shop : Draft
from_shop =
    ("id", text "d2")
    ∷ ("status", text "pending")
    ∷ ("cod", json true "99.00")
    ∷ ("packages_breakdown", rows (1 ∷ []))
    ∷ ("tracking_number", text "6200")
    ∷ []

plan_run :
    lookup "packages_count" (merge_synced_draft as_it_is booked from_shop).0 ≡ some (number 3)
unfolding merge_synced_draft strip
plan_run = refl

origin_run :
    lookup "shipment_origin" (merge_synced_draft as_it_is booked from_shop).0 ≡ some (text "system")
unfolding merge_synced_draft strip
origin_run = refl

merge_synced_draft_lasting_example :
    lookup "courier_draft_id" (merge_synced_draft as_it_is booked from_shop).0 ≡ some (text "c1")
merge_synced_draft_lasting_example =
    merge_synced_draft_lasting as_it_is booked from_shop "courier_draft_id" (text "c1") refl refl

merge_synced_draft_settled_example :
    (lookup "status" (merge_synced_draft as_it_is booked from_shop).0
      ≡ some (text "pending_confirmation"))
    ⊎ ((status_text ≡ "pending_confirmation")
        × (lookup "status" (merge_synced_draft as_it_is booked from_shop).0
            ≡ some (text "created")))
merge_synced_draft_settled_example =
    merge_synced_draft_settled as_it_is booked from_shop status_text refl refl

merge_synced_draft_frozen_example :
    lookup "cod" (merge_synced_draft as_it_is booked from_shop).0 ≡ some (json true "129.90")
merge_synced_draft_frozen_example =
    merge_synced_draft_frozen as_it_is booked from_shop "cod" (json true "129.90") refl refl refl
