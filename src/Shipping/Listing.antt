-- ===== src/Shipping/Listing.antt =====
-- The listings of zdrovena/common/shipping_store.py, local backend: newest first, up to a limit, with what
-- is logged on the way.
pub mod Newest
use zdrovena_reconciliation.Prelude.{
  ℕ, ◌+◌, String, Bool, true, false, Option, none, some, List, [], ◌∷◌, ◌++◌, map, leb, ltb, min,
  length, take, if◌then◌else◌,
}
use zdrovena_reconciliation.Prelude.Text.{precedes}
use zdrovena_reconciliation.Prelude.Dict.{Dict}
use zdrovena_reconciliation.Shipping.Draft.{Draft, text_at}
use zdrovena_reconciliation.Shipping.Store.{DlqEntry, Store}

module _ {A : Type 0} (created_at : A → String) where
  -- `sort(key=created_at, reverse=True)`, which keeps the order of equal keys
  unfoldable pub insert_newest : A → List A → List A
  insert_newest x [] = x ∷ []
  insert_newest x (y ∷ ys) =
      let rest = insert_newest x ys in
      if precedes (created_at x) (created_at y) then y ∷ rest else x ∷ y ∷ ys

  unfoldable pub sort_newest : List A → List A
  unfolding insert_newest
  sort_newest [] = []
  sort_newest (x ∷ xs) = insert_newest x (sort_newest xs)

abbrev values : {A : Type 0} → Dict A → List A
values = map (λ entry. entry.1)

abbrev pub draft_created_at : Draft → String
draft_created_at = text_at "created_at"

abbrev pub entry_created_at : DlqEntry → String
entry_created_at entry = entry.created_at

abbrev pub stored_drafts : Store → List Draft
stored_drafts store = values store.drafts

abbrev pub stored_entries : Store → List DlqEntry
stored_entries store = values store.dlq

abbrev pub partition_scan_alarm_rows : ℕ
partition_scan_alarm_rows = 2000

-- what `list_drafts` logs: the rows read and returned, or the rows and the limit
pub data Notice : Type 0 where
  partition_scan truncated : ℕ → ℕ → Notice

abbrev scan_notices : ℕ → ℕ → List Notice
scan_notices rows limit =
    if leb partition_scan_alarm_rows rows then partition_scan rows (min rows limit) ∷ [] else []

abbrev pub truncation_notices : ℕ → ℕ → List Notice
truncation_notices rows limit = if ltb limit rows then truncated rows limit ∷ [] else []

unfoldable pub list_drafts : ℕ → Store → List Notice × List Draft
unfolding sort_newest precedes
list_drafts limit store =
    let records = sort_newest draft_created_at (stored_drafts store) in
    (
      scan_notices (length records) limit ++ truncation_notices (length records) limit,
      take limit records,
    )

unfoldable pub list_dlq : ℕ → Store → List DlqEntry
unfolding sort_newest precedes
list_dlq limit store = take limit (sort_newest entry_created_at (stored_entries store))
