-- ===== src/Shipping/Store.antt =====
-- zdrovena/common/shipping_store.py, the local backend: drafts and the dead-letter queue in two JSON
-- files, each operation under the file lock, so it is one step on the loaded dicts. The table backend
-- talks to Azure and is not modelled. Times are texts that the caller's clock gives.
pub mod Claims
pub mod Pickups
pub mod Orders
pub mod Queue
use zdrovena_reconciliation.Prelude.{
  ℕ, ◌+◌, String, Bool, true, false, not, ◌&&◌, ◌||◌, Option, none, some, List, [], ◌∷◌, ◌==◌,
  str_eq, leb, ltb, if◌then◌else◌, is_some, length, take,
}
use zdrovena_reconciliation.Prelude.Dict.{Dict, lookup, insert, without, update}
use zdrovena_reconciliation.Shipping.State.{can_execute}
use zdrovena_reconciliation.Shipping.Draft.{
  Value, flag, text, Draft, truthy, same_value, status_of, str_at,
}

pub record DlqEntry : Type 0 where
  pub id : String
  pub created_at : String
  pub updated_at : String
  pub source : String
  pub payload : Draft
  pub last_error : String
  pub retries : ℕ
  pub kind : String
  pub draft_id : Option String

pub record Store : Type 0 where
  pub drafts : Dict Draft
  pub dlq : Dict DlqEntry

unfoldable pub get_draft : String → Store → Option Draft
get_draft draft_id store = lookup draft_id store.drafts

abbrev put_draft : String → Draft → Store → Store
put_draft draft_id draft store = record store { drafts = insert draft_id draft store.drafts }

unfoldable pub update_draft : String → Draft → Store → Bool × Store
update_draft draft_id fields store = elim (lookup draft_id store.drafts) [
  | none ↦ (false, store)
  | some draft ↦ (true, put_draft draft_id (update draft fields) store)
]

-- `record.get("execution_started_at") or execution_started_at`
abbrev pub started_at : Draft → String → Value
started_at draft now = elim (lookup "execution_started_at" draft) [
  | none ↦ text now
  | some v ↦ if truthy (some v) then v else text now
]

abbrev pub claimed : Draft → String → Draft
claimed draft now =
    insert "execution_started_at" (started_at draft now) (insert "status" (text "executing") draft)

unfoldable pub try_claim_execution : String → String → Store → Bool × Store
unfolding status_of
try_claim_execution now draft_id store = elim (lookup draft_id store.drafts) [
  | none ↦ (false, store)
  | some draft ↦
      if can_execute (status_of draft)
      then (true, put_draft draft_id (claimed draft now) store)
      else (false, store)
]

unfoldable pub try_claim_pickup : String → Store → Bool × Store
try_claim_pickup draft_id store = elim (lookup draft_id store.drafts) [
  | none ↦ (false, store)
  | some draft ↦
      if truthy (lookup "pickup_ordered" draft)
      then (false, store)
      else (true, put_draft draft_id (insert "pickup_ordered" (flag true) draft) store)
]

unfoldable pub delete_draft : String → Store → Store
delete_draft draft_id store = record store { drafts = without draft_id store.drafts }

-- `is_same_order` inside `_local_duplicate_ids`
unfoldable pub is_same_order : Draft → Draft → Bool
is_same_order record_ existing =
    (truthy (lookup "source" record_)
      && (truthy (lookup "external_order_id" record_)
          && (same_value (lookup "source" existing) (lookup "source" record_)
              && str_eq (str_at "external_order_id" existing)
                  (str_at "external_order_id" record_))))
    || (truthy (lookup "shopify_order_id" record_)
        && same_value (lookup "shopify_order_id" existing) (lookup "shopify_order_id" record_))

unfoldable pub supersedes : String → Draft → String → Draft → Bool
unfolding is_same_order
supersedes record_id record_ existing_id existing =
    not (str_eq existing_id record_id)
    && (not (truthy (lookup "is_replacement" existing)) && is_same_order record_ existing)

unfoldable pub duplicate_ids : String → Draft → Dict Draft → List String
unfolding supersedes
duplicate_ids record_id record_ [] = []
duplicate_ids record_id record_ ((existing_id, existing) ∷ drafts) =
    let rest = duplicate_ids record_id record_ drafts in
    if supersedes record_id record_ existing_id existing then existing_id ∷ rest else rest

unfoldable pub local_duplicate_ids : String → Draft → Dict Draft → List String
unfolding duplicate_ids
local_duplicate_ids record_id record_ drafts =
    if truthy (lookup "is_replacement" record_) then [] else duplicate_ids record_id record_ drafts

-- `for existing_id in …: del data[existing_id]`
unfoldable pub without_all : List String → Dict Draft → Dict Draft
without_all [] drafts = drafts
without_all (i ∷ ids) drafts = without_all ids (without i drafts)

unfoldable pub upsert_draft : String → Draft → Store → Store
unfolding local_duplicate_ids without_all
upsert_draft record_id record_ store = record store {
  drafts =
      insert record_id record_
        (without_all (local_duplicate_ids record_id record_ store.drafts) store.drafts);
}

-- the candidates of `find_drafts_by_external_id`, replacements left out
unfoldable pub find_drafts_by_external_id : String → String → Dict Draft → List Draft
find_drafts_by_external_id source external_order_id [] = []
find_drafts_by_external_id source external_order_id ((i, draft) ∷ drafts) =
    let rest = find_drafts_by_external_id source external_order_id drafts in
    if str_eq source "" || str_eq external_order_id ""
    then []
    else if same_value (lookup "source" draft) (some (text source))
        && (str_eq (str_at "external_order_id" draft) external_order_id
            && not (truthy (lookup "is_replacement" draft)))
    then draft ∷ rest
    else rest

-- `record.get("status") != "error"`
abbrev pub is_errored : Draft → Bool
is_errored draft = same_value (lookup "status" draft) (some (text "error"))

unfoldable pub first_healthy : List Draft → Option Draft
first_healthy [] = none
first_healthy (draft ∷ drafts) =
    let rest = first_healthy drafts in if is_errored draft then rest else some draft

unfoldable pub preferred : List Draft → Option Draft
unfolding first_healthy
preferred [] = none
preferred (draft ∷ drafts) = elim (first_healthy (draft ∷ drafts)) [
  | some healthy ↦ some healthy
  | none ↦ some draft
]

unfoldable pub find_draft_by_external_id : String → String → Store → Option Draft
unfolding find_drafts_by_external_id preferred
find_draft_by_external_id source external_order_id store =
    preferred (find_drafts_by_external_id source external_order_id store.drafts)

-- The arguments of `enqueue_dlq`; `fresh_id` is the uuid that a call without `entry_id` draws.
pub record DlqRequest : Type 0 where
  pub payload : Draft
  pub error : String
  pub source : String
  pub entry_id : Option String
  pub kind : String
  pub draft_id : Option String

abbrev pub entry_key : DlqRequest → String → String
entry_key request fresh_id = elim request.entry_id [
  | none ↦ fresh_id
  | some i ↦ if str_eq i "" then fresh_id else i
]

abbrev pub new_entry : String → String → DlqRequest → DlqEntry
new_entry now eid request = record {
  id = eid;
  created_at = now;
  updated_at = now;
  source = request.source;
  payload = request.payload;
  last_error = request.error;
  retries = 0;
  kind = request.kind;
  draft_id = request.draft_id;
}

abbrev pub retried_entry : String → DlqRequest → DlqEntry → DlqEntry
retried_entry now request existing = record existing {
  last_error = request.error;
  retries = existing.retries + 1;
  updated_at = now;
}

abbrev pub entry_for : String → String → DlqRequest → Option DlqEntry → DlqEntry
entry_for now eid request none = new_entry now eid request
entry_for now eid request (some existing) = retried_entry now request existing

unfoldable pub enqueue_dlq : String → String → DlqRequest → Store → DlqEntry × Store
enqueue_dlq now fresh_id request store =
    let eid = entry_key request fresh_id in
    let entry = entry_for now eid request (lookup eid store.dlq) in
    (entry, record store { dlq = insert eid entry store.dlq })

unfoldable pub get_dlq_entry : String → Store → Option DlqEntry
get_dlq_entry entry_id store = lookup entry_id store.dlq

unfoldable pub delete_dlq_entry : String → Store → Store
delete_dlq_entry entry_id store = record store { dlq = without entry_id store.dlq }
