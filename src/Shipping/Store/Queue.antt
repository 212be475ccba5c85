-- ===== src/Shipping/Store/Queue.antt =====
-- The dead-letter queue: an entry is one failed operation, and a failed retry updates it in place.
use zdrovena_reconciliation.Prelude.{◌+◌, ◌≡◌, refl, String, false, some, str_eq}
use zdrovena_reconciliation.Prelude.Dict.{lookup-insert_self}
use zdrovena_reconciliation.Shipping.Store.{
  Store, DlqRequest, entry_key, enqueue_dlq, get_dlq_entry,
}

-- A second failure recorded under the id that the first returned keeps one entry: it still holds the
-- first payload, kind and draft, has the new error, and counts one retry more.
pub enqueue_dlq_again :
    (now now' u u' error' : String) (request : DlqRequest) (store : Store)
    → let (entry, store') = enqueue_dlq now u request store in
      let again : DlqRequest = record request {
        entry_id = some (entry_key request u);
        error = error';
      } in
      let (entry', store'') = enqueue_dlq now' u' again store' in
      str_eq (entry_key request u) "" ≡ false
      → (get_dlq_entry (entry_key request u) store'' ≡ some entry')
        × (entry'.retries ≡ entry.retries + 1)
        × (entry'.last_error ≡ error')
        × (entry'.payload ≡ entry.payload)
        × (entry'.kind ≡ entry.kind)
        × (entry'.draft_id ≡ entry.draft_id)
unfolding enqueue_dlq get_dlq_entry
enqueue_dlq_again now now' u u' error' request store named =
    simp (named, lookup-insert_self) (refl, refl, refl, refl, refl, refl)
