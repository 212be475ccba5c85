-- ===== src/Webhooks.antt =====
-- zdrovena/common/shopify_dedup_store.py, the local backend: which webhook deliveries were seen. Each call
-- holds the file lock, so it is one step on the stored file. Times are in microseconds.
pub mod Claims
use zdrovena_reconciliation.Prelude.{
  ℕ, ◌+◌, String, Bool, true, false, not, Option, none, some, List, [], ◌∷◌, leb, str_eq,
  if◌then◌else◌,
}
use zdrovena_reconciliation.Prelude.Result.{Result, ok, err}
use zdrovena_reconciliation.Prelude.Dict.{Dict, lookup, insert, without}
use zdrovena_reconciliation.Sending.{Timestamp, instant, unreadable}

-- `DedupStoreError`
pub data DedupStoreError : Type 0 where
  store_failed : DedupStoreError

-- the JSON file: one that does not load, or its entries
pub data Stored : Type 0 where
  corrupt : Stored
  entries : Dict Timestamp → Stored

-- `_TTL_SECONDS`
abbrev pub ttl : ℕ
ttl = 86400000000

-- `(now - seen).total_seconds() >= _TTL_SECONDS`
unfoldable pub is_expired : Timestamp → ℕ → Bool
is_expired (unreadable s) now = true
is_expired (instant t) now = leb (t + ttl) now

-- the entries that have not expired
unfoldable pub pruned : ℕ → Dict Timestamp → Dict Timestamp
unfolding is_expired
pruned now [] = []
pruned now ((k, seen_at) ∷ seen) =
    let rest = pruned now seen in if is_expired seen_at now then rest else (k, seen_at) ∷ rest

-- writing a temporary file and renaming it: all of it, or an `OSError`
abbrev save : {A : Type 0} → Bool → A → Dict Timestamp → Stored → Result DedupStoreError A × Stored
save saves a seen before = if saves then (ok a, entries seen) else (err store_failed, before)

abbrev is_live : ℕ → Option Timestamp → Bool
is_live now none = false
is_live now (some seen_at) = not (is_expired seen_at now)

-- `saves` says whether this call's write to the disk succeeds
unfoldable pub mark_seen_if_new : Bool → ℕ → String → Stored → Result DedupStoreError Bool × Stored
unfolding is_expired pruned
mark_seen_if_new saves now webhook_id corrupt =
    if str_eq webhook_id "" then (ok false, corrupt) else (err store_failed, corrupt)
mark_seen_if_new saves now webhook_id (entries seen) =
    if str_eq webhook_id ""
    then (ok false, entries seen)
    else if is_live now (lookup webhook_id seen)
    then (ok false, entries seen)
    else save saves true (insert webhook_id (instant now) (pruned now seen)) (entries seen)

unfoldable pub mark_seen : Bool → ℕ → String → Stored → Result DedupStoreError (Unit {0}) × Stored
unfolding pruned
mark_seen saves now webhook_id corrupt =
    if str_eq webhook_id "" then (ok tt, corrupt) else (err store_failed, corrupt)
mark_seen saves now webhook_id (entries seen) =
    if str_eq webhook_id ""
    then (ok tt, entries seen)
    else save saves tt (insert webhook_id (instant now) (pruned now seen)) (entries seen)

-- the entry is deleted when it has expired
abbrev duplicate_at :
    Bool → ℕ → String → Dict Timestamp → Option Timestamp → Result DedupStoreError Bool × Stored
duplicate_at saves now webhook_id seen none = (ok false, entries seen)
duplicate_at saves now webhook_id seen (some seen_at) =
    if is_expired seen_at now
    then save saves false (without webhook_id seen) (entries seen)
    else (ok true, entries seen)

unfoldable pub is_duplicate : Bool → ℕ → String → Stored → Result DedupStoreError Bool × Stored
unfolding is_expired
is_duplicate saves now webhook_id corrupt =
    if str_eq webhook_id "" then (ok false, corrupt) else (err store_failed, corrupt)
is_duplicate saves now webhook_id (entries seen) =
    if str_eq webhook_id ""
    then (ok false, entries seen)
    else duplicate_at saves now webhook_id seen (lookup webhook_id seen)
