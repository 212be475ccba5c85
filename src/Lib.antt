-- ===== src/Lib.antt =====
-- Zdrovena reconciliation: shipping drafts, parcel plans, cash on delivery, sending once and closing a month.
--
-- The program turns shop orders into drafts of shipments, plans their parcels, splits what is
-- collected on delivery over the parcels, and executes each draft at a courier. Two claims guard
-- what cannot be undone: a draft is executed, and a pickup ordered, by one caller; a message is
-- sent, and a webhook delivery processed, once. An accounting month is closed in steps that an
-- operator starts: the documents are collected, packed, reviewed, and mailed to the accountant.
--
-- Parts and files:
-- Shipping/State: zdrovena/common/shipping_state.py. `Status` is the type of status texts,
--   `can_execute` and `can_transition` keep their names.
-- Shipping/Parcels: zdrovena/common/shipping_parcels.py and zdrovena/shipping/domain/models.py.
-- Shipping/Planning: zdrovena/shipping/domain/planning.py. `calc_packages` goes from an order's
--   lines to rows of boxes, `physical_parcels` from a draft's rows to single parcels. The readers
--   of product names (zdrovena/common/bottles.py) are the interface `ProductNames`.
-- Shipping/Cod: zdrovena/shipping/domain/cod.py. Money (`grosze`), Fractions and Remainder
--   (`_largest_remainder`), Assign (`_assign_half_packs`), Allocation (`_parcel_weights` and
--   `cod_allocation`). Python's decimal texts are a parameter that reads a text as a number.
-- Shipping/Draft and Shipping/Store: zdrovena/common/shipping_store.py, local backend. A draft
--   is a dict of values, the store two dicts; each operation is one step under the file lock. An
--   external order id is compared by its `str()`, of a text or a number.
--   Shipping/Listing has the listings with what they log.
-- Shipping/Ports, Shipping/Patches and Shipping/Execution:
--   zdrovena/shipping/application/execution/workflow.py.
--   Ports has the interfaces (`ExecutionRepository`, `ExecutionEffects`, the runners), Execution
--   the workflow over any of them, Execution/Local the instance with the local store and effects,
--   of which any call may raise: a store call that raises has changed nothing. A provider is the tree of the callbacks that it makes.
-- Shipping/Sync: zdrovena/shipping/application/drafts.py, `merge_synced_draft`: a stored draft meets
--   its order, read again; each part of the merge is the list of the fields that it writes.
-- Shipping/Providers: zdrovena/shipping/providers, and the runs of
--   zdrovena/api/shipping_execution_composition.py that use them. Calls: what the couriers share: the
--   draft's keys, the planned call for a parcel, the loop that makes the calls and stores a checkpoint
--   after each, `shipment_patch`. Inpost: inpost.py and `_run_inpost`. Apaczka: apaczka.py and
--   `_run_apaczka`. Allegro: allegro_delivery.py, `order_allegro_pickup` and
--   `_run_allegro_delivery`, whose commands are created first and answer later. The clients, the
--   callbacks that store a checkpoint, the settings and the address of the sender are arguments;
--   MOCK_COURIER is off. Plans, Keys, Yields and Distinct have the lemmas that InPost and Apaczka
--   share. Site is the world of their safety: what is booked at the courier, and which checkpoints
--   are stored, when any answer may be lost and any write may fail. The executions there follow one
--   another, since a draft is claimed before it is executed.
-- Sending: zdrovena/common/send_attempt.py. Sending/Once lets any sequence of senders, answers
--   and operators act on one stored attempt.
-- MonthClosing: the closing of a month, zdrovena/month_closing.
--   Run: the record of a period's run (run_store.py, `new_close_run`). RunStore: run_store.py, local
--   backend; `get_or_create` and `reset` are each one step, where the source reads under one lock and
--   saves, without an expected revision, under the next. RunStore/Update lets writers act between the
--   read and the write of an `update`; they save with the revision that they read, which the program
--   does not do with the attempt of a send.
--   Gates: the gates and the waivers of workflow.py (`_validate_action`, `waive`, `unwaive`).
--   Package: package_integrity.py, over any digest, archive reader and storage.
--   Outside: what the inspector, the orchestrator's stage, the storage and the mail server do in
--   one call. Reports: `_apply_report`, `_stage_result`, `_apply_known_email_sources`. Stage: the
--   `try` body of `_perform`. Workflow: `_perform` with its `except` branch, and
--   `resolve_email_attempt`. A call reads the clock once, and calls do not overlap there; a
--   process that dies ends a call at any point where something outside is asked.
-- Retry: zdrovena/common/retry.py, over any session, clock and jitter; the loop counts its
--   attempts down.
-- Webhooks: zdrovena/common/shopify_dedup_store.py, local backend, with a file that does not
--   load and writes that fail.
-- Prelude: shared helpers. Tests: runs on small inputs and instances of the theorems.
--
-- Bounds: quantities of an order are below 2^50, where the ceiling of a float is exact; amounts
-- that have more than the 28 digits of the decimal context end in `beyond_precision`, the
-- `decimal.InvalidOperation` that the source does not catch, which the results count as a refusal;
-- times are natural numbers of microseconds or texts. Loops recurse on their lists, and `fill_boxes` on
-- the list of box sizes; `update` of a run counts its retries down, three as in the source.
--
-- Not modelled: the table backends (an Azure service), the couriers' and the shop's HTTP clients,
-- the routers and pollers, the payload previews and the confirmation route of the couriers, of
-- month closing the inspector, the orchestrator's stages, the older
-- pipeline state and the flags that `_decorate` derives, damage cases, the audit tool, the front
-- end.
pub mod MonthClosing
pub mod Prelude
pub mod Retry
pub mod Sending
pub mod Shipping
pub mod Tests
pub mod Webhooks
