-- ===== src/Shipping/Execution/Local.antt =====
-- The repository that shipping_store.py's local backend gives `execute_draft`, and effects that leave
-- a trace. Which effect calls raise is a parameter, and so is which calls of the store do: a store call
-- that raises has changed nothing, since the source writes the file anew and then puts it in place.
use zdrovena_reconciliation.Prelude.{String, Option, none, some, List, [], ◌∷◌, ◌++◌}
use zdrovena_reconciliation.Prelude.Result.{ok, err}
use zdrovena_reconciliation.Shipping.Draft.{Value, Draft}
use zdrovena_reconciliation.Shipping.Store.{
  Store, DlqRequest, get_draft, update_draft, try_claim_execution, enqueue_dlq,
}
use zdrovena_reconciliation.Shipping.Ports.{Exc, Action, Event, Repository, Effects}

pub data Effect : Type 0 where
  recorded : Event → Effect
  emitted : String → Option Value → Option Value → Option Value → Option Value → Effect
  pushed : Draft → Effect
  logged : String → Effect

pub record World : Type 0 where
  pub store : Store
  pub trace : List Effect

abbrev pub with_store : World → Store → World
with_store w s = record w { store = s }

-- a call of the repository
pub data StoreCall : Type 0 where
  reads claims : String → StoreCall
  updates : String → Draft → StoreCall
  enqueues : DlqRequest → StoreCall

-- what the file system makes of a store call: `some e` where the call raises
abbrev pub Storage : Type 0
Storage = StoreCall → World → Option Exc

-- a store call's outcome, given whether it raises
abbrev pub stored : {A : Type 0} → Option Exc → A × Store → Action World A
stored none (a, s) w = (ok a, with_store w s)
stored (some e) outcome w = (err e, w)

-- at one time of the clock, with one fresh uuid
abbrev pub local_repository : String → String → Storage → Repository World
local_repository now uuid storage = record {
  get_draft = λ i w. stored (storage (reads i) w) (get_draft i w.store, w.store) w;
  try_claim_execution = λ i w. stored (storage (claims i) w) (try_claim_execution now i w.store) w;
  update_draft =
      λ i fields w. stored (storage (updates i fields) w) (update_draft i fields w.store) w;
  enqueue_dlq =
      λ request w. stored (storage (enqueues request) w) (enqueue_dlq now uuid request w.store) w;
}

module _ (faults : Effect → Option Exc) where
  abbrev pub perform : Effect → Action World (Unit {0})
  perform effect w = (
    elim (faults effect) [ none ↦ ok tt | some e ↦ err e ],
    record w { trace = w.trace ++ effect ∷ [] },
  )

  abbrev pub local_effects : Effects World
  local_effects = record {
    record_event = λ e. perform (recorded e);
    emit_tracking_assigned = λ i n o t c. perform (emitted i n o t c);
    push_tracking = λ d. perform (pushed d);
    log_exception = λ m w. record w { trace = w.trace ++ logged m ∷ [] };
  }
