-- ===== src/Shipping/State/Lifecycle.antt =====
-- What the transition table of shipping_state.py guarantees about claims.
use zdrovena_reconciliation.Prelude.{◌≡◌, refl, Option, none, some}
use zdrovena_reconciliation.Shipping.State.{Status, pending, executing, can_execute, can_transition}

-- A status may be claimed exactly if the table lets it move to `executing`, so `EXECUTABLE_STATES`
-- and `ALLOWED_TRANSITIONS` agree.
can_execute-eq-can_transition : (s : Option Status) → can_execute s ≡ can_transition s executing
unfolding can_execute can_transition
can_execute-eq-can_transition none = refl
can_execute-eq-can_transition (some pending) = refl
can_execute-eq-can_transition (some _) = refl
