-- ===== src/Shipping/State.antt =====
-- zdrovena/common/shipping_state.py: the lifecycle of a shipping draft. The status texts are a data
-- type; `unlisted` stands for any text that the module does not name.
pub mod Lifecycle
use zdrovena_reconciliation.Prelude.{
  String, Bool, true, false, ◌||◌, Option, none, some, List, [], ◌∷◌, str_eq,
}

pub data Status : Type 0 where
  pending needs_review pending_confirmation executing created error cancelled : Status
  unlisted : String → Status

-- equality of status texts
unfoldable pub same : Status → Status → Bool
same pending pending = true
same needs_review needs_review = true
same pending_confirmation pending_confirmation = true
same executing executing = true
same created created = true
same error error = true
same cancelled cancelled = true
same (unlisted s) (unlisted t) = str_eq s t
same _ _ = false

-- `status in {...}`
unfoldable pub member : Status → List Status → Bool
unfolding same
member s [] = false
member s (x ∷ xs) = same s x || member s xs

abbrev pub executable_states : List Status
executable_states = pending ∷ pending_confirmation ∷ error ∷ []

-- `ALLOWED_TRANSITIONS.get(src, frozenset())`
abbrev pub allowed_transitions : Status → List Status
allowed_transitions pending = executing ∷ needs_review ∷ cancelled ∷ []
allowed_transitions needs_review = pending ∷ cancelled ∷ []
allowed_transitions pending_confirmation = executing ∷ cancelled ∷ []
allowed_transitions executing = created ∷ error ∷ []
allowed_transitions created = cancelled ∷ []
allowed_transitions error = executing ∷ cancelled ∷ []
allowed_transitions cancelled = []
allowed_transitions (unlisted s) = []

unfoldable pub can_execute : Option Status → Bool
unfolding member
can_execute none = false
can_execute (some status) = member status executable_states

unfoldable pub can_transition : Option Status → Status → Bool
unfolding member
can_transition none dst = false
can_transition (some src) dst = member dst (allowed_transitions src)
