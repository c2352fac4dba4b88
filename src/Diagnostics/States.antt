-- ===== src/Diagnostics/States.antt =====
-- The states of a diagnostic invocation in src/model_forge/diagnostics/contracts.py.
pub mod Termination
use model_forge.Prelude.{String, ◌==◌, Bool, true, false, List, [], ◌∷◌, Option, find?, any}

pub data DiagnosticState : Type 0 where
  pending preflight creating launch_acknowledged running closing : DiagnosticState
  cancel_requested timeout_requested terminating : DiagnosticState
  succeeded failed cancelled timed_out unresolved : DiagnosticState

-- `DiagnosticState.value`
unfoldable pub state_value : DiagnosticState → String
state_value DiagnosticState.pending = "pending"
state_value DiagnosticState.preflight = "preflight"
state_value DiagnosticState.creating = "creating"
state_value DiagnosticState.launch_acknowledged = "launch_acknowledged"
state_value DiagnosticState.running = "running"
state_value DiagnosticState.closing = "closing"
state_value DiagnosticState.cancel_requested = "cancel_requested"
state_value DiagnosticState.timeout_requested = "timeout_requested"
state_value DiagnosticState.terminating = "terminating"
state_value DiagnosticState.succeeded = "succeeded"
state_value DiagnosticState.failed = "failed"
state_value DiagnosticState.cancelled = "cancelled"
state_value DiagnosticState.timed_out = "timed_out"
state_value DiagnosticState.unresolved = "unresolved"

abbrev pub diagnostic_states : List DiagnosticState
diagnostic_states =
    DiagnosticState.pending ∷ DiagnosticState.preflight ∷ DiagnosticState.creating
    ∷ DiagnosticState.launch_acknowledged ∷ DiagnosticState.running ∷ DiagnosticState.closing
    ∷ DiagnosticState.cancel_requested ∷ DiagnosticState.timeout_requested
    ∷ DiagnosticState.terminating ∷ DiagnosticState.succeeded ∷ DiagnosticState.failed
    ∷ DiagnosticState.cancelled ∷ DiagnosticState.timed_out ∷ DiagnosticState.unresolved ∷ []

-- The state with a text as its value, for `status in DIAGNOSTIC_STATES`.
unfoldable pub state_of : String → Option DiagnosticState
unfolding state_value
state_of text = find? (λ state. state_value state == text) diagnostic_states

-- Members of the enumeration are equal when their values are.
unfoldable pub same_state : DiagnosticState → DiagnosticState → Bool
unfolding state_value
same_state a b = state_value a == state_value b

-- `TERMINAL_DIAGNOSTIC_STATES`
unfoldable pub is_terminal : DiagnosticState → Bool
is_terminal DiagnosticState.succeeded = true
is_terminal DiagnosticState.failed = true
is_terminal DiagnosticState.cancelled = true
is_terminal DiagnosticState.timed_out = true
is_terminal DiagnosticState.unresolved = true
is_terminal _ = false

-- `ALLOWED_TRANSITIONS`
unfoldable pub allowed_transitions : DiagnosticState → List DiagnosticState
allowed_transitions DiagnosticState.pending =
    DiagnosticState.preflight ∷ DiagnosticState.cancel_requested ∷ DiagnosticState.failed ∷ []
allowed_transitions DiagnosticState.preflight =
    DiagnosticState.creating ∷ DiagnosticState.cancel_requested ∷ DiagnosticState.failed ∷ []
allowed_transitions DiagnosticState.creating =
    DiagnosticState.launch_acknowledged ∷ DiagnosticState.cancel_requested
    ∷ DiagnosticState.terminating ∷ DiagnosticState.failed ∷ []
allowed_transitions DiagnosticState.launch_acknowledged =
    DiagnosticState.running ∷ DiagnosticState.cancel_requested ∷ DiagnosticState.terminating
    ∷ DiagnosticState.failed ∷ []
allowed_transitions DiagnosticState.running =
    DiagnosticState.closing ∷ DiagnosticState.cancel_requested ∷ DiagnosticState.timeout_requested
    ∷ DiagnosticState.terminating ∷ DiagnosticState.failed ∷ []
allowed_transitions DiagnosticState.closing =
    DiagnosticState.succeeded ∷ DiagnosticState.failed ∷ []
allowed_transitions DiagnosticState.cancel_requested = DiagnosticState.cancelled ∷ []
allowed_transitions DiagnosticState.timeout_requested = DiagnosticState.terminating ∷ []
allowed_transitions DiagnosticState.terminating =
    DiagnosticState.cancelled ∷ DiagnosticState.timed_out ∷ DiagnosticState.failed
    ∷ DiagnosticState.unresolved ∷ []
allowed_transitions _ = []

unfoldable pub is_valid_transition : DiagnosticState → DiagnosticState → Bool
unfolding is_terminal allowed_transitions same_state
is_valid_transition from_state to_state = elim (is_terminal from_state) [
  | true ↦ false
  | false ↦ any (λ state. same_state state to_state) (allowed_transitions from_state)
]
