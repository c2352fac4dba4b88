-- ===== src/Diagnostics/Store/Statuses.antt =====
-- How the status of an invocation moves over calls of `DiagnosticStore` of
-- src/model_forge/diagnostics/store.py.
pub mod Steps
pub mod Final
use model_forge.Prelude.{String, true, ◌≡◌, ◌⊎◌, some}
use model_forge.Diagnostics.States.{DiagnosticState, is_valid_transition}
use model_forge.Diagnostics.Store.{InvocationRow, Lane, get_invocation}

-- The states that valid transitions lead to.
pub data Reaches : DiagnosticState → DiagnosticState → Type 0 where
  here : {state : DiagnosticState} → Reaches state state
  step :
      {state next last : DiagnosticState}
      → is_valid_transition state next ≡ true
      → Reaches next last
      → Reaches state last

-- A status that is the one before or that a valid transition leads to.
abbrev pub Fits : DiagnosticState → DiagnosticState → Type 0
Fits state status = (status ≡ state) ⊎ (is_valid_transition state status ≡ true)

-- The invocation is there, and its status has a property.
abbrev pub HasStatus : String → (DiagnosticState → Type 0) → Lane → Type 0
HasStatus key Q lane = (row : InvocationRow) × (get_invocation key lane ≡ some row) × Q row.status

abbrev pub Moved : String → DiagnosticState → Lane → Type 0
Moved key state = HasStatus key (Fits state)
