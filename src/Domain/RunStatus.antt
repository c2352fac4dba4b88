-- ===== src/Domain/RunStatus.antt =====
-- src/model_forge/domain/runs.py: the states of a run and the transitions between them.
pub mod History
pub mod Transitions
pub mod Reading
use model_forge.Prelude.{
  Bool, String, List, [], ◌∷◌, any, ◌==◌, Option, some, none, Result, require, if◌then◌else◌,
}

pub data RunStatus : Type 0 where
  created preparing prepared running cancellation_requested cancelled submitted : RunStatus
  validating promoting published failed rejected conflicted : RunStatus
  correction_authorized correcting correction_exhausted : RunStatus

-- `RunStatus.value`
unfoldable pub value : RunStatus → String
value created = "created"
value preparing = "preparing"
value prepared = "prepared"
value running = "running"
value cancellation_requested = "cancellation_requested"
value cancelled = "cancelled"
value submitted = "submitted"
value validating = "validating"
value promoting = "promoting"
value published = "published"
value failed = "failed"
value rejected = "rejected"
value conflicted = "conflicted"
value correction_authorized = "correction_authorized"
value correcting = "correcting"
value correction_exhausted = "correction_exhausted"

-- `RunStatus(text)`; `none` is Python's `ValueError`.
unfoldable pub of_value : String → Option RunStatus
of_value text =
    if text == "created"
    then some created
    else if text == "preparing"
    then some preparing
    else if text == "prepared"
    then some prepared
    else if text == "running"
    then some running
    else if text == "cancellation_requested"
    then some cancellation_requested
    else if text == "cancelled"
    then some cancelled
    else if text == "submitted"
    then some submitted
    else if text == "validating"
    then some validating
    else if text == "promoting"
    then some promoting
    else if text == "published"
    then some published
    else if text == "failed"
    then some failed
    else if text == "rejected"
    then some rejected
    else if text == "conflicted"
    then some conflicted
    else if text == "correction_authorized"
    then some correction_authorized
    else if text == "correcting"
    then some correcting
    else if text == "correction_exhausted"
    then some correction_exhausted
    else none

-- A member of a `StrEnum` equals another as its text does.
unfoldable pub status_eq : RunStatus → RunStatus → Bool
unfolding value
status_eq a b = value a == value b

unfoldable pub contains : List RunStatus → RunStatus → Bool
unfolding status_eq
contains statuses s = any (λ t. status_eq t s) statuses

-- `TERMINAL_RUN_STATUSES`
abbrev pub terminal_run_statuses : List RunStatus
terminal_run_statuses =
    cancelled ∷ published ∷ failed ∷ rejected ∷ conflicted ∷ correction_exhausted ∷ []

-- `RunRecord.terminal`
unfoldable pub terminal : RunStatus → Bool
unfolding contains
terminal s = contains terminal_run_statuses s

-- `_TRANSITIONS`
unfoldable pub transitions : RunStatus → List RunStatus
transitions created = preparing ∷ cancellation_requested ∷ failed ∷ []
transitions preparing = prepared ∷ cancellation_requested ∷ conflicted ∷ failed ∷ []
transitions prepared = running ∷ cancellation_requested ∷ failed ∷ []
transitions running = submitted ∷ cancellation_requested ∷ failed ∷ []
transitions cancellation_requested = cancelled ∷ []
transitions submitted = validating ∷ rejected ∷ failed ∷ []
transitions validating = promoting ∷ rejected ∷ conflicted ∷ failed ∷ []
transitions promoting = published ∷ conflicted ∷ failed ∷ []
transitions failed = correction_authorized ∷ []
transitions rejected = correction_authorized ∷ []
transitions correction_authorized = correcting ∷ correction_exhausted ∷ []
transitions correcting = submitted ∷ correction_exhausted ∷ running ∷ []
transitions cancelled = []
transitions published = []
transitions conflicted = []
transitions correction_exhausted = []

unfoldable pub require_transition : RunStatus → RunStatus → Result (Unit {0})
unfolding transitions contains
require_transition current target =
    require (contains (transitions current) target) "run.invalid_transition"
