-- ===== src/Orchestration/Protocol.antt =====
-- src/model_forge/orchestration/protocol.py: outcomes, results and the checks of their constructors.
use model_forge.Prelude.{
  ℕ, String, ◌==◌, Bool, true, false, not, ◌&&◌, ◌||◌, Option, none, some, List, [], ◌∷◌, leb,
  nat_eq, length, any, Result, ok, bind, require, refuse,
}
use model_forge.Storage.Text.{is_nonblank}

pub data StageStatus : Type 0 where
  succeeded failed cancelled : StageStatus

pub data SubmissionStatus : Type 0 where
  submitted cancelled : SubmissionStatus

pub data OrchestrationStatus : Type 0 where
  submitted failed cancelled : OrchestrationStatus

-- `PhaseContractIdentity`
pub record PhaseContractIdentity : Type 0 where
  pub phase_id : String
  pub contract_version : String
  pub phase_contract_sha256 : String

-- `OrchestrationBinding`; identifiers, versions and digests are the texts that they hold.
pub record OrchestrationBinding : Type 0 where
  pub protocol_version : String
  pub adapter_id : String
  pub adapter_version : String
  pub workflow_id : String
  pub workflow_version : String
  pub workflow_sha256 : String
  pub phase_contract : PhaseContractIdentity
  pub retry_policy : String

-- The fields of `ResolvedStage` that orchestration reads; a role step is the name of its role.
pub record ResolvedStage : Type 0 where
  pub sequence : ℕ
  pub stage_id : String
  pub role_steps : List String

pub record StageOutcome : Type 0 where
  pub sequence : ℕ
  pub stage_id : String
  pub status : StageStatus
  pub invocation_closure_ids : List String
  pub failure_code : Option String
  pub reconciled : Bool

pub record SubmissionReference : Type 0 where
  pub submission_id : String
  pub submission_sha256 : String

pub record SubmissionOutcome : Type 0 where
  pub status : SubmissionStatus
  pub reference : Option SubmissionReference

pub record OrchestrationResult : Type 0 where
  pub run_id : String
  pub manifest_sha256 : String
  pub binding : OrchestrationBinding
  pub status : OrchestrationStatus
  pub stage_outcomes : List StageOutcome
  pub submission : Option SubmissionReference

-- `len(set(values)) != len(values)`
unfoldable pub has_duplicate : List String → Bool
has_duplicate [] = false
has_duplicate (x ∷ xs) = any (λ y. y == x) xs || has_duplicate xs

-- `not failure_code.strip()` for a code that is there.
abbrev blank_code : Option String → Bool
blank_code none = true
blank_code (some code) = not (is_nonblank code)

abbrev is_some : {A : Type 0} → Option A → Bool
is_some none = false
is_some (some a) = true

-- The last two checks of `StageOutcome.__post_init__`.
unfoldable pub check_status : StageStatus → StageOutcome → Result (Unit {0})
check_status succeeded o =
    bind (refuse (nat_eq (length o.invocation_closure_ids) 0) "orchestration.invalid_stage_outcome")
      (λ _. refuse (is_some o.failure_code) "orchestration.invalid_stage_outcome")
check_status StageStatus.failed o =
    refuse (blank_code o.failure_code) "orchestration.invalid_stage_outcome"
check_status StageStatus.cancelled o =
    refuse (is_some o.failure_code) "orchestration.invalid_stage_outcome"

-- `StageOutcome.__post_init__`
unfoldable pub stage_outcome : StageOutcome → Result StageOutcome
stage_outcome o = bind (require (leb 1 o.sequence) "orchestration.invalid_stage_outcome") λ _.
    bind (refuse (has_duplicate o.invocation_closure_ids) "orchestration.invalid_stage_outcome")
      λ _. bind (check_status o.status o) λ _. ok o

-- `SubmissionOutcome.__post_init__`, by status and reference.
check_reference : SubmissionStatus → Option SubmissionReference → Result (Unit {0})
check_reference SubmissionStatus.submitted reference =
    require (is_some reference) "orchestration.invalid_submission_outcome"
check_reference SubmissionStatus.cancelled reference =
    refuse (is_some reference) "orchestration.invalid_submission_outcome"

unfoldable pub submission_outcome : SubmissionOutcome → Result SubmissionOutcome
unfolding check_reference
submission_outcome o = bind (check_reference o.status o.reference) (λ _. ok o)

abbrev pub is_succeeded : StageStatus → Bool
is_succeeded succeeded = true
is_succeeded _ = false

abbrev pub is_failed : StageStatus → Bool
is_failed StageStatus.failed = true
is_failed _ = false

-- `outcomes[-1].status is StageStatus.FAILED`, false for no outcomes.
unfoldable pub ends_failed : List StageOutcome → Bool
ends_failed [] = false
ends_failed (o ∷ []) = is_failed o.status
ends_failed (o ∷ p ∷ rest) = ends_failed (p ∷ rest)

-- `OrchestrationResult.__post_init__`, by status.
unfoldable pub check_result :
    OrchestrationStatus → List StageOutcome → Option SubmissionReference → Result (Unit {0})
check_result OrchestrationStatus.submitted outcomes submission =
    bind (require (is_some submission) "orchestration.invalid_result")
      λ _. refuse (any (λ o. not (is_succeeded o.status)) outcomes) "orchestration.invalid_result"
check_result OrchestrationStatus.failed outcomes submission =
    bind (refuse (is_some submission) "orchestration.invalid_result")
      λ _. require (ends_failed outcomes) "orchestration.invalid_result"
check_result OrchestrationStatus.cancelled outcomes submission =
    refuse (is_some submission) "orchestration.invalid_result"

unfoldable pub orchestration_result : OrchestrationResult → Result OrchestrationResult
orchestration_result r = bind (check_result r.status r.stage_outcomes r.submission) (λ _. ok r)

-- The closures of a stage that succeeded, one for each role step.
abbrev closures_match : StageStatus → ResolvedStage → StageOutcome → Bool
closures_match succeeded stage outcome =
    nat_eq (length outcome.invocation_closure_ids) (length stage.role_steps)
closures_match _ stage outcome = true

unfoldable pub require_stage_outcome_matches : ResolvedStage → StageOutcome → Result (Unit {0})
require_stage_outcome_matches stage outcome =
    bind
      (require (nat_eq outcome.sequence stage.sequence && outcome.stage_id == stage.stage_id)
        "orchestration.stage_outcome_mismatch")
      λ _.
        require (closures_match outcome.status stage outcome) "orchestration.stage_outcome_mismatch"
