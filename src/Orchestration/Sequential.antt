-- ===== src/Orchestration/Sequential.antt =====
-- src/model_forge/orchestration/sequential.py: the adapter that runs the stages of a plan in order.
pub mod Runs
pub mod Order
pub mod Progress
use model_forge.Prelude.{
  ℕ, String, ◌==◌, Bool, true, false, not, ◌&&◌, Option, none, some, List, [], ◌∷◌, ◌++◌, map, ltb,
  nat_eq, length, Result, require, refuse, if◌then◌else◌,
}
use model_forge.Storage.Database.{Tx, lift, ◌>>=◌}
use model_forge.Orchestration.Protocol.{
  StageStatus, SubmissionStatus, OrchestrationStatus, PhaseContractIdentity, OrchestrationBinding,
  ResolvedStage, StageOutcome, SubmissionReference, SubmissionOutcome, OrchestrationResult,
  orchestration_result, require_stage_outcome_matches,
}

-- `OrchestrationServices`: calls that read and change a state `W` of which the adapter knows nothing.
pub record Services (W : Type 0) : Type 0 where
  pub cancellation_requested : (run_id manifest_sha256 : String) → Tx W Bool
  pub execute_or_reconcile_stage :
      (run_id manifest_sha256 : String) → ResolvedStage → Tx W StageOutcome
  pub submit_or_reconcile :
      (run_id manifest_sha256 : String) → List StageOutcome → Tx W SubmissionOutcome

-- The fields of `ResolvedPhasePlan` that the adapter reads.
pub record ResolvedPhasePlan : Type 0 where
  pub identity : PhaseContractIdentity
  pub stages : List ResolvedStage

-- `ContractSequentialOrchestrator`: the identity that it is built with.
pub record ContractSequentialOrchestrator : Type 0 where
  pub protocol_version : String
  pub adapter_id : String
  pub adapter_version : String
  pub workflow_id : String
  pub workflow_version : String
  pub workflow_sha256 : String

-- `ContractSequentialOrchestrator(workflow_sha256)`: the class attributes and the digest, which is
-- taken as an argument, also where it is the SHA-256 of the workflow definition.
abbrev pub contract_sequential_orchestrator : String → ContractSequentialOrchestrator
contract_sequential_orchestrator workflow_sha256 = record {
  protocol_version = "1.0.0";
  adapter_id = "orchestrator.contract_sequential";
  adapter_version = "1.0.0";
  workflow_id = "workflow.contract_stage_sequence";
  workflow_version = "1.0.0";
  workflow_sha256 = workflow_sha256;
}

abbrev pub no_scientific_role_retry : String
no_scientific_role_retry = "no_scientific_role_retry"

unfoldable pub binding_for :
    ContractSequentialOrchestrator → PhaseContractIdentity → OrchestrationBinding
binding_for a identity = record {
  protocol_version = a.protocol_version;
  adapter_id = a.adapter_id;
  adapter_version = a.adapter_version;
  workflow_id = a.workflow_id;
  workflow_version = a.workflow_version;
  workflow_sha256 = a.workflow_sha256;
  phase_contract = identity;
  retry_policy = no_scientific_role_retry;
}

unfoldable pub supports : ContractSequentialOrchestrator → OrchestrationBinding → Bool
supports a b =
    b.protocol_version == a.protocol_version
    && b.adapter_id == a.adapter_id
    && b.adapter_version == a.adapter_version
    && b.workflow_id == a.workflow_id
    && b.workflow_version == a.workflow_version
    && b.workflow_sha256 == a.workflow_sha256
    && b.retry_policy == no_scientific_role_retry

-- `==` of two `PhaseContractIdentity`.
abbrev pub identity_eq : PhaseContractIdentity → PhaseContractIdentity → Bool
identity_eq p q =
    p.phase_id == q.phase_id
    && p.contract_version == q.contract_version
    && p.phase_contract_sha256 == q.phase_contract_sha256

-- `sorted(set(values))`, one insertion for each value.
abbrev pub insert_value : ℕ → List ℕ → List ℕ
insert_value n [] = n ∷ []
insert_value n (m ∷ ms) =
    let rest = insert_value n ms in
    if ltb n m then n ∷ m ∷ ms else if nat_eq n m then m ∷ ms else m ∷ rest

abbrev pub sorted_set : List ℕ → List ℕ
sorted_set [] = []
sorted_set (n ∷ ns) = insert_value n (sorted_set ns)

-- `==` of two tuples of numbers.
abbrev pub values_eq : List ℕ → List ℕ → Bool
values_eq [] [] = true
values_eq (n ∷ ns) (m ∷ ms) = nat_eq n m && values_eq ns ms
values_eq _ _ = false

unfoldable pub is_ordered : List ℕ → Bool
is_ordered ns = not (nat_eq (length ns) 0) && values_eq ns (sorted_set ns)

module _ {W : Type 0} (services : Services W) (run_id manifest_sha256 : String)
    (binding : OrchestrationBinding) where
  -- A result that the adapter builds, with the checks of its constructor.
  unfoldable pub result :
      OrchestrationStatus
      → List StageOutcome
      → Option SubmissionReference
      → Tx W OrchestrationResult
  result status outcomes submission = lift (
      orchestration_result (record {
        run_id = run_id;
        manifest_sha256 = manifest_sha256;
        binding = binding;
        status = status;
        stage_outcomes = outcomes;
        submission = submission;
      }))

  -- What follows the submission service.
  unfoldable pub conclude :
      List StageOutcome → SubmissionStatus → Option SubmissionReference → Tx W OrchestrationResult
  conclude outcomes SubmissionStatus.cancelled reference =
      result OrchestrationStatus.cancelled outcomes none
  conclude outcomes SubmissionStatus.submitted reference =
      result OrchestrationStatus.submitted outcomes reference

  -- What follows the last stage.
  unfoldable pub submit : List StageOutcome → Tx W OrchestrationResult
  submit outcomes = services.cancellation_requested run_id manifest_sha256 >>= λ asked.
      if asked
      then result OrchestrationStatus.cancelled outcomes none
      else (services.submit_or_reconcile run_id manifest_sha256 outcomes >>= λ submission.
          conclude outcomes submission.status submission.reference)

  -- What follows a stage whose outcome is the last of `outcomes`: `more` where it succeeded.
  unfoldable pub after_stage :
      StageStatus → List StageOutcome → Tx W OrchestrationResult → Tx W OrchestrationResult
  after_stage StageStatus.failed outcomes more = result OrchestrationStatus.failed outcomes none
  after_stage StageStatus.cancelled outcomes more =
      result OrchestrationStatus.cancelled outcomes none
  after_stage StageStatus.succeeded outcomes more = more

  -- The loop over the stages that are left, after the outcomes so far.
  unfoldable pub advance : List StageOutcome → List ResolvedStage → Tx W OrchestrationResult
  advance outcomes [] = submit outcomes
  advance outcomes (stage ∷ rest) =
      services.cancellation_requested run_id manifest_sha256 >>= λ asked.
      if asked
      then result OrchestrationStatus.cancelled outcomes none
      else (services.execute_or_reconcile_stage run_id manifest_sha256 stage >>= λ outcome.
          lift (require_stage_outcome_matches stage outcome) >>= λ _.
          after_stage outcome.status (outcomes ++ outcome ∷ [])
            (advance (outcomes ++ outcome ∷ []) rest))

-- `ContractSequentialOrchestrator.execute`, on a run identity and a digest that are valid.
unfoldable pub execute :
    {W : Type 0}
    → ContractSequentialOrchestrator
    → (run_id manifest_sha256 : String) → OrchestrationBinding
    → ResolvedPhasePlan
    → Services W
    → Tx W OrchestrationResult
execute adapter run_id manifest_sha256 binding plan services =
    lift (require (supports adapter binding) "orchestration.binding_not_supported") >>= λ _.
    lift (
      require (identity_eq binding.phase_contract plan.identity)
        "orchestration.phase_contract_mismatch")
    >>= λ _.
        lift (
          require (is_ordered (map (λ stage. stage.sequence) plan.stages))
            "orchestration.invalid_stage_plan")
        >>= λ _. advance services run_id manifest_sha256 binding [] plan.stages
