-- ===== src/Examples/Planning.antt =====
-- The theorems on the sequential adapter, at a plan of two stages and services that let it through.
use text.Mathlib.TextPositions.{eq_refl}
use model_forge.Prelude.{
  any, arith, ℕ, suc, ◌≡◌, ◌↔◌, refl, true, false, none, some, ok, err, if◌then◌else◌, [], ◌∷◌, map,
  List,
}
use model_forge.Storage.Database.{pure}
use model_forge.Orchestration.Protocol.{
  StageStatus, SubmissionStatus, OrchestrationStatus, PhaseContractIdentity, OrchestrationBinding,
  ResolvedStage, StageOutcome, SubmissionReference, OrchestrationResult, check_result,
  orchestration_result, require_stage_outcome_matches,
}
use model_forge.Orchestration.Sequential.{
  contract_sequential_orchestrator, Services, ResolvedPhasePlan, ContractSequentialOrchestrator,
  binding_for, supports, identity_eq, is_ordered, result, conclude, submit, after_stage, advance,
  execute,
}
use model_forge.Orchestration.Registry.{PhaseOrchestrator, has_key, register, register_all, resolve}
use model_forge.Orchestration.Registry.Resolving.{resolve_registered}
use model_forge.Orchestration.Sequential.Order.{IsIncreasing, is_ordered-IsIncreasing}
use model_forge.Orchestration.Sequential.Runs.{ServiceCall, logged, IsRun}
use model_forge.Orchestration.Sequential.Runs.Logged.{execute-IsRun}
use model_forge.Orchestration.Sequential.Progress.{IsWilling, execute-submits}

abbrev adapter : ContractSequentialOrchestrator
adapter = contract_sequential_orchestrator "digest"

abbrev contract : PhaseContractIdentity
contract = record {
  phase_id = "phase-1";
  contract_version = "1.0.0";
  phase_contract_sha256 = "digest";
}

abbrev binding : OrchestrationBinding
binding = binding_for adapter contract

abbrev plan : ResolvedPhasePlan
plan = record {
  identity = contract;
  stages =
      record { sequence = 1; stage_id = "stage-1"; role_steps = "writer" ∷ [] }
      ∷ record { sequence = 2; stage_id = "stage-2"; role_steps = "writer" ∷ "critic" ∷ [] }
      ∷ [];
}

-- One closure for each role step.
abbrev outcome_of : ResolvedStage → StageOutcome
outcome_of stage = record {
  sequence = stage.sequence;
  stage_id = stage.stage_id;
  status = StageStatus.succeeded;
  invocation_closure_ids = stage.role_steps;
  failure_code = none;
  reconciled = false;
}

abbrev reference : SubmissionReference
reference = record { submission_id = "submission-1"; submission_sha256 = "digest" }

-- Services that count the stages they run.
abbrev services : Services ℕ
services = record {
  cancellation_requested = λ run manifest. pure false;
  execute_or_reconcile_stage = λ run manifest stage n. (ok (outcome_of stage), suc n);
  submit_or_reconcile = λ run manifest outcomes.
      pure (record { status = SubmissionStatus.submitted; reference = some reference });
}

matches : (stage : ResolvedStage) → require_stage_outcome_matches stage (outcome_of stage) ≡ ok tt
unfolding require_stage_outcome_matches
matches stage = ground (arith, eq_refl stage.stage_id)

services-IsWilling : IsWilling services
services-IsWilling = record {
  undisturbed = λ run manifest n. refl;
  succeeds = λ run manifest stage n. (outcome_of stage, refl, matches stage, refl);
  accepts = λ run manifest outcomes n. (reference, refl);
}

abbrev completed : OrchestrationResult
completed = record {
  run_id = "run-1";
  manifest_sha256 = "digest";
  binding = binding;
  status = OrchestrationStatus.submitted;
  stage_outcomes = map outcome_of plan.stages;
  submission = some reference;
}

executed :
    (execute adapter "run-1" "digest" binding plan (logged services) (0, [])).0 ≡ ok completed
unfolding binding_for supports is_ordered require_stage_outcome_matches result orchestration_result
    check_result conclude submit after_stage advance execute
executed = refl

execute-IsRun_example :
    (supports adapter binding ≡ true)
    × (identity_eq binding.phase_contract plan.identity ≡ true)
    × (is_ordered (map (λ stage. stage.sequence) plan.stages) ≡ true)
    × (completed.run_id ≡ "run-1")
    × (completed.manifest_sha256 ≡ "digest")
    × (binding ≡ binding)
    × (calls : List ServiceCall) × ((execute adapter "run-1" "digest" binding plan
          (logged services)
          (0, [])).1.1
        ≡ calls)
    × IsRun [] plan.stages calls OrchestrationStatus.submitted completed.stage_outcomes
        (some reference)
execute-IsRun_example =
    execute-IsRun adapter "run-1" "digest" binding plan services (0, []) {r = completed} executed

supported : supports adapter binding ≡ true
unfolding supports binding_for
supported = refl

same_contract : identity_eq binding.phase_contract plan.identity ≡ true
unfolding binding_for
same_contract = refl

execute-submits_example :
    (r : OrchestrationResult) × ((execute adapter "run-1" "digest" binding plan services 0).0
      ≡ ok r)
    × (r.status ≡ OrchestrationStatus.submitted)
execute-submits_example =
    execute-submits adapter "run-1" "digest" binding plan services 0 services-IsWilling supported
      same_contract (omega arith, tt)

is_ordered-IsIncreasing_example :
    (is_ordered (1 ∷ 2 ∷ 2 ∷ []) ≡ true) ↔ IsIncreasing (1 ∷ 2 ∷ 2 ∷ [])
is_ordered-IsIncreasing_example = is_ordered-IsIncreasing (1 ∷ 2 ∷ 2 ∷ [])

abbrev sequential : PhaseOrchestrator
sequential = record {
  adapter_id = adapter.adapter_id;
  adapter_version = adapter.adapter_version;
  supports = supports adapter;
}

abbrev stepwise : PhaseOrchestrator
stepwise = record sequential { adapter_version = "2.0.0" }

registered : register_all (stepwise ∷ sequential ∷ []) [] ≡ ok (sequential ∷ stepwise ∷ [])
unfolding register register_all
registered = refl

same_id : adapter.adapter_id ≡ binding.adapter_id
unfolding binding_for
same_id = refl

same_version : adapter.adapter_version ≡ binding.adapter_version
unfolding binding_for
same_version = refl

resolve_registered_example :
    (resolve binding (sequential ∷ stepwise ∷ []) ≡ (
      if sequential.supports binding
      then ok sequential
      else err "orchestration.binding_not_supported"))
    × (any (has_key adapter.adapter_id adapter.adapter_version) (stepwise ∷ []) ≡ false)
resolve_registered_example =
    resolve_registered (stepwise ∷ []) [] sequential binding {registry = sequential ∷ stepwise ∷ []}
      registered same_id same_version
