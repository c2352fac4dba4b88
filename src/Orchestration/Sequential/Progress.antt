-- ===== src/Orchestration/Sequential/Progress.antt =====
-- The sequential adapter gets through a plan when its services let it.
use model_forge.Prelude.{
  String, ◌≡◌, refl, Bool, true, false, not, some, List, [], ◌∷◌, ◌++◌, map, any, ok, arith,
}
use model_forge.Storage.Database.{Tx}
use model_forge.Orchestration.Protocol.{
  StageStatus, SubmissionStatus, OrchestrationStatus, OrchestrationBinding, ResolvedStage,
  StageOutcome, SubmissionReference, OrchestrationResult, orchestration_result, check_result,
  is_succeeded, require_stage_outcome_matches,
}
use model_forge.Orchestration.Sequential.{
  supports, identity_eq, Services, ResolvedPhasePlan, ContractSequentialOrchestrator, result,
  conclude, submit, after_stage, advance, execute,
}
use model_forge.Orchestration.Sequential.Order.{IsIncreasing, is_ordered-IsIncreasing}

-- Services that ask for no cancellation, run every stage to a matching success and submit.
pub record IsWilling {W : Type 0} (services : Services W) : Type 0 where
  pub undisturbed :
      (run_id manifest_sha256 : String) (w : W)
      → (services.cancellation_requested run_id manifest_sha256 w).0 ≡ ok false
  pub succeeds :
      (run_id manifest_sha256 : String) (stage : ResolvedStage) (w : W)
      → (outcome : StageOutcome) × ((services.execute_or_reconcile_stage run_id manifest_sha256
            stage w).0
          ≡ ok outcome)
        × (require_stage_outcome_matches stage outcome ≡ ok tt)
        × (outcome.status ≡ StageStatus.succeeded)
  pub accepts :
      (run_id manifest_sha256 : String) (outcomes : List StageOutcome) (w : W)
      → (reference : SubmissionReference) × ((services.submit_or_reconcile run_id manifest_sha256
            outcomes w).0
          ≡ ok (record { status = SubmissionStatus.submitted; reference = some reference }))

any_unsuccessful : List StageOutcome → Bool
any_unsuccessful outcomes = any (λ o. not (is_succeeded o.status)) outcomes

none_unsuccessful : any_unsuccessful [] ≡ false
unfolding any_unsuccessful
none_unsuccessful = refl

all_succeeded-append :
    (done : List StageOutcome) (outcome : StageOutcome)
    → any_unsuccessful done ≡ false
    → outcome.status ≡ StageStatus.succeeded
    → any_unsuccessful (done ++ outcome ∷ []) ≡ false
unfolding any_unsuccessful
all_succeeded-append [] outcome h is = rw is refl
all_succeeded-append (o ∷ done) outcome h is = ground (arith, all_succeeded-append done outcome)

module _ {W : Type 0} (services : Services W) (willing : IsWilling services)
    (run_id manifest_sha256 : String) (binding : OrchestrationBinding) where
  result-submitted :
      (done : List StageOutcome) (reference : SubmissionReference) (w : W)
      → any_unsuccessful done ≡ false
      → (r : OrchestrationResult) × ((result services run_id manifest_sha256 binding
            OrchestrationStatus.submitted done
            (some reference)
            w).0
          ≡ ok r)
        × (r.status ≡ OrchestrationStatus.submitted)
  unfolding result orchestration_result check_result any_unsuccessful
  result-submitted done reference w h =
      let r : OrchestrationResult = record {
        run_id = run_id;
        manifest_sha256 = manifest_sha256;
        binding = binding;
        status = OrchestrationStatus.submitted;
        stage_outcomes = done;
        submission = some reference;
      } in
      (r, rw h refl, refl)

  submit-submitted :
      (done : List StageOutcome) (w : W)
      → any_unsuccessful done ≡ false
      → (r : OrchestrationResult) × ((submit services run_id manifest_sha256 binding done w).0
          ≡ ok r)
        × (r.status ≡ OrchestrationStatus.submitted)
  unfolding submit conclude
  submit-submitted done w h =
      let w1 = (services.cancellation_requested run_id manifest_sha256 w).1 in
      let (reference, accepted) = willing.accepts run_id manifest_sha256 done w1 in
      rw (willing.undisturbed run_id manifest_sha256 w, accepted)
        (result-submitted done reference _ h)

  -- After a stage that succeeded the loop goes on.
  after_stage-submitted :
      (status : StageStatus) (outcomes : List StageOutcome) (more : Tx W OrchestrationResult)
      (w : W)
      → status ≡ StageStatus.succeeded
      → (r : OrchestrationResult) × ((more w).0 ≡ ok r) × (r.status ≡ OrchestrationStatus.submitted)
      → (r : OrchestrationResult) × ((after_stage services run_id manifest_sha256 binding status
            outcomes more w).0
          ≡ ok r)
        × (r.status ≡ OrchestrationStatus.submitted)
  unfolding after_stage
  after_stage-submitted status outcomes more w is h = rw is h

  advance-submitted :
      (done : List StageOutcome) (stages : List ResolvedStage) (w : W)
      → any_unsuccessful done ≡ false
      → (r : OrchestrationResult) × ((advance services run_id manifest_sha256 binding done stages
            w).0
          ≡ ok r)
        × (r.status ≡ OrchestrationStatus.submitted)
  unfolding advance
  advance-submitted done [] w h = submit-submitted done w h
  advance-submitted done (stage ∷ rest) w h =
      let w1 = (services.cancellation_requested run_id manifest_sha256 w).1 in
      let (outcome, ran, met, is) = willing.succeeds run_id manifest_sha256 stage w1 in
      rw (willing.undisturbed run_id manifest_sha256 w, ran, met)
        (after_stage-submitted outcome.status _ _ _ is (
          advance-submitted (done ++ outcome ∷ []) rest _ (all_succeeded-append done outcome h is)))

-- On a supported binding that names the contract of the plan, and a plan that has a stage and whose
-- stage numbers increase, services that never ask for cancellation, run every stage to a matching
-- success and submit get a result, and it says submitted.
pub execute-submits :
    {W : Type 0} (adapter : ContractSequentialOrchestrator) (run_id manifest_sha256 : String)
    (binding : OrchestrationBinding) (plan : ResolvedPhasePlan) (services : Services W) (w : W)
    → IsWilling services
    → supports adapter binding ≡ true
    → identity_eq binding.phase_contract plan.identity ≡ true
    → IsIncreasing (map (λ stage. stage.sequence) plan.stages)
    → (r : OrchestrationResult) × ((execute adapter run_id manifest_sha256 binding plan services
          w).0
        ≡ ok r)
      × (r.status ≡ OrchestrationStatus.submitted)
unfolding execute
execute-submits adapter run_id manifest_sha256 binding plan services w willing supported same
      increasing =
    rw
      (
        supported,
        same,
        (is_ordered-IsIncreasing (map (λ stage. stage.sequence) plan.stages)).1 increasing,
      )
      (advance-submitted services willing run_id manifest_sha256 binding [] plan.stages w
        none_unsuccessful)
