-- ===== src/Orchestration/Sequential/Runs/Logged.antt =====
-- The adapter runs its stages as `IsRun` says.
use mathlib.Core.List.{append_assoc}
use model_forge.Prelude.{
  String, ◌≡◌, refl, ap, ◌∙◌, inl, inr, true, false, List, [], ◌∷◌, ◌++◌, map, require, require-ok,
  ok, Bool-cases,
}
use model_forge.Storage.Database.{Tx, lift}
use model_forge.Storage.Database.Rules.{>>=-ok}
use model_forge.Orchestration.Protocol.{
  StageStatus, OrchestrationBinding, ResolvedStage, StageOutcome, OrchestrationResult,
  require_stage_outcome_matches,
}
use model_forge.Orchestration.Sequential.{
  supports, identity_eq, is_ordered, Services, ResolvedPhasePlan, ContractSequentialOrchestrator,
  result, after_stage, advance, execute,
}
use model_forge.Orchestration.Sequential.Runs.{
  ServiceCall, logged, IsRun, stopped, broke, interrupted, next,
}
use model_forge.Orchestration.Sequential.Runs.Ending.{
  IsOutcomeOf, two_noted, result-Says, stop-says, submit-says,
}

module _ {W : Type 0} (services : Services W) (run_id manifest_sha256 : String)
    (binding : OrchestrationBinding) where
  -- What follows a stage that matched: the loop goes on, if its status says so.
  after_stage-says :
      (before : List ServiceCall) (done : List StageOutcome) (stage : ResolvedStage)
      (outcome : StageOutcome) (rest : List ResolvedStage)
      (more : Tx (W × List ServiceCall) OrchestrationResult) (s : W × List ServiceCall)
      {r : OrchestrationResult}
      → require_stage_outcome_matches stage outcome ≡ ok tt
      → s.1 ≡ before ++ ServiceCall.asked (ok false) ∷ ServiceCall.ran stage (ok outcome) ∷ []
      → ((more s).0 ≡ ok r
          → IsOutcomeOf run_id manifest_sha256 binding s.1
              (done ++ outcome ∷ [])
              rest
              r
              (more s).1.1)
      → (status : StageStatus) → outcome.status ≡ status
      → (after_stage
          (logged services)
          run_id
          manifest_sha256
          binding
          status
          (done ++ outcome ∷ [])
          more
          s).0
        ≡ ok r
      → IsOutcomeOf run_id manifest_sha256 binding before done
          (stage ∷ rest)
          r
          (after_stage
            (logged services)
            run_id
            manifest_sha256
            binding
            status
            (done ++ outcome ∷ [])
            more
            s).1.1
  unfolding after_stage result
  after_stage-says before done stage outcome rest more s met log go StageStatus.failed is e =
      result-Says services run_id manifest_sha256 binding _ before done (outcome ∷ []) _
        (stage ∷ rest) _ s (broke met is) log e
  after_stage-says before done stage outcome rest more s met log go StageStatus.cancelled is e =
      result-Says services run_id manifest_sha256 binding _ before done (outcome ∷ []) _
        (stage ∷ rest) _ s (interrupted met is) log e
  after_stage-says before done stage outcome rest more s met log go StageStatus.succeeded is e =
      let later = go e in
      record {
        run = later.run;
        manifest = later.manifest;
        bound = later.bound;
        more = outcome ∷ later.more;
        calls = ServiceCall.asked (ok false) ∷ ServiceCall.ran stage (ok outcome) ∷ later.calls;
        outcomes = later.outcomes ∙ append_assoc done (outcome ∷ []) later.more;
        called =
            later.called
            ∙ ap (λ l. l ++ later.calls) log
            ∙ append_assoc before
                (ServiceCall.asked (ok false) ∷ ServiceCall.ran stage (ok outcome) ∷ [])
                later.calls;
        is_run = next met is later.is_run;
      }

  advance-says :
      (done : List StageOutcome) (stages : List ResolvedStage) (s : W × List ServiceCall)
      {r : OrchestrationResult}
      → (advance (logged services) run_id manifest_sha256 binding done stages s).0 ≡ ok r
      → IsOutcomeOf run_id manifest_sha256 binding s.1 done stages r
          (advance (logged services) run_id manifest_sha256 binding done stages s).1.1
  unfolding advance result
  advance-says done [] s e = submit-says services run_id manifest_sha256 binding done s e
  advance-says done (stage ∷ rest) s e =
      let (asked, answered, first) =
        >>=-ok ((logged services).cancellation_requested run_id manifest_sha256) _ s e in
      let e' = rw first at e in
      rw first (elim (Bool-cases asked) [
        | inl halted ↦ rw halted (
            stop-says services run_id manifest_sha256 binding _ s.1 done _ (stage ∷ rest) _
              ((logged services).cancellation_requested run_id manifest_sha256 s).1 stopped
              (ap (λ a. s.1 ++ ServiceCall.asked a ∷ []) (answered ∙ ap ok halted))
              (rw halted at e'))
        | inr going ↦
            let e'' = rw going at e' in
            let (outcome, given, second) =
              >>=-ok ((logged services).execute_or_reconcile_stage run_id manifest_sha256 stage) _ _
                e'' in
            let e3 = rw second at e'' in
            let (_, met, third) =
              >>=-ok (lift (require_stage_outcome_matches stage outcome)) _ _ e3 in
            rw (going, second, third)
              (after_stage-says s.1 done stage outcome rest _ _ met
                (two_noted s.1 (ap (λ a. ServiceCall.asked a) (answered ∙ ap ok going))
                  (ap (λ b. ServiceCall.ran stage b) given))
                (advance-says (done ++ outcome ∷ []) rest _) outcome.status refl (rw third at e3))
      ])

-- A result of `execute`, whatever the services do, with a log of the calls of them: the adapter
-- supports the binding, which names the contract of the plan, and the stages of the plan have
-- increasing numbers; the result carries the identities of the call; and the calls that were logged
-- are a run of the stages of the plan with the status, the outcomes and the submission of the result:
-- they are in the order of the plan, each stage is run after a question for a cancellation that was
-- answered with no, its outcome is the answer, and no service is called after a cancellation, after
-- an outcome that failed or was cancelled, or after the submission.
pub execute-IsRun :
    {W : Type 0} (adapter : ContractSequentialOrchestrator) (run_id manifest_sha256 : String)
    (binding : OrchestrationBinding) (plan : ResolvedPhasePlan) (services : Services W)
    (s : W × List ServiceCall) {r : OrchestrationResult}
    → (execute adapter run_id manifest_sha256 binding plan (logged services) s).0 ≡ ok r
    → (supports adapter binding ≡ true)
      × (identity_eq binding.phase_contract plan.identity ≡ true)
      × (is_ordered (map (λ stage. stage.sequence) plan.stages) ≡ true)
      × (r.run_id ≡ run_id)
      × (r.manifest_sha256 ≡ manifest_sha256)
      × (r.binding ≡ binding)
      × (calls : List ServiceCall) × ((execute adapter run_id manifest_sha256 binding plan
            (logged services)
            s).1.1
          ≡ s.1 ++ calls)
      × IsRun [] plan.stages calls r.status r.stage_outcomes r.submission
unfolding execute
execute-IsRun adapter run_id manifest_sha256 binding plan services s {r = r} e =
    let (_, supported, first) =
      >>=-ok (lift (require (supports adapter binding) "orchestration.binding_not_supported")) _ s
        e in
    let e1 = rw first at e in
    let (_, same, second) =
      >>=-ok
        (lift (
          require (identity_eq binding.phase_contract plan.identity)
            "orchestration.phase_contract_mismatch"))
        _ s e1 in
    let e2 = rw second at e1 in
    let (_, ordered, third) =
      >>=-ok
        (lift (
          require (is_ordered (map (λ stage. stage.sequence) plan.stages))
            "orchestration.invalid_stage_plan"))
        _ s e2 in
    let says =
      advance-says services run_id manifest_sha256 binding [] plan.stages s (rw third at e2) in
    (
      require-ok _ _ supported,
      require-ok _ _ same,
      require-ok _ _ ordered,
      says.run,
      says.manifest,
      says.bound,
      says.calls,
      rw (first, second, third) says.called,
      rw says.outcomes says.is_run,
    )
