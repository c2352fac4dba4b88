-- ===== src/Orchestration/Sequential/Runs.antt =====
-- What a run of the sequential adapter is: its calls of the services, their answers, and what its
-- result says of them.
pub mod Ending
pub mod Logged
use model_forge.Prelude.{true, false, ◌≡◌, Bool, Option, none, List, [], ◌∷◌, ◌++◌, Result, ok}
use model_forge.Storage.Database.{Tx}
use model_forge.Orchestration.Protocol.{
  StageStatus, SubmissionStatus, OrchestrationStatus, ResolvedStage, StageOutcome,
  SubmissionReference, SubmissionOutcome, require_stage_outcome_matches,
}
use model_forge.Orchestration.Sequential.{Services}

-- A call of a service, with its answer.
pub data ServiceCall : Type 0 where
  asked : Result Bool → ServiceCall
  ran : ResolvedStage → Result StageOutcome → ServiceCall
  sent : List StageOutcome → Result SubmissionOutcome → ServiceCall

module _ {W : Type 0} where
  -- A call whose answer is written down.
  abbrev pub noted : {A : Type 0} → (Result A → ServiceCall) → Tx W A → Tx (W × List ServiceCall) A
  noted call service (w, log) =
      let (answer, w') = service w in (answer, (w', log ++ call answer ∷ []))

  -- The services with a log of the calls of them.
  abbrev pub logged : Services W → Services (W × List ServiceCall)
  logged services = record {
    cancellation_requested = λ run_id manifest_sha256.
        noted ServiceCall.asked (services.cancellation_requested run_id manifest_sha256);
    execute_or_reconcile_stage = λ run_id manifest_sha256 stage.
        noted (ServiceCall.ran stage)
          (services.execute_or_reconcile_stage run_id manifest_sha256 stage);
    submit_or_reconcile = λ run_id manifest_sha256 outcomes.
        noted (ServiceCall.sent outcomes)
          (services.submit_or_reconcile run_id manifest_sha256 outcomes);
  }

-- How a run goes on after the outcomes `done`, with the stages that are left: its calls of the services,
-- its final status, its further outcomes and its submission. Each stage is run once the question for a
-- cancellation is answered with no, and the outcome is the answer, which matches the stage; after the
-- last stage the question is put again before the outcomes are sent. No call follows a cancellation,
-- an outcome that failed or was cancelled, or the submission.
pub data IsRun
    : (done : List StageOutcome)
      → List ResolvedStage
      → List ServiceCall
      → OrchestrationStatus
      → List StageOutcome
      → Option SubmissionReference
      → Type 0 where
  stopped :
      {done : List StageOutcome} {stages : List ResolvedStage}
      → IsRun done stages (ServiceCall.asked (ok true) ∷ []) OrchestrationStatus.cancelled [] none
  withdrawn :
      {done : List StageOutcome} {submission : SubmissionOutcome}
      → submission.status ≡ SubmissionStatus.cancelled
      → IsRun done []
          (ServiceCall.asked (ok false) ∷ ServiceCall.sent done (ok submission) ∷ [])
          OrchestrationStatus.cancelled
          []
          none
  completed :
      {done : List StageOutcome} {submission : SubmissionOutcome}
      → submission.status ≡ SubmissionStatus.submitted
      → IsRun done []
          (ServiceCall.asked (ok false) ∷ ServiceCall.sent done (ok submission) ∷ [])
          OrchestrationStatus.submitted
          []
          submission.reference
  broke :
      {done : List StageOutcome} {stage : ResolvedStage} {rest : List ResolvedStage}
      {outcome : StageOutcome}
      → require_stage_outcome_matches stage outcome ≡ ok tt
      → outcome.status ≡ StageStatus.failed
      → IsRun done
          (stage ∷ rest)
          (ServiceCall.asked (ok false) ∷ ServiceCall.ran stage (ok outcome) ∷ [])
          OrchestrationStatus.failed
          (outcome ∷ [])
          none
  interrupted :
      {done : List StageOutcome} {stage : ResolvedStage} {rest : List ResolvedStage}
      {outcome : StageOutcome}
      → require_stage_outcome_matches stage outcome ≡ ok tt
      → outcome.status ≡ StageStatus.cancelled
      → IsRun done
          (stage ∷ rest)
          (ServiceCall.asked (ok false) ∷ ServiceCall.ran stage (ok outcome) ∷ [])
          OrchestrationStatus.cancelled
          (outcome ∷ [])
          none
  next :
      {done : List StageOutcome} {stage : ResolvedStage} {rest : List ResolvedStage}
      {outcome : StageOutcome} {calls : List ServiceCall} {status : OrchestrationStatus}
      {outcomes : List StageOutcome} {submission : Option SubmissionReference}
      → require_stage_outcome_matches stage outcome ≡ ok tt
      → outcome.status ≡ StageStatus.succeeded
      → IsRun (done ++ outcome ∷ []) rest calls status outcomes submission
      → IsRun done
          (stage ∷ rest)
          (ServiceCall.asked (ok false) ∷ ServiceCall.ran stage (ok outcome) ∷ calls)
          status
          (outcome ∷ outcomes)
          submission
