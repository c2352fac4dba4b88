-- ===== src/Orchestration/Sequential/Runs/Ending.antt =====
-- How `execute` of src/model_forge/orchestration/sequential.py ends, at the results and the submission.
use mathlib.Core.List.{append-nil, append_assoc}
use model_forge.Prelude.{
  String, ◌≡◌, refl, ap, ◌∙◌, inl, inr, false, Option, List, [], ◌∷◌, ◌++◌, ok, arith, Bool-cases,
}
use model_forge.Storage.Database.Rules.{>>=-ok}
use model_forge.Orchestration.Protocol.{
  SubmissionStatus, OrchestrationStatus, OrchestrationBinding, ResolvedStage, StageOutcome,
  SubmissionReference, SubmissionOutcome, OrchestrationResult, orchestration_result,
}
use model_forge.Orchestration.Sequential.{Services, result, conclude, submit}
use model_forge.Orchestration.Sequential.Runs.{
  ServiceCall, logged, IsRun, stopped, withdrawn, completed,
}

-- A result that says how the run went on after the outcomes `done` and the calls `before`, up to the
-- log that is there at the end.
pub record IsOutcomeOf (run_id manifest_sha256 : String) (binding : OrchestrationBinding)
    (before : List ServiceCall) (done : List StageOutcome) (stages : List ResolvedStage)
    (r : OrchestrationResult) (log : List ServiceCall) : Type 0 where
  pub run : r.run_id ≡ run_id
  pub manifest : r.manifest_sha256 ≡ manifest_sha256
  pub bound : r.binding ≡ binding
  pub more : List StageOutcome
  pub calls : List ServiceCall
  pub outcomes : r.stage_outcomes ≡ done ++ more
  pub called : log ≡ before ++ calls
  pub is_run : IsRun done stages calls r.status more r.submission

checked : (r r' : OrchestrationResult) → orchestration_result r ≡ ok r' → r' ≡ r
unfolding orchestration_result
checked r r' e = ground arith

-- Two calls that are written down one after the other.
pub two_noted :
    (log : List ServiceCall) {a b c d : ServiceCall}
    → a ≡ b
    → c ≡ d
    → (log ++ a ∷ []) ++ c ∷ [] ≡ log ++ b ∷ d ∷ []
two_noted log {a = a} {b = b} {c = c} first second =
    append_assoc log (a ∷ []) (c ∷ [])
    ∙ ap (λ x. log ++ x ∷ c ∷ []) first
    ∙ ap (λ y. log ++ b ∷ y ∷ []) second

module _ {W : Type 0} (services : Services W) (run_id manifest_sha256 : String)
    (binding : OrchestrationBinding) where
  pub result-Says :
      (status : OrchestrationStatus) (before : List ServiceCall) (done more : List StageOutcome)
      (submission : Option SubmissionReference) (stages : List ResolvedStage)
      (calls : List ServiceCall) (s : W × List ServiceCall) {r : OrchestrationResult}
      → IsRun done stages calls status more submission
      → s.1 ≡ before ++ calls
      → (result
          (logged services)
          run_id
          manifest_sha256
          binding
          status
          (done ++ more)
          submission
          s).0
        ≡ ok r
      → IsOutcomeOf run_id manifest_sha256 binding before done stages r s.1
  unfolding result
  result-Says status before done more submission stages calls s {r = r} ran log e =
      rw (checked _ r e) (record {
        run = refl;
        manifest = refl;
        bound = refl;
        more = more;
        calls = calls;
        outcomes = refl;
        called = log;
        is_run = ran;
      })

  -- A result without further outcomes.
  pub stop-says :
      (status : OrchestrationStatus) (before : List ServiceCall) (done : List StageOutcome)
      (submission : Option SubmissionReference) (stages : List ResolvedStage)
      (calls : List ServiceCall) (s : W × List ServiceCall) {r : OrchestrationResult}
      → IsRun done stages calls status [] submission
      → s.1 ≡ before ++ calls
      → (result (logged services) run_id manifest_sha256 binding status done submission s).0 ≡ ok r
      → IsOutcomeOf run_id manifest_sha256 binding before done stages r s.1
  stop-says status before done submission stages calls s ran log e =
      result-Says status before done [] submission stages calls s ran log (rw (append-nil done) e)

  conclude-says :
      (before : List ServiceCall) (done : List StageOutcome) (submission : SubmissionOutcome)
      (status : SubmissionStatus) (s : W × List ServiceCall) {r : OrchestrationResult}
      → submission.status ≡ status
      → s.1 ≡ before ++ ServiceCall.asked (ok false) ∷ ServiceCall.sent done (ok submission) ∷ []
      → (conclude
          (logged services)
          run_id
          manifest_sha256
          binding
          done
          status
          submission.reference
          s).0
        ≡ ok r
      → IsOutcomeOf run_id manifest_sha256 binding before done [] r
          (conclude
            (logged services)
            run_id
            manifest_sha256
            binding
            done
            status
            submission.reference
            s).1.1
  unfolding conclude result
  conclude-says before done submission SubmissionStatus.cancelled s is log e =
      stop-says _ before done _ [] _ s (withdrawn is) log e
  conclude-says before done submission SubmissionStatus.submitted s is log e =
      stop-says _ before done _ [] _ s (completed is) log e

  pub submit-says :
      (done : List StageOutcome) (s : W × List ServiceCall) {r : OrchestrationResult}
      → (submit (logged services) run_id manifest_sha256 binding done s).0 ≡ ok r
      → IsOutcomeOf run_id manifest_sha256 binding s.1 done [] r
          (submit (logged services) run_id manifest_sha256 binding done s).1.1
  unfolding submit result
  submit-says done s e =
      let (asked, answered, first) =
        >>=-ok ((logged services).cancellation_requested run_id manifest_sha256) _ s e in
      let e' = rw first at e in
      rw first (elim (Bool-cases asked) [
        | inl halted ↦ rw halted (
            stop-says _ s.1 done _ [] _
              ((logged services).cancellation_requested run_id manifest_sha256 s).1 stopped
              (ap (λ a. s.1 ++ ServiceCall.asked a ∷ []) (answered ∙ ap ok halted))
              (rw halted at e'))
        | inr going ↦
            let e'' = rw going at e' in
            let (submission, accepted, second) =
              >>=-ok ((logged services).submit_or_reconcile run_id manifest_sha256 done) _ _ e'' in
            rw (going, second)
              (conclude-says s.1 done submission submission.status _ refl
                (two_noted s.1 (ap (λ a. ServiceCall.asked a) (answered ∙ ap ok going))
                  (ap (λ b. ServiceCall.sent done b) accepted))
                (rw second at e''))
      ])
