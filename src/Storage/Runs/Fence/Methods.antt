-- ===== src/Storage/Runs/Fence/Methods.antt =====
-- Every method of the repository that writes runs or submissions keeps the exclusion.
use mathlib.Core.Path.{subst}
use model_forge.Prelude.{
  String, ◌==◌, eq_iff, ◌≡◌, refl, ap, ◌∙◌, inl, inr, false, none, some, ok, arith, Bool-cases, ◌∷◌,
}
use model_forge.Storage.Text.{Payload, Timestamp, json}
use model_forge.Storage.Database.{lift}
use model_forge.Storage.Database.Rules.{>>=-ok}
use model_forge.Storage.Database.Keeps.{Keeps, Keeps-insert, keeps_rules}
use model_forge.Storage.Schema.Rows.{Hub, RunRow, ManifestRow, SubmissionRow}
use model_forge.Storage.Schema.Control.{insert_manifest}
use model_forge.Storage.Schema.Execution.{insert_submission}
use model_forge.Storage.Runs.Swap.{
  RunTransition, Swap, Move, select_run, select_submission, cas_run, unchanged, move_run,
  compare_and_swap_run,
}
use model_forge.Storage.Runs.Creation.{new_run, first_event, write_run, create_run, freeze_manifest}
use model_forge.Storage.Runs.Cancellation.{
  fence, swap_to_requested, decide_cancellation, request_cancellation,
}
use model_forge.Storage.Runs.Cancellation.Decision.{decide_cancellation_cases}
use model_forge.Storage.Runs.Sealing.{
  Submission, submission_row, swap_to_submitted, write_submission, decide_submission,
  seal_submission,
}
use model_forge.Storage.Runs.Sealing.Decision.{decide_submission_cases}
use model_forge.Storage.Runs.Journal.Swapping.{unchanged-KeepsHead}
use model_forge.Storage.Runs.Journal.Creating.{write_run-ok}
use model_forge.Storage.Runs.Journal.Creating.{write_run-Keeps as write_run-Keeps_journal}
use model_forge.Storage.Runs.Journal.Methods.{fence-KeepsHead}
use model_forge.Storage.Runs.Fence.{IsExclusive, cas_run-IsExclusive}

cas_unchanged-Keeps : (q : Swap) → Keeps IsExclusive (cas_run q unchanged)
cas_unchanged-Keeps q = record {
  at = λ h r e x. cas_run-IsExclusive q unchanged unchanged-KeepsHead h x (inl (λ row. refl)) e;
}

pub compare_and_swap_run-Keeps : (m : Move) → Keeps IsExclusive (compare_and_swap_run m)
unfolding compare_and_swap_run move_run
compare_and_swap_run-Keeps m = search (keeps_rules, cas_unchanged-Keeps) depth 30

insert_manifest-Keeps : (new : ManifestRow) → Keeps IsExclusive (insert_manifest new)
unfolding insert_manifest
insert_manifest-Keeps new = Keeps-insert _ _ _ (λ h x. record {
  journaled = record { unique = x.journaled.unique; agrees = x.journaled.agrees };
  exclusive = x.exclusive;
})

pub freeze_manifest-Keeps :
    (run_id manifest_sha256 : String) (payload : Payload) (sealed_at : Timestamp)
    → Keeps IsExclusive (freeze_manifest run_id manifest_sha256 payload sealed_at)
unfolding freeze_manifest
freeze_manifest-Keeps run_id manifest_sha256 payload sealed_at =
    search (keeps_rules, insert_manifest-Keeps) depth 30

-- From a run with no submission: the fence may go up.
swap_to_requested-IsExclusive :
    (command_id : String) (m : Move) (at : String) (h : Hub) {r : RunTransition}
    → IsExclusive h
    → select_submission m.run_id h ≡ none
    → (swap_to_requested command_id m at h).0 ≡ ok r
    → IsExclusive (swap_to_requested command_id m at h).1
unfolding swap_to_requested
swap_to_requested-IsExclusive command_id m at h x clear e =
    let (payload_json, _, first) = >>=-ok (lift (json m.payload)) _ h e in
    let (event_json, _, second) = >>=-ok (lift (json m.event_payload)) _ h (rw first at e) in
    rw (first, second)
      (cas_run-IsExclusive _ (fence command_id) (fence-KeepsHead command_id) h x (inr clear)
        (rw second at (rw first at e)))

decide_cancellation-Keeps :
    (command_id : String) (m : Move) (at : String)
    → Keeps IsExclusive (decide_cancellation command_id m at)
decide_cancellation-Keeps command_id m at = record {
  at = λ h r e x. elim (decide_cancellation_cases command_id m at h) [
    | inl same ↦ rw same x
    | inr (run, found, open_gate, clear, done) ↦
        rw done (swap_to_requested-IsExclusive command_id m at h x clear (rw done at e))
  ];
}

pub request_cancellation-Keeps :
    (command_id : String) (m : Move) → Keeps IsExclusive (request_cancellation command_id m)
unfolding request_cancellation
request_cancellation-Keeps command_id m = search (keeps_rules, decide_cancellation-Keeps) depth 30

-- A submission of a run with no fence.
insert_submission-IsExclusive :
    (new : SubmissionRow) (h : Hub) (run : RunRow)
    → IsExclusive h
    → select_run new.run_id h ≡ some run
    → run.cancellation_fenced ≡ false
    → IsExclusive (record h { run_submissions = new ∷ h.run_submissions })
insert_submission-IsExclusive new h run x found unfenced = record {
  journaled = record { unique = x.journaled.unique; agrees = x.journaled.agrees };
  exclusive = λ key row there fenced. elim (Bool-cases (new.run_id == key)) [
    | inl same ↦
        let here = subst (λ k. select_run k h ≡ some run) ((eq_iff new.run_id key).0 same) found in
        absurd (cc (here, there, unfenced, fenced))
    | inr other ↦ rw other (x.exclusive key row there fenced)
  ];
}

insert_submission-ok :
    (new : SubmissionRow) (h : Hub)
    → (insert_submission new h).0 ≡ ok tt
    → (insert_submission new h).1 ≡ record h { run_submissions = new ∷ h.run_submissions }
unfolding insert_submission
insert_submission-ok new h e = ground arith

swap_to_submitted-IsExclusive :
    (m : Move) (run_json at : String) (h : Hub) {r : RunTransition}
    → IsExclusive h
    → (swap_to_submitted m run_json at h).0 ≡ ok r
    → IsExclusive (swap_to_submitted m run_json at h).1
unfolding swap_to_submitted
swap_to_submitted-IsExclusive m run_json at h x e =
    let (event_json, _, rest) = >>=-ok (lift (json m.event_payload)) _ h e in
    rw rest
      (cas_run-IsExclusive _ unchanged unchanged-KeepsHead h x (inl (λ row. refl)) (rw rest at e))

write_submission-IsExclusive :
    (s : Submission) (m : Move) (run_json at : String) (h : Hub) (run : RunRow) {r : RunTransition}
    → IsExclusive h
    → select_run m.run_id h ≡ some run
    → run.cancellation_fenced ≡ false
    → (write_submission s m run_json at h).0 ≡ ok r
    → IsExclusive (write_submission s m run_json at h).1
unfolding write_submission
write_submission-IsExclusive s m run_json at h run x found unfenced e =
    let new = submission_row m.run_id s at in
    let (u, inserted, rest) =
      >>=-ok (insert_submission new) (λ _. swap_to_submitted m run_json at) h e in
    let same = rest ∙ ap (swap_to_submitted m run_json at) (insert_submission-ok new h inserted) in
    rw same (
      swap_to_submitted-IsExclusive m run_json at _
        (insert_submission-IsExclusive new h run x found unfenced) (rw same at e))

decide_submission-Keeps :
    (s : Submission) (m : Move) (run_json at : String)
    → Keeps IsExclusive (decide_submission s m run_json at)
decide_submission-Keeps s m run_json at = record {
  at = λ h r e x. elim (decide_submission_cases s m run_json at h) [
    | inl same ↦ rw same x
    | inr (run, found, unfenced, clear, done) ↦
        rw done (write_submission-IsExclusive s m run_json at h run x found unfenced (rw done at e))
  ];
}

pub seal_submission-Keeps :
    (submission_id submission_sha256 : String) (submission_payload : Payload) (m : Move)
    → Keeps IsExclusive (seal_submission submission_id submission_sha256 submission_payload m)
unfolding seal_submission
seal_submission-Keeps submission_id submission_sha256 submission_payload m =
    search (keeps_rules, decide_submission-Keeps) depth 30

write_run-Keeps :
    (run_id project_id command_id status payload_json event_id event_sha256 event_json at : String)
    → Keeps IsExclusive (
        write_run
          (new_run run_id project_id command_id status payload_json at)
          (first_event event_id run_id status event_sha256 event_json at))
write_run-Keeps run_id project_id command_id status payload_json event_id event_sha256 event_json
      at =
    record {
      at = λ h u e x.
          let new = new_run run_id project_id command_id status payload_json at in
          let event = first_event event_id run_id status event_sha256 event_json at in
          let (fresh, state) = write_run-ok new event h e in
          record {
            journaled = (write_run-Keeps_journal _ _ _ _ _ _ _ _ _).at h u e x.journaled;
            exclusive = rw state (λ key row there fenced. ground (arith, x.exclusive key row));
          };
    }

pub create_run-Keeps :
    (run_id project_id command_id status : String) (payload : Payload)
    (event_id event_sha256 : String) (event_payload : Payload) (recorded_at : Timestamp)
    → Keeps IsExclusive (
        create_run run_id project_id command_id status payload event_id event_sha256 event_payload
          recorded_at)
unfolding create_run
create_run-Keeps run_id project_id command_id status payload event_id event_sha256 event_payload
      recorded_at =
    search (keeps_rules, write_run-Keeps) depth 30
