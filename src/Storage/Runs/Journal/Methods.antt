-- ===== src/Storage/Runs/Journal/Methods.antt =====
-- Every method of the repository that writes runs keeps the journal.
use model_forge.Prelude.{String, refl}
use model_forge.Storage.Text.{Payload, Timestamp}
use model_forge.Storage.Database.Keeps.{Keeps, Keeps-insert, keeps_rules}
use model_forge.Storage.Schema.Rows.{RunRow, ManifestRow, SubmissionRow}
use model_forge.Storage.Schema.Control.{insert_manifest}
use model_forge.Storage.Schema.Execution.{insert_submission}
use model_forge.Storage.Runs.Swap.{Swap, Move, cas_run, move_run, compare_and_swap_run}
use model_forge.Storage.Runs.Creation.{create_run, freeze_manifest}
use model_forge.Storage.Runs.Cancellation.{
  fence, swap_to_requested, decide_cancellation, request_cancellation,
}
use model_forge.Storage.Runs.Sealing.{
  Submission, swap_to_submitted, write_submission, decide_submission, seal_submission,
}
use model_forge.Storage.Runs.Journal.{IsJournaled}
use model_forge.Storage.Runs.Journal.Swapping.{KeepsHead, unchanged-KeepsHead, cas_run-IsJournaled}
use model_forge.Storage.Runs.Journal.Creating.{write_run-Keeps}

pub cas_run-Keeps :
    (q : Swap) (extra : RunRow → RunRow) → KeepsHead extra → Keeps IsJournaled (cas_run q extra)
cas_run-Keeps q extra kept = record { at = λ h r e j. cas_run-IsJournaled q extra h kept j e }

pub fence-KeepsHead : (command_id : String) → KeepsHead (fence command_id)
fence-KeepsHead command_id = record {
  run_id = λ row. refl;
  status = λ row. refl;
  head_sequence = λ row. refl;
}

insert_submission-Keeps : (new : SubmissionRow) → Keeps IsJournaled (insert_submission new)
unfolding insert_submission
insert_submission-Keeps new =
    Keeps-insert _ _ _ (λ h j. record { unique = j.unique; agrees = j.agrees })

insert_manifest-Keeps : (new : ManifestRow) → Keeps IsJournaled (insert_manifest new)
unfolding insert_manifest
insert_manifest-Keeps new =
    Keeps-insert _ _ _ (λ h j. record { unique = j.unique; agrees = j.agrees })

ruleset journal_rules = (
  keeps_rules, cas_run-Keeps, fence-KeepsHead, unchanged-KeepsHead, insert_submission-Keeps,
  insert_manifest-Keeps, write_run-Keeps,
)

pub compare_and_swap_run-Keeps : (m : Move) → Keeps IsJournaled (compare_and_swap_run m)
unfolding compare_and_swap_run move_run
compare_and_swap_run-Keeps m = search journal_rules depth 30

swap_to_requested-Keeps :
    (command_id : String) (m : Move) (at : String)
    → Keeps IsJournaled (swap_to_requested command_id m at)
unfolding swap_to_requested
swap_to_requested-Keeps command_id m at = search journal_rules depth 30

pub request_cancellation-Keeps :
    (command_id : String) (m : Move) → Keeps IsJournaled (request_cancellation command_id m)
unfolding request_cancellation decide_cancellation
request_cancellation-Keeps command_id m = search (journal_rules, swap_to_requested-Keeps) depth 30

write_submission-Keeps :
    (s : Submission) (m : Move) (run_json at : String)
    → Keeps IsJournaled (write_submission s m run_json at)
unfolding write_submission swap_to_submitted
write_submission-Keeps s m run_json at = search journal_rules depth 30

pub seal_submission-Keeps :
    (submission_id submission_sha256 : String) (submission_payload : Payload) (m : Move)
    → Keeps IsJournaled (seal_submission submission_id submission_sha256 submission_payload m)
unfolding seal_submission decide_submission
seal_submission-Keeps submission_id submission_sha256 submission_payload m =
    search (journal_rules, write_submission-Keeps) depth 30

pub freeze_manifest-Keeps :
    (run_id manifest_sha256 : String) (payload : Payload) (sealed_at : Timestamp)
    → Keeps IsJournaled (freeze_manifest run_id manifest_sha256 payload sealed_at)
unfolding freeze_manifest
freeze_manifest-Keeps run_id manifest_sha256 payload sealed_at = search journal_rules depth 30

pub create_run-Keeps :
    (run_id project_id command_id status : String) (payload : Payload)
    (event_id event_sha256 : String) (event_payload : Payload) (recorded_at : Timestamp)
    → Keeps IsJournaled (
        create_run run_id project_id command_id status payload event_id event_sha256 event_payload
          recorded_at)
unfolding create_run
create_run-Keeps run_id project_id command_id status payload event_id event_sha256 event_payload
      recorded_at =
    search journal_rules depth 30
