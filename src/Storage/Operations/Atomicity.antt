-- ===== src/Storage/Operations/Atomicity.antt =====
-- Every method of the repository that writes commands or runs is atomic.
use model_forge.Prelude.{String, ◌≡◌, err}
use model_forge.Storage.Schema.Rows.{Hub}
use model_forge.Storage.Text.{Payload, Timestamp}
use model_forge.Storage.Database.Atomic.{IsAtomic, atomic_rules}
use model_forge.Storage.Commands.{create_project, record_raw_command, seal_command}
use model_forge.Storage.Runs.Swap.{Move, compare_and_swap_run}
use model_forge.Storage.Runs.Creation.{create_run, freeze_manifest}
use model_forge.Storage.Runs.Cancellation.{request_cancellation}
use model_forge.Storage.Runs.Sealing.{seal_submission}

pub create_project-IsAtomic :
    (project_id : String) (payload : Payload) (created_at : Timestamp)
    → IsAtomic (create_project project_id payload created_at)
unfolding create_project
create_project-IsAtomic project_id payload created_at = search atomic_rules depth 20

pub record_raw_command-IsAtomic :
    (request_id project_id raw_sha256 : String) (payload : Payload) (received_at : Timestamp)
    → IsAtomic (record_raw_command request_id project_id raw_sha256 payload received_at)
unfolding record_raw_command
record_raw_command-IsAtomic request_id project_id raw_sha256 payload received_at =
    search atomic_rules depth 20

pub seal_command-IsAtomic :
    (command_id project_id raw_request_id idempotency_key command_sha256 : String)
    (payload : Payload) (sealed_at : Timestamp)
    → IsAtomic (
        seal_command command_id project_id raw_request_id idempotency_key command_sha256 payload
          sealed_at)
unfolding seal_command
seal_command-IsAtomic command_id project_id raw_request_id idempotency_key command_sha256 payload
      sealed_at =
    search atomic_rules depth 20

pub create_run-IsAtomic :
    (run_id project_id command_id status : String) (payload : Payload)
    (event_id event_sha256 : String) (event_payload : Payload) (recorded_at : Timestamp)
    → IsAtomic (
        create_run run_id project_id command_id status payload event_id event_sha256 event_payload
          recorded_at)
unfolding create_run
create_run-IsAtomic run_id project_id command_id status payload event_id event_sha256 event_payload
      recorded_at =
    search atomic_rules depth 20

pub compare_and_swap_run-IsAtomic : (m : Move) → IsAtomic (compare_and_swap_run m)
unfolding compare_and_swap_run
compare_and_swap_run-IsAtomic m = search atomic_rules depth 20

pub request_cancellation-IsAtomic :
    (command_id : String) (m : Move) → IsAtomic (request_cancellation command_id m)
unfolding request_cancellation
request_cancellation-IsAtomic command_id m = search atomic_rules depth 20

pub freeze_manifest-IsAtomic :
    (run_id manifest_sha256 : String) (payload : Payload) (sealed_at : Timestamp)
    → IsAtomic (freeze_manifest run_id manifest_sha256 payload sealed_at)
unfolding freeze_manifest
freeze_manifest-IsAtomic run_id manifest_sha256 payload sealed_at = search atomic_rules depth 20

pub seal_submission-IsAtomic :
    (submission_id submission_sha256 : String) (submission_payload : Payload) (m : Move)
    → IsAtomic (seal_submission submission_id submission_sha256 submission_payload m)
unfolding seal_submission
seal_submission-IsAtomic submission_id submission_sha256 submission_payload m =
    search atomic_rules depth 20

-- Where `create_run` raises, whatever it raises, the database is what it was before the call.
pub create_run_undone :
    (run_id project_id command_id status : String) (payload : Payload)
    (event_id event_sha256 : String) (event_payload : Payload) (recorded_at : Timestamp) (h : Hub)
    (e : String)
    → (create_run run_id project_id command_id status payload event_id event_sha256 event_payload
        recorded_at h).0
      ≡ err e
    → (create_run run_id project_id command_id status payload event_id event_sha256 event_payload
        recorded_at h).1
      ≡ h
create_run_undone run_id project_id command_id status payload event_id event_sha256 event_payload
      recorded_at =
    (create_run-IsAtomic run_id project_id command_id status payload event_id event_sha256
      event_payload recorded_at).undone

-- Where `seal_submission` raises, whatever it raises, the database is what it was before the call.
pub seal_submission_undone :
    (submission_id submission_sha256 : String) (submission_payload : Payload) (m : Move) (h : Hub)
    (e : String)
    → (seal_submission submission_id submission_sha256 submission_payload m h).0 ≡ err e
    → (seal_submission submission_id submission_sha256 submission_payload m h).1 ≡ h
seal_submission_undone submission_id submission_sha256 submission_payload m =
    (seal_submission-IsAtomic submission_id submission_sha256 submission_payload m).undone
