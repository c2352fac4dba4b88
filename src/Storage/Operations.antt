-- ===== src/Storage/Operations.antt =====
-- The calls that change commands and runs, as data: any client of the repository is a sequence of
-- these, of which some raise and leave the database as it was.
pub mod Atomicity
pub mod Invariants
pub mod Conflicts
pub mod Retries
use model_forge.Prelude.{String, List, [], ◌∷◌}
use model_forge.Storage.Text.{Payload, Timestamp}
use model_forge.Storage.Schema.Rows.{Hub}
use model_forge.Storage.Commands
use model_forge.Storage.Runs.Swap
use model_forge.Storage.Runs.Swap.{Move}
use model_forge.Storage.Runs.Creation
use model_forge.Storage.Runs.Cancellation
use model_forge.Storage.Runs.Sealing

pub data Operation : Type 0 where
  create_project : (project_id : String) (payload : Payload) (created_at : Timestamp) → Operation
  record_raw_command :
      (request_id project_id raw_sha256 : String) (payload : Payload) (received_at : Timestamp)
      → Operation
  seal_command :
      (command_id project_id raw_request_id idempotency_key command_sha256 : String)
      (payload : Payload) (sealed_at : Timestamp)
      → Operation
  create_run :
      (run_id project_id command_id status : String) (payload : Payload)
      (event_id event_sha256 : String) (event_payload : Payload) (recorded_at : Timestamp)
      → Operation
  compare_and_swap_run : Move → Operation
  request_cancellation : (command_id : String) → Move → Operation
  freeze_manifest :
      (run_id manifest_sha256 : String) (payload : Payload) (sealed_at : Timestamp) → Operation
  seal_submission :
      (submission_id submission_sha256 : String) (submission_payload : Payload) → Move → Operation

-- The database after one call, whether it returned or raised.
unfoldable pub perform : Operation → Hub → Hub
perform (create_project project payload at) h = (Commands.create_project project payload at h).1
perform (record_raw_command request project sha payload at) h =
    (Commands.record_raw_command request project sha payload at h).1
perform (seal_command command project raw key sha payload at) h =
    (Commands.seal_command command project raw key sha payload at h).1
perform (create_run run project command status payload event sha event_payload at) h =
    (Creation.create_run run project command status payload event sha event_payload at h).1
perform (compare_and_swap_run m) h = (Swap.compare_and_swap_run m h).1
perform (request_cancellation command m) h = (Cancellation.request_cancellation command m h).1
perform (freeze_manifest run sha payload at) h = (Creation.freeze_manifest run sha payload at h).1
perform (seal_submission submission sha payload m) h =
    (Sealing.seal_submission submission sha payload m h).1

-- The database after a sequence of calls.
unfoldable pub perform_all : List Operation → Hub → Hub
perform_all [] h = h
perform_all (o ∷ rest) h = perform_all rest (perform o h)
