-- ===== src/Storage/Runs/Sealing.antt =====
-- `seal_submission` of src/model_forge/storage/repository.py.
pub mod Decision
use model_forge.Prelude.{String, ◌==◌, Bool, not, ◌&&◌, ◌||◌, none, some, nat_eq, if◌then◌else◌}
use model_forge.Storage.Text.{Payload, text, digest, json, time}
use model_forge.Storage.Database.{on_row, Tx, lift, gets, immediate_transaction, ◌>>=◌, ◌>>◌}
use model_forge.Storage.Schema.Rows.{Hub, SubmissionRow}
use model_forge.Storage.Schema.Execution.{insert_submission}
use model_forge.Storage.Runs.Swap.{
  RunTransition, select_submission, require_run, refused, cas_run, Move, swap_of, unchanged,
}

-- The three values that `seal_submission` stores beside the run id and the time.
pub record Submission : Type 0 where
  pub submission_id : String
  pub submission_sha256 : String
  pub payload_json : String

abbrev pub same_submission : Submission → SubmissionRow → Bool
same_submission s prior =
    prior.submission_id == s.submission_id
    && prior.submission_sha256 == s.submission_sha256
    && prior.payload_json == s.payload_json

abbrev pub submission_row : String → Submission → String → SubmissionRow
submission_row run_id s at = record {
  submission_id = s.submission_id;
  run_id = run_id;
  submission_sha256 = s.submission_sha256;
  payload_json = s.payload_json;
  submitted_at = at;
}

-- The call of `_cas_run` at the end of `seal_submission`.
unfoldable pub swap_to_submitted : Move → (run_json at : String) → Tx Hub RunTransition
swap_to_submitted m run_json at = do
  event_json ← lift (json m.event_payload)
  cas_run (swap_of m run_json event_json at) unchanged

-- The writes of `seal_submission`.
unfoldable pub write_submission : Submission → Move → (run_json at : String) → Tx Hub RunTransition
write_submission s m run_json at = do
  insert_submission (submission_row m.run_id s at)
  swap_to_submitted m run_json at

-- The body of the transaction of `seal_submission`.
unfoldable pub decide_submission : Submission → Move → (run_json at : String) → Tx Hub RunTransition
decide_submission s m run_json at = do
  run ← require_run m.run_id
  row ← gets (select_submission m.run_id)
  on_row row
      (λ prior.
        if same_submission s prior
        then refused "already_applied" run
        else refused "already_submitted" run)
      (if run.cancellation_fenced
        then refused "cancellation_fenced" run
        else if not (run.status == m.expected_status)
            || not (nat_eq run.head_sequence m.expected_sequence)
        then refused "compare_and_swap_failed" run
        else write_submission s m run_json at)

-- `payload` of the move is `run_payload`.
unfoldable pub seal_submission :
    (submission_id submission_sha256 : String) (submission_payload : Payload)
    → Move
    → Tx Hub RunTransition
seal_submission submission_id submission_sha256 submission_payload m = do
  lift (text m.run_id)
  lift (text submission_id)
  lift (digest submission_sha256)
  submission_json ← lift (json submission_payload)
  run_json ← lift (json m.payload)
  at ← lift (time m.recorded_at)
  let s : Submission = record {
    submission_id = submission_id;
    submission_sha256 = submission_sha256;
    payload_json = submission_json;
  }
  immediate_transaction (decide_submission s m run_json at)
