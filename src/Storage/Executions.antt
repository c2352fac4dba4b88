-- ===== src/Storage/Executions.antt =====
-- Role executions of src/model_forge/storage/repository.py: an intent, its acknowledgement, its
-- heartbeats and its closure, each recorded once.
pub mod Retrying
pub mod Beating
use model_forge.Prelude.{String, ◌==◌, Bool, not, ◌&&◌, Option, find?, if◌then◌else◌}
use model_forge.Storage.Text.{Payload, Timestamp, text, digest, json, time}
use model_forge.Storage.Database.{
  Tx, raise, lift, gets, or_raise, on_row, immediate_transaction, ◌>>=◌, ◌>>◌,
}
use model_forge.Storage.Schema.Rows.{
  Hub, ExecutionRow, AcknowledgementRow, HeartbeatRow, ClosureRow, next_sequence,
}
use model_forge.Storage.Schema.Execution.{
  insert_execution, insert_acknowledgement, insert_heartbeat, insert_closure,
}
use model_forge.Storage.Commands.{RecordResult, not_found, created, existing}
use model_forge.Storage.Runs.Swap.{require_run}

abbrev pub select_execution : String → Hub → Option ExecutionRow
select_execution key h = find? (λ row. row.execution_id == key) h.role_execution_intents

abbrev pub select_invocation : String → Hub → Option ExecutionRow
select_invocation key h = find? (λ row. row.invocation_id == key) h.role_execution_intents

abbrev pub select_acknowledgement : String → Hub → Option AcknowledgementRow
select_acknowledgement key h =
    find? (λ row. row.execution_id == key) h.role_execution_acknowledgements

abbrev pub select_heartbeat : String → Hub → Option HeartbeatRow
select_heartbeat key h = find? (λ row. row.heartbeat_id == key) h.role_execution_heartbeats

abbrev pub select_closure : String → Hub → Option ClosureRow
select_closure key h = find? (λ row. row.execution_id == key) h.role_execution_closures

-- `_require_execution`
abbrev pub require_execution : String → Tx Hub ExecutionRow
require_execution key = do row ← gets (select_execution key); or_raise not_found row

-- `row` if it is the same as the one to be recorded.
abbrev pub existing_or_conflict : {Row : Type 0} → Bool → Row → Tx Hub (RecordResult Row)
existing_or_conflict same row =
    if not same then raise "repository.execution_conflict" else existing row

abbrev pub same_intent : ExecutionRow → ExecutionRow → Bool
same_intent new old =
    old.run_id == new.run_id
    && old.invocation_sha256 == new.invocation_sha256
    && old.payload_json == new.payload_json

-- The body of the transaction of `get_or_create_execution`.
unfoldable pub intend : ExecutionRow → Tx Hub (RecordResult ExecutionRow)
intend new = do
  require_run new.run_id
  row ← gets (select_invocation new.invocation_id)
  on_row row (λ old. existing_or_conflict (same_intent new old) old)
      (do insert_execution new; created (select_execution new.execution_id))

unfoldable pub get_or_create_execution :
    (execution_id invocation_id run_id invocation_sha256 : String) (payload : Payload)
    (created_at : Timestamp)
    → Tx Hub (RecordResult ExecutionRow)
get_or_create_execution execution_id invocation_id run_id invocation_sha256 payload created_at = do
  lift (text execution_id)
  lift (text invocation_id)
  lift (text run_id)
  lift (digest invocation_sha256)
  payload_json ← lift (json payload)
  at ← lift (time created_at)
  let new : ExecutionRow = record {
    execution_id = execution_id;
    invocation_id = invocation_id;
    run_id = run_id;
    invocation_sha256 = invocation_sha256;
    payload_json = payload_json;
    created_at = at;
  }
  immediate_transaction (intend new)

abbrev pub same_acknowledgement : AcknowledgementRow → AcknowledgementRow → Bool
same_acknowledgement new old =
    old.external_execution_id == new.external_execution_id && old.payload_json == new.payload_json

unfoldable pub acknowledge : AcknowledgementRow → Tx Hub (RecordResult AcknowledgementRow)
acknowledge new = do
  require_execution new.execution_id
  row ← gets (select_acknowledgement new.execution_id)
  on_row row (λ old. existing_or_conflict (same_acknowledgement new old) old)
      (do insert_acknowledgement new; created (select_acknowledgement new.execution_id))

unfoldable pub acknowledge_execution :
    (execution_id external_execution_id : String) (payload : Payload) (acknowledged_at : Timestamp)
    → Tx Hub (RecordResult AcknowledgementRow)
acknowledge_execution execution_id external_execution_id payload acknowledged_at = do
  lift (text execution_id)
  lift (text external_execution_id)
  payload_json ← lift (json payload)
  at ← lift (time acknowledged_at)
  let new : AcknowledgementRow = record {
    execution_id = execution_id;
    external_execution_id = external_execution_id;
    payload_json = payload_json;
    acknowledged_at = at;
  }
  immediate_transaction (acknowledge new)

abbrev pub same_heartbeat : HeartbeatRow → HeartbeatRow → Bool
same_heartbeat new old =
    old.execution_id == new.execution_id && old.payload_json == new.payload_json

-- `new` has the number that is next when the call looks.
unfoldable pub beat : HeartbeatRow → Tx Hub (RecordResult HeartbeatRow)
beat new = do
  require_execution new.execution_id
  row ← gets (select_heartbeat new.heartbeat_id)
  on_row row (λ old. existing_or_conflict (same_heartbeat new old) old)
      (do
        sequence ← gets (λ h.
            next_sequence (λ row. row.execution_id == new.execution_id) (λ row. row.sequence)
              h.role_execution_heartbeats)
        insert_heartbeat (record new { sequence = sequence })
        created (select_heartbeat new.heartbeat_id))

unfoldable pub append_execution_heartbeat :
    (execution_id heartbeat_id : String) (payload : Payload) (recorded_at : Timestamp)
    → Tx Hub (RecordResult HeartbeatRow)
append_execution_heartbeat execution_id heartbeat_id payload recorded_at = do
  lift (text execution_id)
  lift (text heartbeat_id)
  payload_json ← lift (json payload)
  at ← lift (time recorded_at)
  let new : HeartbeatRow = record {
    heartbeat_id = heartbeat_id;
    execution_id = execution_id;
    sequence = 1;
    payload_json = payload_json;
    recorded_at = at;
  }
  immediate_transaction (beat new)

abbrev pub same_closure : ClosureRow → ClosureRow → Bool
same_closure new old =
    old.closure_id == new.closure_id
    && old.closure_sha256 == new.closure_sha256
    && old.payload_json == new.payload_json

unfoldable pub close : ClosureRow → Tx Hub (RecordResult ClosureRow)
close new = do
  require_execution new.execution_id
  row ← gets (select_closure new.execution_id)
  on_row row (λ old. existing_or_conflict (same_closure new old) old)
      (do insert_closure new; created (select_closure new.execution_id))

unfoldable pub close_execution :
    (execution_id closure_id closure_sha256 : String) (payload : Payload) (closed_at : Timestamp)
    → Tx Hub (RecordResult ClosureRow)
close_execution execution_id closure_id closure_sha256 payload closed_at = do
  lift (text execution_id)
  lift (text closure_id)
  lift (digest closure_sha256)
  payload_json ← lift (json payload)
  at ← lift (time closed_at)
  let new : ClosureRow = record {
    closure_id = closure_id;
    execution_id = execution_id;
    closure_sha256 = closure_sha256;
    payload_json = payload_json;
    closed_at = at;
  }
  immediate_transaction (close new)
