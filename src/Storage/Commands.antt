-- ===== src/Storage/Commands.antt =====
-- src/model_forge/storage/repository.py: projects, raw command requests and sealed commands.
use model_forge.Prelude.{String, ◌==◌, Bool, true, false, not, ◌&&◌, Option, find?, if◌then◌else◌}
use model_forge.Storage.Text.{Payload, Timestamp, text, digest, json, time}
use model_forge.Storage.Database.{
  Tx, pure, raise, lift, gets, or_raise, on_row, immediate_transaction, ◌>>=◌, ◌>>◌,
}
use model_forge.Storage.Schema.Rows.{Hub, ProjectRow, RequestRow, CommandRow}
use model_forge.Storage.Schema.Control.{insert_project, insert_request, insert_command}
use model_forge.Storage.Schema.Publication.{zero_sha256}

-- `RecordResult`: whether the row was created, and the row.
pub record RecordResult (Row : Type 0) : Type 0 where
  pub created : Bool
  pub row : Row

-- `_not_found`
abbrev pub not_found : String
not_found = "repository.not_found"

-- `assert row is not None`
abbrev pub assertion_error : String
assertion_error = "AssertionError"

abbrev pub select_project : String → Hub → Option ProjectRow
select_project key h = find? (λ row. row.project_id == key) h.projects

abbrev pub select_request : String → Hub → Option RequestRow
select_request key h = find? (λ row. row.request_id == key) h.raw_command_requests

abbrev pub select_command : String → Hub → Option CommandRow
select_command key h = find? (λ row. row.command_id == key) h.sealed_commands

abbrev select_by_idempotency : String → String → Hub → Option CommandRow
select_by_idempotency project_id key h =
    find? (λ row. row.project_id == project_id && row.idempotency_key == key) h.sealed_commands

abbrev pub require_project : String → Tx Hub ProjectRow
require_project key = do row ← gets (select_project key); or_raise not_found row

-- The row that was inserted, read again.
abbrev pub created : {Row : Type 0} → (Hub → Option Row) → Tx Hub (RecordResult Row)
created select = do
  again ← gets select
  row ← or_raise assertion_error again
  pure (record { created = true; row = row })

abbrev pub existing : {Row : Type 0} → Row → Tx Hub (RecordResult Row)
existing row = pure (record { created = false; row = row })

unfoldable pub create_project :
    (project_id : String) (payload : Payload) (created_at : Timestamp)
    → Tx Hub (RecordResult ProjectRow)
create_project project_id payload created_at = do
  lift (text project_id)
  payload_json ← lift (json payload)
  at ← lift (time created_at)
  immediate_transaction (do
    row ← gets (select_project project_id)
    on_row row
        (λ old.
          if not (old.payload_json == payload_json)
          then raise "repository.immutable_conflict"
          else existing old)
        (do
          insert_project (record {
            project_id = project_id;
            payload_json = payload_json;
            revision = 1;
            authority_sequence = 0;
            authority_root_sha256 = zero_sha256;
            current_revision = 0;
            created_at = at;
            updated_at = at;
          })
          created (select_project project_id)))

unfoldable pub record_raw_command :
    (request_id project_id raw_sha256 : String) (payload : Payload) (received_at : Timestamp)
    → Tx Hub (RecordResult RequestRow)
record_raw_command request_id project_id raw_sha256 payload received_at = do
  lift (text request_id)
  lift (text project_id)
  lift (digest raw_sha256)
  payload_json ← lift (json payload)
  at ← lift (time received_at)
  immediate_transaction (do
    require_project project_id
    row ← gets (select_request request_id)
    on_row row
        (λ old.
          if not (
            old.project_id == project_id
            && old.raw_sha256 == raw_sha256
            && old.payload_json == payload_json)
          then raise "repository.immutable_conflict"
          else existing old)
        (do
          insert_request (record {
            request_id = request_id;
            project_id = project_id;
            raw_sha256 = raw_sha256;
            payload_json = payload_json;
            received_at = at;
          })
          created (select_request request_id)))

unfoldable pub seal_command :
    (command_id project_id raw_request_id idempotency_key command_sha256 : String)
    (payload : Payload) (sealed_at : Timestamp)
    → Tx Hub (RecordResult CommandRow)
seal_command command_id project_id raw_request_id idempotency_key command_sha256 payload sealed_at =
    do
      lift (text command_id)
      lift (text project_id)
      lift (text raw_request_id)
      lift (text idempotency_key)
      lift (digest command_sha256)
      payload_json ← lift (json payload)
      at ← lift (time sealed_at)
      immediate_transaction (do
        request ← gets (select_request raw_request_id)
        raw ← or_raise not_found request
        if not (raw.project_id == project_id) then raise "repository.project_mismatch" else do
          row ← gets (select_by_idempotency project_id idempotency_key)
          on_row row
              (λ old.
                if not (
                  old.command_id == command_id
                  && old.command_sha256 == command_sha256
                  && old.payload_json == payload_json)
                then raise "repository.idempotency_key_reused"
                else existing old)
              (do
                by_id ← gets (select_command command_id)
                on_row by_id (λ other. raise "repository.immutable_conflict")
                    (do
                      insert_command (record {
                        command_id = command_id;
                        project_id = project_id;
                        raw_request_id = raw_request_id;
                        idempotency_key = idempotency_key;
                        command_sha256 = command_sha256;
                        payload_json = payload_json;
                        sealed_at = at;
                      })
                      created (select_command command_id))))
