-- ===== src/Storage/Runs/Creation.antt =====
-- `create_run` and `freeze_manifest` of src/model_forge/storage/repository.py.
use model_forge.Prelude.{String, ◌==◌, false, not, ◌&&◌, Option, none, find?, if◌then◌else◌}
use model_forge.Storage.Text.{Payload, Timestamp, text, digest, json, time}
use model_forge.Storage.Database.{
  Tx, raise, lift, gets, or_raise, on_row, immediate_transaction, ◌>>=◌, ◌>>◌,
}
use model_forge.Storage.Schema.Rows.{Hub, EventRow, RunRow, ManifestRow}
use model_forge.Storage.Schema.Control.{insert_run, insert_run_event, insert_manifest}
use model_forge.Storage.Commands.{RecordResult, not_found, select_command, created, existing}
use model_forge.Storage.Runs.Swap.{select_run, select_manifest, require_run}

abbrev pub select_run_by_command : String → Hub → Option RunRow
select_run_by_command key h = find? (λ row. row.command_id == key) h.runs

-- The values of `INSERT INTO runs`; `payload_json` and `at` are already text.
abbrev pub new_run : (run_id project_id command_id status payload_json at : String) → RunRow
new_run run_id project_id command_id status payload_json at = record {
  run_id = run_id;
  project_id = project_id;
  command_id = command_id;
  status = status;
  head_sequence = 1;
  cancellation_fenced = false;
  new_role_fenced = false;
  cancellation_command_id = none;
  payload_json = payload_json;
  created_at = at;
  updated_at = at;
}

-- The values of `INSERT INTO run_events`.
abbrev pub first_event : (event_id run_id status event_sha256 event_json at : String) → EventRow
first_event event_id run_id status event_sha256 event_json at = record {
  event_id = event_id;
  run_id = run_id;
  sequence = 1;
  status = status;
  event_sha256 = event_sha256;
  payload_json = event_json;
  recorded_at = at;
}

-- The two inserts of `create_run`.
unfoldable pub write_run : RunRow → EventRow → Tx Hub (Unit {0})
write_run run event = do insert_run run; insert_run_event event

unfoldable pub create_run :
    (run_id project_id command_id status : String) (payload : Payload)
    (event_id event_sha256 : String) (event_payload : Payload) (recorded_at : Timestamp)
    → Tx Hub (RecordResult RunRow)
create_run run_id project_id command_id status payload event_id event_sha256 event_payload
      recorded_at =
    do
      lift (text run_id)
      lift (text project_id)
      lift (text command_id)
      lift (text status)
      lift (text event_id)
      lift (digest event_sha256)
      payload_json ← lift (json payload)
      event_json ← lift (json event_payload)
      at ← lift (time recorded_at)
      immediate_transaction (do
        sealed ← gets (select_command command_id)
        command ← or_raise not_found sealed
        if not (command.project_id == project_id) then raise "repository.project_mismatch" else do
          prior ← gets (select_run_by_command command_id)
          on_row prior (λ old. existing old)
              (do
                by_id ← gets (select_run run_id)
                on_row by_id (λ _. raise "repository.immutable_conflict")
                    (do
                      write_run (new_run run_id project_id command_id status payload_json at)
                          (first_event event_id run_id status event_sha256 event_json at)
                      created (select_run run_id))))

unfoldable pub freeze_manifest :
    (run_id manifest_sha256 : String) (payload : Payload) (sealed_at : Timestamp)
    → Tx Hub (RecordResult ManifestRow)
freeze_manifest run_id manifest_sha256 payload sealed_at = do
  lift (text run_id)
  lift (digest manifest_sha256)
  payload_json ← lift (json payload)
  at ← lift (time sealed_at)
  immediate_transaction (do
    require_run run_id
    row ← gets (select_manifest run_id)
    on_row row
        (λ old.
          if not (old.manifest_sha256 == manifest_sha256 && old.payload_json == payload_json)
          then raise "repository.immutable_conflict"
          else existing old)
        (do
          insert_manifest (record {
            run_id = run_id;
            manifest_sha256 = manifest_sha256;
            payload_json = payload_json;
            sealed_at = at;
          })
          created (select_manifest run_id)))
