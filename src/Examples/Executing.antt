-- ===== src/Examples/Executing.antt =====
-- The theorems on role executions and on the list of runs, at a run with one execution.
use model_forge.Prelude.{
  String, ◌==◌, List, ◌&&◌, ◌+◌, String, ◌≡◌, refl, true, false, none, ok, [], ◌∷◌,
}
use model_forge.Storage.Schema.Rows.{
  RunRow, rowcount, Hub, ExecutionRow, HeartbeatRow, ClosureRow, empty_hub,
}
use model_forge.Storage.Schema.Publication.{zero_sha256}
use model_forge.Storage.Runs.Listing.{list_incomplete_runs}
use model_forge.Storage.Runs.Listing.Ordering.{IsSorted}
use model_forge.Storage.Runs.Listing.Complete.{is_unfinished, list_incomplete_runs_lists}
use model_forge.Storage.Executions.{beat}
use model_forge.Storage.Executions.Beating.{IsNumbered, beats, beat-IsNumbered}

abbrev run_of : (run_id status created_at : String) → RunRow
run_of run_id status created_at = record {
  run_id = run_id;
  project_id = "project-1";
  command_id = "command-1";
  status = status;
  head_sequence = 2;
  cancellation_fenced = false;
  new_role_fenced = false;
  cancellation_command_id = none;
  payload_json = "{}";
  created_at = created_at;
  updated_at = created_at;
}

abbrev hub : Hub
hub = record empty_hub { runs = run_of "run-1" "running" "2025-01-01T00:00:00Z" ∷ [] }

abbrev intent : (execution_id payload_json : String) → ExecutionRow
intent execution_id payload_json = record {
  execution_id = execution_id;
  invocation_id = "invocation-1";
  run_id = "run-1";
  invocation_sha256 = zero_sha256;
  payload_json = payload_json;
  created_at = "2025-01-01T00:00:00Z";
}

abbrev closure : (closure_id closed_at : String) → ClosureRow
closure closure_id closed_at = record {
  closure_id = closure_id;
  execution_id = "execution-1";
  closure_sha256 = zero_sha256;
  payload_json = "{}";
  closed_at = closed_at;
}

abbrev heartbeat : HeartbeatRow
heartbeat = record {
  heartbeat_id = "heartbeat-1";
  execution_id = "execution-1";
  sequence = 1;
  payload_json = "{}";
  recorded_at = "2025-01-01T00:00:00Z";
}

-- Two executions, of which the first has a heartbeat.
abbrev beating : Hub
beating = record hub {
  role_execution_intents =
      (record (intent "execution-2" "{}") { invocation_id = "invocation-2" })
      ∷ intent "execution-1" "{}"
      ∷ [];
  role_execution_heartbeats = heartbeat ∷ [];
}

abbrev second : HeartbeatRow
second = record heartbeat { heartbeat_id = "heartbeat-2"; execution_id = "execution-2" }

counted : IsNumbered (heartbeat ∷ [])
unfolding rowcount
counted = (refl, tt)

beat-IsNumbered_example :
    let rows = (beat second beating).1.role_execution_heartbeats in
    let number = beats "execution-2" (heartbeat ∷ []) + 1 in
    ((beat second beating).0
      ≡ ok (record { created = true; row = record second { sequence = number } }))
    × IsNumbered rows
    × (beats "execution-2" rows ≡ number)
beat-IsNumbered_example =
    beat-IsNumbered second beating
      (record (intent "execution-2" "{}") { invocation_id = "invocation-2" }) refl refl counted

-- A run that goes on, one that is published and an older one that goes on.
abbrev listed : Hub
listed = record hub {
  runs =
      run_of "run-1" "running" "2025-01-02T00:00:00Z"
      ∷ run_of "run-2" "published" "2025-01-01T00:00:00Z"
      ∷ run_of "run-3" "correcting" "2025-01-01T00:00:00Z"
      ∷ [];
}

list_incomplete_runs_lists_example :
    (rows : List RunRow) × (list_incomplete_runs listed ≡ (ok rows, listed))
    × (rowcount (λ row. row.run_id == "run-2") rows
        ≡ rowcount (λ row. is_unfinished row.status && row.run_id == "run-2") listed.runs)
    × IsSorted rows
list_incomplete_runs_lists_example =
    list_incomplete_runs_lists (λ row. row.run_id == "run-2") listed
