-- ===== src/Examples/Script.antt =====
-- A client's script: two sealed commands, a run that is created, moved and cancelled, and more moves.
use model_forge.Prelude.{ℕ, String, true, false, none, some, List, [], ◌∷◌, ◌++◌}
use model_forge.Storage.Text.{Timestamp}
use model_forge.Storage.Schema.Rows.{RunRow}
use model_forge.Storage.Schema.Publication.{zero_sha256}
use model_forge.Storage.Runs.Swap.{RunTransition, Move}
use model_forge.Storage.Operations.{Operation}

abbrev pub sha : String
sha = zero_sha256

abbrev pub at : Timestamp
at = Timestamp.stamp "2025-01-01T00:00:00Z"

abbrev pub move : (event expected new : String) → ℕ → Move
move event expected new sequence = record {
  run_id = "run-1";
  expected_status = expected;
  expected_sequence = sequence;
  new_status = new;
  payload = some "{}";
  event_id = event;
  event_sha256 = sha;
  event_payload = some "{}";
  recorded_at = at;
}

-- One project, two sealed commands and a run.
abbrev pub setup : List Operation
setup =
    Operation.create_project "project-1" (some "{}") at
    ∷ Operation.record_raw_command "request-1" "project-1" sha (some "{}") at
    ∷ Operation.seal_command "command-1" "project-1" "request-1" "key-1" sha (some "{}") at
    ∷ Operation.record_raw_command "request-2" "project-1" sha (some "{}") at
    ∷ Operation.seal_command "command-2" "project-1" "request-2" "key-2" sha (some "{}") at
    ∷ Operation.create_run "run-1" "project-1" "command-1" "created" (some "{}") "event-1" sha
        (some "{}") at
    ∷ []

abbrev pub start : Move
start = move "event-2" "created" "running" 1

abbrev pub rival : Move
rival = move "event-3" "created" "failed" 1

-- The run is started, cancelled, and then asked to submit.
abbrev pub script : List Operation
script =
    setup
    ++ Operation.compare_and_swap_run start
      ∷ Operation.request_cancellation "command-2" (move "event-4" "running" "" 2)
      ∷ Operation.seal_submission "submission-1" sha (some "{}")
          (move "event-5" "running" "submitted" 2)
      ∷ []

abbrev pub run_at : (status : String) → ℕ → RunRow
run_at status sequence = record {
  run_id = "run-1";
  project_id = "project-1";
  command_id = "command-1";
  status = status;
  head_sequence = sequence;
  cancellation_fenced = false;
  new_role_fenced = false;
  cancellation_command_id = none;
  payload_json = "{}";
  created_at = "2025-01-01T00:00:00Z";
  updated_at = "2025-01-01T00:00:00Z";
}

abbrev pub fenced_run : RunRow
fenced_run = record (run_at "cancellation_requested" 3) {
  cancellation_fenced = true;
  new_role_fenced = true;
  cancellation_command_id = some "command-2";
}

abbrev pub started : RunTransition
started = record { applied = true; reason = "applied"; run = run_at "running" 2 }

abbrev pub lost : RunTransition
lost = record { applied = false; reason = "compare_and_swap_failed"; run = run_at "running" 2 }

-- The event id was used before, which shows only after the submission was inserted.
abbrev pub reusing : Move
reusing = move "event-1" "created" "submitted" 1
