-- ===== src/Storage/Runs/Cancellation.antt =====
-- `request_cancellation` of src/model_forge/storage/repository.py.
pub mod Decision
use model_forge.Prelude.{
  String, ◌==◌, true, not, ◌||◌, none, some, nat_eq, option_eq, if◌then◌else◌,
}
use model_forge.Storage.Text.{text, json, time}
use model_forge.Storage.Database.{
  Tx, raise, lift, gets, or_raise, on_row, immediate_transaction, ◌>>=◌, ◌>>◌,
}
use model_forge.Storage.Schema.Rows.{Hub, RunRow}
use model_forge.Storage.Commands.{not_found, select_command}
use model_forge.Storage.Runs.Swap.{
  RunTransition, select_submission, require_run, refused, cas_run, Move, swap_of,
}

-- `cancellation_fenced = 1, new_role_fenced = 1, cancellation_command_id = ?`
abbrev pub fence : String → RunRow → RunRow
fence command_id row = record row {
  cancellation_fenced = true;
  new_role_fenced = true;
  cancellation_command_id = some command_id;
}

-- The call of `_cas_run` in `request_cancellation`; `new_status` of the move is not read.
unfoldable pub swap_to_requested : String → Move → String → Tx Hub RunTransition
swap_to_requested command_id m at = do
  payload_json ← lift (json m.payload)
  event_json ← lift (json m.event_payload)
  let q = swap_of m payload_json event_json at
  cas_run (record q { new_status = "cancellation_requested" }) (fence command_id)

-- The body of the transaction of `request_cancellation`.
unfoldable pub decide_cancellation : String → Move → String → Tx Hub RunTransition
decide_cancellation command_id m at = do
  run ← require_run m.run_id
  row ← gets (select_command command_id)
  command ← or_raise not_found row
  if not (command.project_id == run.project_id)
      then raise "repository.project_mismatch"
      else if option_eq run.cancellation_command_id (some command_id)
      then refused "already_applied" run
      else do
        submitted ← gets (select_submission m.run_id)
        on_row submitted (λ _. refused "already_submitted" run)
            (if run.cancellation_fenced
              then refused "cancellation_fenced" run
              else if not (run.status == m.expected_status)
                  || not (nat_eq run.head_sequence m.expected_sequence)
              then refused "compare_and_swap_failed" run
              else swap_to_requested command_id m at)

unfoldable pub request_cancellation : String → Move → Tx Hub RunTransition
request_cancellation command_id m = do
  lift (text m.run_id)
  lift (text command_id)
  at ← lift (time m.recorded_at)
  immediate_transaction (decide_cancellation command_id m at)
