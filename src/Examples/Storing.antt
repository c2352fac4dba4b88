-- ===== src/Examples/Storing.antt =====
-- The storage theorems on the script.
use model_forge.Prelude.{arith, ◌≡◌, refl, true, false, none, some, ok, err}
use model_forge.Storage.Text.{Timestamp, text, digest, json, time, is_nonblank, is_sha256}
use model_forge.Storage.Database.{immediate_transaction}
use model_forge.Storage.Schema.Rows.{RunRow, empty_hub, next_sequence, update, rowcount}
use model_forge.Storage.Schema.Control.{
  insert_project, insert_request, insert_command, insert_run, insert_run_event,
}
use model_forge.Storage.Schema.Execution.{insert_submission}
use model_forge.Storage.Commands.{create_project, record_raw_command, seal_command}
use model_forge.Storage.Runs.Swap.{
  RunTransition, select_run, select_event, select_submission, update_run, write_swap, check_swap,
  decide_swap, look_and_swap, cas_run, move_run, compare_and_swap_run,
}
use model_forge.Storage.Runs.Creation.{write_run, create_run}
use model_forge.Storage.Runs.Cancellation.{
  swap_to_requested, decide_cancellation, request_cancellation,
}
use model_forge.Storage.Runs.Sealing.{
  swap_to_submitted, write_submission, decide_submission, seal_submission,
}
use model_forge.Storage.Runs.Journal.{IsJournaled}
use model_forge.Storage.Runs.Journal.Progress.{IsValid, compare_and_swap_run_applies}
use model_forge.Storage.Operations.{perform, perform_all}
use model_forge.Storage.Operations.Atomicity.{seal_submission_undone}
use model_forge.Storage.Operations.Retries.{compare_and_swap_run_retry}
use model_forge.Storage.Operations.Invariants.{journal_always, fence_excludes_submission}
use model_forge.Storage.Operations.Conflicts.{compare_and_swap_run_effect, second_swap_refused}
use model_forge.Examples.Script.{
  sha, setup, start, rival, script, run_at, fenced_run, started, lost, reusing,
}

fenced : select_run "run-1" (perform_all script empty_hub) ≡ some fenced_run
unfolding text digest json time is_nonblank is_sha256 immediate_transaction next_sequence update
    rowcount insert_project insert_request insert_command insert_run insert_run_event
    insert_submission create_project record_raw_command seal_command update_run write_swap
    check_swap decide_swap look_and_swap cas_run move_run compare_and_swap_run write_run create_run
    swap_to_requested decide_cancellation request_cancellation swap_to_submitted write_submission
    decide_submission seal_submission perform perform_all
fenced = refl

start_applied : (compare_and_swap_run start (perform_all setup empty_hub)).0 ≡ ok started
unfolding text digest json time is_nonblank is_sha256 immediate_transaction next_sequence update
    rowcount insert_project insert_request insert_command insert_run insert_run_event create_project
    record_raw_command seal_command update_run write_swap check_swap decide_swap look_and_swap
    cas_run move_run compare_and_swap_run write_run create_run perform perform_all
start_applied = refl

rival_returned :
    (compare_and_swap_run rival (compare_and_swap_run start (perform_all setup empty_hub)).1).0
    ≡ ok lost
unfolding text digest json time is_nonblank is_sha256 immediate_transaction next_sequence update
    rowcount insert_project insert_request insert_command insert_run insert_run_event create_project
    record_raw_command seal_command update_run write_swap check_swap decide_swap look_and_swap
    cas_run move_run compare_and_swap_run write_run create_run perform perform_all
rival_returned = refl

reused_event :
    (seal_submission "submission-1" sha (some "{}") reusing (perform_all setup empty_hub)).0
    ≡ err "repository.event_id_reused"
unfolding text digest json time is_nonblank is_sha256 immediate_transaction next_sequence update
    rowcount insert_project insert_request insert_command insert_run insert_run_event
    insert_submission create_project record_raw_command seal_command update_run write_swap
    check_swap decide_swap look_and_swap cas_run write_run create_run swap_to_submitted
    write_submission decide_submission seal_submission perform perform_all
reused_event = refl

journal_always_example : IsJournaled (perform_all script empty_hub)
journal_always_example = journal_always script

fence_excludes_submission_example : select_submission "run-1" (perform_all script empty_hub) ≡ none
fence_excludes_submission_example = fence_excludes_submission script "run-1" fenced_run fenced refl

compare_and_swap_run_effect_example :
    (old new : RunRow) × (select_run "run-1" (perform_all setup empty_hub) ≡ some old)
    × (old.status ≡ "created")
    × (old.head_sequence ≡ 1)
    × (select_run "run-1" (compare_and_swap_run start (perform_all setup empty_hub)).1 ≡ some new)
    × (new.status ≡ "running")
    × (new.head_sequence ≡ 2)
    × (new.cancellation_fenced ≡ old.cancellation_fenced)
compare_and_swap_run_effect_example =
    compare_and_swap_run_effect start (perform_all setup empty_hub) (journal_always setup)
      start_applied refl

second_swap_refused_example : lost.applied ≡ false
second_swap_refused_example =
    second_swap_refused start rival (perform_all setup empty_hub) (journal_always setup) refl refl
      start_applied refl rival_returned

seal_submission_undone_example :
    (seal_submission "submission-1" sha (some "{}") reusing (perform_all setup empty_hub)).1
    ≡ perform_all setup empty_hub
seal_submission_undone_example =
    seal_submission_undone "submission-1" sha (some "{}") reusing (perform_all setup empty_hub)
      "repository.event_id_reused" reused_event

start-IsValid : IsValid start
unfolding text digest json time is_nonblank is_sha256
start-IsValid = record {
  run_id = refl;
  expected_status = refl;
  new_status = refl;
  event_id = refl;
  event_sha256 = refl;
  expected_sequence = omega arith;
  payload_json = "{}";
  payload = refl;
  event_json = "{}";
  event_payload = refl;
  at = "2025-01-01T00:00:00Z";
  recorded_at = refl;
}

set_up : select_run "run-1" (perform_all setup empty_hub) ≡ some (run_at "created" 1)
unfolding text digest json time is_nonblank is_sha256 immediate_transaction next_sequence update
    rowcount insert_project insert_request insert_command insert_run insert_run_event create_project
    record_raw_command seal_command write_run create_run perform perform_all
set_up = refl

event_unknown : select_event "event-2" (perform_all setup empty_hub) ≡ none
unfolding text digest json time is_nonblank is_sha256 immediate_transaction next_sequence update
    rowcount insert_project insert_request insert_command insert_run insert_run_event create_project
    record_raw_command seal_command write_run create_run perform perform_all
event_unknown = refl

compare_and_swap_run_applies_example :
    (r : RunTransition) × ((compare_and_swap_run start (perform_all setup empty_hub)).0 ≡ ok r)
    × (r.applied ≡ true)
    × (r.run.status ≡ "running")
compare_and_swap_run_applies_example =
    compare_and_swap_run_applies start (perform_all setup empty_hub) (run_at "created" 1)
      start-IsValid (journal_always setup) set_up refl refl event_unknown

later_stamp : time (Timestamp.stamp "2025-01-02T00:00:00Z") ≡ ok "2025-01-02T00:00:00Z"
unfolding time text is_nonblank
later_stamp = refl

compare_and_swap_run_retry_example :
    (run : RunRow) × (select_run "run-1"
        (compare_and_swap_run start (perform_all setup empty_hub)).1
      ≡ some run)
    × (compare_and_swap_run
          (record start { recorded_at = Timestamp.stamp "2025-01-02T00:00:00Z" })
          (compare_and_swap_run start (perform_all setup empty_hub)).1
        ≡ (
          ok (record { applied = false; reason = "already_applied"; run = run }),
          (compare_and_swap_run start (perform_all setup empty_hub)).1,
        ))
compare_and_swap_run_retry_example =
    compare_and_swap_run_retry start (Timestamp.stamp "2025-01-02T00:00:00Z") "2025-01-02T00:00:00Z"
      (perform_all setup empty_hub) (journal_always setup) start_applied refl later_stamp
