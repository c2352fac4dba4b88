-- ===== src/Examples/Moving.antt =====
-- The theorems on the lifecycle of a run, at the run of the client's script.
use model_forge.Prelude.{◌+◌, ◌≡◌, refl, String, some, [], ok, true}
use model_forge.Domain.RunStatus.{
  RunStatus, value, of_value, status_eq, contains, transitions, require_transition,
}
use model_forge.Domain.RunStatus.Transitions.{Allowed}
use model_forge.Digests.Json.{
  Value, Members, digits, abs, show, hex_digit, escape, escaped, quote, utf8, utf8_bytes,
}
use model_forge.Digests.Utf16.{is_valid, utf16, sort_key, bytes_le}
use model_forge.Digests.Canonical.{
  serialize_text, insert, sort, serialize_member, join, serialize_members, serialize_dict,
  serialize, serialize_items, render, canonicalize,
}
use model_forge.Storage.Text.{text, digest, json, time, is_nonblank, is_sha256}
use model_forge.Storage.Database.{immediate_transaction}
use model_forge.Storage.Schema.Rows.{Hub, RunRow, empty_hub, next_sequence, update, rowcount}
use model_forge.Storage.Schema.Control.{
  insert_project, insert_request, insert_command, insert_run, insert_run_event,
}
use model_forge.Storage.Commands.{create_project, record_raw_command, seal_command}
use model_forge.Storage.Runs.Swap.{
  RunTransition, select_run, update_run, write_swap, check_swap, decide_swap, look_and_swap,
  cas_run, move_run, compare_and_swap_run,
}
use model_forge.Storage.Runs.Creation.{write_run, create_run}
use model_forge.Storage.Operations.{perform, perform_all}
use model_forge.Storage.Operations.Invariants.{journal_always}
use model_forge.Application.Lifecycle.{
  Library, Target, set_member, update_members, selected, payload_members, mutate, plan_transition,
  plan_progress, transition, progress,
}
use model_forge.Application.Lifecycle.Moving.{transition_follows_table, progress_keeps_status}
use model_forge.Examples.Script.{sha, setup, run_at}

abbrev library : Library
library = record {
  loads = λ payload_json. some (Value.dict Members.no_members);
  dumps = λ document. some "{}";
  sha256 = λ bytes. sha;
}

abbrev now : String
now = "2025-01-02T00:00:00Z"

abbrev hub : Hub
hub = perform_all setup empty_hub

abbrev moved : (status : String) → RunTransition
moved status = record {
  applied = true;
  reason = "applied";
  run = record (run_at status 2) { updated_at = now };
}

prepared :
    (transition library "run-1"
      (Target.raw "preparing")
      "Preparing."
      []
      Members.no_members
      now
      hub
      hub).0
    ≡ ok (moved "preparing")
unfolding text digest json time is_nonblank is_sha256 immediate_transaction next_sequence update
    rowcount insert_project insert_request insert_command insert_run insert_run_event create_project
    record_raw_command seal_command update_run write_swap check_swap decide_swap look_and_swap
    cas_run move_run compare_and_swap_run write_run create_run perform perform_all value of_value
    status_eq contains transitions require_transition digits abs show hex_digit escape escaped quote
    utf8 utf8_bytes is_valid utf16 sort_key bytes_le serialize_text insert sort serialize_member
    join serialize_members serialize_dict serialize serialize_items render canonicalize set_member
    update_members selected payload_members mutate plan_transition transition
prepared = refl

reported :
    (progress library "run-1" "Waiting." [] Members.no_members now hub hub).0 ≡ ok (moved "created")
unfolding text digest json time is_nonblank is_sha256 immediate_transaction next_sequence update
    rowcount insert_project insert_request insert_command insert_run insert_run_event create_project
    record_raw_command seal_command update_run write_swap check_swap decide_swap look_and_swap
    cas_run move_run compare_and_swap_run write_run create_run perform perform_all digits abs show
    hex_digit escape escaped quote utf8 utf8_bytes is_valid utf16 sort_key bytes_le serialize_text
    insert sort serialize_member join serialize_members serialize_dict serialize serialize_items
    render canonicalize set_member update_members payload_members mutate plan_progress progress
reported = refl

transition_follows_table_example :
    (old new : RunRow) × (current status : RunStatus) × (select_run "run-1" hub ≡ some old)
    × (old.status ≡ value current)
    × (selected (Target.raw "preparing") ≡ ok status)
    × Allowed current status
    × (select_run "run-1"
          (transition library "run-1"
            (Target.raw "preparing")
            "Preparing."
            []
            Members.no_members
            now
            hub
            hub).1
        ≡ some new)
    × (new.status ≡ value status)
    × (new.head_sequence ≡ old.head_sequence + 1)
transition_follows_table_example =
    transition_follows_table library "run-1" (Target.raw "preparing") "Preparing." []
      Members.no_members now hub hub (journal_always setup) prepared refl

progress_keeps_status_example :
    (old new : RunRow) × (select_run "run-1" hub ≡ some old)
    × (select_run "run-1" (progress library "run-1" "Waiting." [] Members.no_members now hub hub).1
        ≡ some new)
    × (new.status ≡ old.status)
    × (new.head_sequence ≡ old.head_sequence + 1)
progress_keeps_status_example =
    progress_keeps_status library "run-1" "Waiting." [] Members.no_members now hub hub
      (journal_always setup) reported refl
