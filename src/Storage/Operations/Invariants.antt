-- ===== src/Storage/Operations/Invariants.antt =====
-- What holds of the database after every sequence of calls.
use model_forge.Prelude.{String, ◌≡◌, refl, true, arith, none, some, List, [], ◌∷◌}
use model_forge.Storage.Text.{Payload, Timestamp}
use model_forge.Storage.Database.Keeps.{Keeps, Keeps-insert, keeps_rules}
use model_forge.Storage.Schema.Rows.{
  Hub, ProjectRow, RequestRow, CommandRow, RunRow, empty_hub, next_sequence, rowcount,
}
use model_forge.Storage.Schema.Control.{insert_project, insert_request, insert_command}
use model_forge.Storage.Commands.{create_project, record_raw_command, seal_command}
use model_forge.Storage.Runs.Swap.{select_run, select_submission}
use model_forge.Storage.Runs.Journal.{IsJournaled}
use model_forge.Storage.Runs.Fence.{IsExclusive}
use model_forge.Storage.Runs.Fence.Methods
use model_forge.Storage.Runs.Swap.{compare_and_swap_run}
use model_forge.Storage.Runs.Creation.{create_run, freeze_manifest}
use model_forge.Storage.Runs.Cancellation.{request_cancellation}
use model_forge.Storage.Runs.Sealing.{seal_submission}
use model_forge.Storage.Database.Atomic.{after_call}
use model_forge.Storage.Operations.Atomicity.{
  create_project-IsAtomic, record_raw_command-IsAtomic, seal_command-IsAtomic, create_run-IsAtomic,
  compare_and_swap_run-IsAtomic, request_cancellation-IsAtomic, freeze_manifest-IsAtomic,
  seal_submission-IsAtomic,
}
use model_forge.Storage.Operations.{Operation, perform, perform_all}

insert_project-Keeps : (new : ProjectRow) → Keeps IsExclusive (insert_project new)
unfolding insert_project
insert_project-Keeps new = Keeps-insert _ _ _ (λ h x. record {
  journaled = record { unique = x.journaled.unique; agrees = x.journaled.agrees };
  exclusive = x.exclusive;
})

insert_request-Keeps : (new : RequestRow) → Keeps IsExclusive (insert_request new)
unfolding insert_request
insert_request-Keeps new = Keeps-insert _ _ _ (λ h x. record {
  journaled = record { unique = x.journaled.unique; agrees = x.journaled.agrees };
  exclusive = x.exclusive;
})

insert_command-Keeps : (new : CommandRow) → Keeps IsExclusive (insert_command new)
unfolding insert_command
insert_command-Keeps new = Keeps-insert _ _ _ (λ h x. record {
  journaled = record { unique = x.journaled.unique; agrees = x.journaled.agrees };
  exclusive = x.exclusive;
})

create_project-Keeps :
    (project_id : String) (payload : Payload) (created_at : Timestamp)
    → Keeps IsExclusive (create_project project_id payload created_at)
unfolding create_project
create_project-Keeps project_id payload created_at =
    search (keeps_rules, insert_project-Keeps) depth 30

record_raw_command-Keeps :
    (request_id project_id raw_sha256 : String) (payload : Payload) (received_at : Timestamp)
    → Keeps IsExclusive (record_raw_command request_id project_id raw_sha256 payload received_at)
unfolding record_raw_command
record_raw_command-Keeps request_id project_id raw_sha256 payload received_at =
    search (keeps_rules, insert_request-Keeps) depth 30

seal_command-Keeps :
    (command_id project_id raw_request_id idempotency_key command_sha256 : String)
    (payload : Payload) (sealed_at : Timestamp)
    → Keeps IsExclusive (
        seal_command command_id project_id raw_request_id idempotency_key command_sha256 payload
          sealed_at)
unfolding seal_command
seal_command-Keeps command_id project_id raw_request_id idempotency_key command_sha256 payload
      sealed_at =
    search (keeps_rules, insert_command-Keeps) depth 30

perform-IsExclusive : (o : Operation) (h : Hub) → IsExclusive h → IsExclusive (perform o h)
unfolding perform
perform-IsExclusive (Operation.create_project project payload at) h x =
    after_call (create_project project payload at) h (create_project-Keeps project payload at)
      (create_project-IsAtomic project payload at) x
perform-IsExclusive (Operation.record_raw_command request project sha payload at) h x =
    after_call (record_raw_command request project sha payload at) h
      (record_raw_command-Keeps request project sha payload at)
      (record_raw_command-IsAtomic request project sha payload at) x
perform-IsExclusive (Operation.seal_command command project raw key sha payload at) h x =
    after_call (seal_command command project raw key sha payload at) h
      (seal_command-Keeps command project raw key sha payload at)
      (seal_command-IsAtomic command project raw key sha payload at) x
perform-IsExclusive (Operation.create_run run project command status payload event sha more at) h
      x =
    after_call (create_run run project command status payload event sha more at) h
      (Methods.create_run-Keeps run project command status payload event sha more at)
      (create_run-IsAtomic run project command status payload event sha more at) x
perform-IsExclusive (Operation.compare_and_swap_run m) h x =
    after_call (compare_and_swap_run m) h (Methods.compare_and_swap_run-Keeps m)
      (compare_and_swap_run-IsAtomic m) x
perform-IsExclusive (Operation.request_cancellation command m) h x =
    after_call (request_cancellation command m) h (Methods.request_cancellation-Keeps command m)
      (request_cancellation-IsAtomic command m) x
perform-IsExclusive (Operation.freeze_manifest run sha payload at) h x =
    after_call (freeze_manifest run sha payload at) h
      (Methods.freeze_manifest-Keeps run sha payload at)
      (freeze_manifest-IsAtomic run sha payload at) x
perform-IsExclusive (Operation.seal_submission submission sha payload m) h x =
    after_call (seal_submission submission sha payload m) h
      (Methods.seal_submission-Keeps submission sha payload m)
      (seal_submission-IsAtomic submission sha payload m) x

pub perform_all-IsExclusive :
    (os : List Operation) (h : Hub) → IsExclusive h → IsExclusive (perform_all os h)
unfolding perform_all
perform_all-IsExclusive [] h x = x
perform_all-IsExclusive (o ∷ os) h x =
    perform_all-IsExclusive os (perform o h) (perform-IsExclusive o h x)

pub empty_hub-IsExclusive : IsExclusive empty_hub
unfolding next_sequence rowcount
empty_hub-IsExclusive = record {
  journaled = record { unique = λ key. omega arith; agrees = λ key. (refl, refl, refl) };
  exclusive = λ key run e fenced. refl;
}

-- After every sequence of the calls on commands and runs from the empty database: no two rows have
-- one run id, a run that is not there has no event, and a run that is there has the status and the
-- sequence of its newest event, its next event gets the following number, and it has as many events
-- as its sequence says.
pub journal_always : (os : List Operation) → IsJournaled (perform_all os empty_hub)
journal_always os = (perform_all-IsExclusive os empty_hub empty_hub-IsExclusive).journaled

-- After every sequence of the calls on commands and runs from the empty database, a run whose
-- cancellation fence is up has no sealed submission.
pub fence_excludes_submission :
    (os : List Operation) (key : String) (run : RunRow)
    → select_run key (perform_all os empty_hub) ≡ some run
    → run.cancellation_fenced ≡ true
    → select_submission key (perform_all os empty_hub) ≡ none
fence_excludes_submission os =
    (perform_all-IsExclusive os empty_hub empty_hub-IsExclusive).exclusive
