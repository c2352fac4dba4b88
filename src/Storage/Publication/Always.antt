-- ===== src/Storage/Publication/Always.antt =====
-- The ledgers of all projects, over sequences of every modelled call on commands, runs and
-- publications.
use model_forge.Prelude.{String, refl, Option, none, some, List, [], ◌∷◌, arith}
use model_forge.Storage.Text.{Payload, Timestamp}
use model_forge.Storage.Database.Stays.{Stays, stays_rules}
use model_forge.Storage.Database.Atomic.{after_call}
use model_forge.Storage.Schema.Rows.{Hub, RunRow, EventRow, rowcount, empty_hub}
use model_forge.Storage.Commands
use model_forge.Storage.Commands.{select_project}
use model_forge.Storage.Runs.Swap.{
  Swap, Move, update_run, write_swap, check_swap, decide_swap, look_and_swap, cas_run, move_run,
  compare_and_swap_run,
}
use model_forge.Storage.Runs.Creation.{write_run, create_run, freeze_manifest}
use model_forge.Storage.Runs.Cancellation.{
  swap_to_requested, decide_cancellation, request_cancellation,
}
use model_forge.Storage.Runs.Sealing.{
  swap_to_submitted, write_submission, decide_submission, seal_submission,
}
use model_forge.Storage.Operations
use model_forge.Storage.Operations.{Operation}
use model_forge.Storage.Publication.Sealing.{Write, Basis, publication_transaction}
use model_forge.Storage.Publication.Ledger.{digests, IsLedger}
use model_forge.Storage.Publication.Committed.{
  publication_transaction-Keeps, publication_transaction-IsAtomic,
}
use model_forge.Storage.Publication.Calls.{
  insert_project-Stays, insert_request-Stays, insert_command-Stays, insert_run-Stays,
  insert_run_event-Stays, insert_manifest-Stays, insert_submission-Stays,
}

-- A call of a client.
pub data Call : Type 0 where
  operation : Operation → Call
  publication : Basis → List Write → Call

module _ (chained : (root content : String) → String) where
  -- The database after one call, whether it returned or raised.
  unfoldable pub call : Call → Hub → Hub
  call (operation o) h = Operations.perform o h
  call (publication b ws) h = (publication_transaction chained b ws h).1

  unfoldable pub call_all : List Call → Hub → Hub
  call_all [] h = h
  call_all (c ∷ cs) h = call_all cs (call c h)

  update_run-Stays :
      (q : Swap) (extra : RunRow → RunRow) → Stays (IsLedger chained) (update_run q extra)
  unfolding update_run
  update_run-Stays q extra = record { after = λ h l. l }

  write_swap-Stays :
      (q : Swap) (extra : RunRow → RunRow) → Stays (IsLedger chained) (write_swap q extra)
  unfolding write_swap
  write_swap-Stays q extra = search (stays_rules, update_run-Stays, insert_run_event-Stays) depth 40

  decide_swap-Stays :
      (q : Swap) (extra : RunRow → RunRow) (prior : Option EventRow) (run : RunRow)
      → Stays (IsLedger chained) (decide_swap q extra prior run)
  unfolding decide_swap
  decide_swap-Stays q extra none run = search (stays_rules, write_swap-Stays) depth 10
  decide_swap-Stays q extra (some prior) run = search stays_rules depth 10

  cas_run-Stays : (q : Swap) (extra : RunRow → RunRow) → Stays (IsLedger chained) (cas_run q extra)
  unfolding cas_run check_swap look_and_swap
  cas_run-Stays q extra = search (stays_rules, decide_swap-Stays) depth 40

  create_run-Stays :
      (run_id project_id command_id status : String) (payload : Payload)
      (event_id event_sha256 : String) (event_payload : Payload) (recorded_at : Timestamp)
      → Stays (IsLedger chained) (
          create_run run_id project_id command_id status payload event_id event_sha256 event_payload
            recorded_at)
  unfolding create_run write_run
  create_run-Stays run_id project_id command_id status payload event_id event_sha256 event_payload
        recorded_at =
      search (stays_rules, insert_run-Stays, insert_run_event-Stays) depth 60

  request_cancellation-Stays :
      (command_id : String) (m : Move)
      → Stays (IsLedger chained) (request_cancellation command_id m)
  unfolding request_cancellation decide_cancellation swap_to_requested
  request_cancellation-Stays command_id m = search (stays_rules, cas_run-Stays) depth 60

  seal_submission-Stays :
      (submission_id submission_sha256 : String) (submission_payload : Payload) (m : Move)
      → Stays
          (IsLedger chained)
          (seal_submission submission_id submission_sha256 submission_payload m)
  unfolding seal_submission decide_submission write_submission swap_to_submitted
  seal_submission-Stays submission_id submission_sha256 submission_payload m =
      search (stays_rules, insert_submission-Stays, cas_run-Stays) depth 60

  perform-IsLedger :
      (o : Operation) (h : Hub) → IsLedger chained h → IsLedger chained (Operations.perform o h)
  unfolding Operations.perform Commands.create_project Commands.record_raw_command
      Commands.seal_command compare_and_swap_run move_run freeze_manifest
  perform-IsLedger (Operation.create_project project payload at) h l =
      let k : Stays (IsLedger chained) (Commands.create_project project payload at) =
        search (stays_rules, insert_project-Stays) depth 40 in
      k.after h l
  perform-IsLedger (Operation.record_raw_command request project sha payload at) h l =
      let k : Stays (IsLedger chained)
          (Commands.record_raw_command request project sha payload at) =
        search (stays_rules, insert_request-Stays) depth 40 in
      k.after h l
  perform-IsLedger (Operation.seal_command command project raw key sha payload at) h l =
      let k : Stays (IsLedger chained)
          (Commands.seal_command command project raw key sha payload at) =
        search (stays_rules, insert_command-Stays) depth 60 in
      k.after h l
  perform-IsLedger (Operation.create_run run project command status payload event sha more at) h l =
      (create_run-Stays run project command status payload event sha more at).after h l
  perform-IsLedger (Operation.compare_and_swap_run m) h l =
      let k : Stays (IsLedger chained) (compare_and_swap_run m) =
        search (stays_rules, cas_run-Stays) depth 40 in
      k.after h l
  perform-IsLedger (Operation.request_cancellation command m) h l =
      (request_cancellation-Stays command m).after h l
  perform-IsLedger (Operation.freeze_manifest run sha payload at) h l =
      let k : Stays (IsLedger chained) (freeze_manifest run sha payload at) =
        search (stays_rules, insert_manifest-Stays) depth 40 in
      k.after h l
  perform-IsLedger (Operation.seal_submission submission sha payload m) h l =
      (seal_submission-Stays submission sha payload m).after h l

  call-IsLedger : (c : Call) (h : Hub) → IsLedger chained h → IsLedger chained (call c h)
  unfolding call
  call-IsLedger (operation o) h l = perform-IsLedger o h l
  call-IsLedger (publication b ws) h l =
      after_call (publication_transaction chained b ws) h
        (publication_transaction-Keeps chained b ws) (publication_transaction-IsAtomic chained b ws)
        l

  call_all-IsLedger :
      (cs : List Call) (h : Hub) → IsLedger chained h → IsLedger chained (call_all cs h)
  unfolding call_all
  call_all-IsLedger [] h l = l
  call_all-IsLedger (c ∷ cs) h l = call_all-IsLedger cs (call c h) (call-IsLedger c h l)

  empty_hub-IsLedger : IsLedger chained empty_hub
  unfolding digests rowcount
  empty_hub-IsLedger = record { unique = λ key. omega arith; chain = tt; heads = λ key. refl }

  -- After every sequence of the modelled calls on commands, runs and publications from the empty
  -- database: project ids are unique; every authority event has the number and the prior root of its
  -- place in the chain of its project, and its root is made of that root and its content digest; and
  -- the row of each project has as its authority sequence the number of the events of the project,
  -- and as its root the fold of their content digests from the zero root.
  pub IsLedger-always : (cs : List Call) → IsLedger chained (call_all cs empty_hub)
  IsLedger-always cs = call_all-IsLedger cs empty_hub empty_hub-IsLedger
