-- ===== src/Application/Lifecycle/Moving.antt =====
-- What the transitions of `RunLifecycle` do to a run, whatever happened between the read and the write.
use model_forge.Prelude.{
  ◌+◌, ◌≡◌, sym, ap, ◌∙◌, String, eq_iff, some, List, ok, true, inl, inr, Option-cases, bind-ok,
  arith,
}
use model_forge.Domain.RunStatus.{RunStatus, value, of_value, require_transition}
use model_forge.Domain.RunStatus.Transitions.{Allowed}
use model_forge.Domain.RunStatus.Reading.{value-of_value}
use model_forge.Digests.Json.{Members}
use model_forge.Digests.Canonical.{canonicalize}
use model_forge.Storage.Database.{lift}
use model_forge.Storage.Database.Rules.{>>=-ok}
use model_forge.Storage.Schema.Rows.{Hub, RunRow}
use model_forge.Storage.Runs.Swap.{Move, RunTransition, select_run, compare_and_swap_run}
use model_forge.Storage.Schema.Tables.{find?-test}
use model_forge.Storage.Runs.Journal.{IsJournaled}
use model_forge.Storage.Operations.Conflicts.{compare_and_swap_run_effect}
use model_forge.Application.Lifecycle.{
  Library, Target, Update, event_document, identity_document, status_of, selected, payload_members,
  mutate, get_run, plan_transition, plan_progress, transition, progress,
}

status_of-ok : (text : String) (s : RunStatus) → status_of text ≡ ok s → value s ≡ text
status_of-ok text s e = elim (Option-cases (of_value text)) [
  | inl absent ↦ ground (arith, e, absent)
  | inr (found, there) ↦ value-of_value text s (ground (arith, e, there))
]

module _ (library : Library) where
  -- The move that is asked for expects the row that was read, and asks for the target.
  abbrev pub IsMoveOf : RunRow → (target : String) → Move → Type 0
  IsMoveOf row target move =
      (move.run_id ≡ row.run_id)
      × (move.expected_status ≡ row.status)
      × (move.expected_sequence ≡ row.head_sequence)
      × (move.new_status ≡ target)

  IsMoveOf-mutate :
      (row : RunRow) (target message : String) (payload_updates : List Update) (details : Members)
      → (now : String) → {move : Move}
      → mutate library row target message payload_updates details now ≡ ok move
      → IsMoveOf row target move
  unfolding mutate
  IsMoveOf-mutate row target message payload_updates details now e =
      let event = event_document target message now details in
      let (payload, _, e1) = bind-ok (payload_members (library.loads row.payload_json)) _ e in
      let (identity, _, e2) =
        bind-ok (canonicalize (identity_document row.run_id (row.head_sequence + 1) target event)) _
          e1 in
      let (content, _, e3) = bind-ok (canonicalize event) _ e2 in
      (ground (arith, e3), ground (arith, e3), ground (arith, e3), ground (arith, e3))

  get_run-ok :
      (run_id : String) (seen : Hub) {row : RunRow}
      → get_run run_id seen ≡ ok row
      → select_run run_id seen ≡ some row
  get_run-ok run_id seen e = elim (Option-cases (select_run run_id seen)) [
    | inl absent ↦ ground (arith, e, absent)
    | inr (found, there) ↦ ground (arith, e, there)
  ]

  plan_transition-ok :
      (run_id : String) (target : Target) (message : String) (payload_updates : List Update)
      → (details : Members) → (now : String) → (seen : Hub) → {move : Move}
      → plan_transition library run_id target message payload_updates details now seen ≡ ok move
      → (row : RunRow) × (current status : RunStatus) × (select_run run_id seen ≡ some row)
        × (value current ≡ row.status)
        × (selected target ≡ ok status)
        × Allowed current status
        × IsMoveOf row (value status) move
  unfolding plan_transition
  plan_transition-ok run_id target message payload_updates details now seen e =
      let (row, read, e1) = bind-ok (get_run run_id seen) _ e in
      let (current, known, e2) = bind-ok (status_of row.status) _ e1 in
      let (status, asked, e3) = bind-ok (selected target) _ e2 in
      let (_, allowed, e4) = bind-ok (require_transition current status) _ e3 in
      (
        row,
        current,
        status,
        get_run-ok run_id seen read,
        status_of-ok row.status current known,
        asked,
        allowed,
        IsMoveOf-mutate row (value status) message payload_updates details now e4,
      )

  transition_runs :
      (run_id : String) (target : Target) (message : String) (payload_updates : List Update)
      → (details : Members) → (now : String) → (seen h : Hub) → {r : RunTransition}
      → (transition library run_id target message payload_updates details now seen h).0 ≡ ok r
      → (move : Move) × (plan_transition library run_id target message payload_updates details now
            seen
          ≡ ok move)
        × (transition library run_id target message payload_updates details now seen h
            ≡ compare_and_swap_run move h)
  unfolding transition
  transition_runs run_id target message payload_updates details now seen h e =
      >>=-ok (lift (plan_transition library run_id target message payload_updates details now seen))
        _ h e

  progress_runs :
      (run_id message : String) (payload_updates : List Update) (details : Members) (now : String)
      → (seen h : Hub) → {r : RunTransition}
      → (progress library run_id message payload_updates details now seen h).0 ≡ ok r
      → (move : Move) × (plan_progress library run_id message payload_updates details now seen
          ≡ ok move)
        × (progress library run_id message payload_updates details now seen h
            ≡ compare_and_swap_run move h)
  unfolding progress
  progress_runs run_id message payload_updates details now seen h e =
      >>=-ok (lift (plan_progress library run_id message payload_updates details now seen)) _ h e

  plan_progress-ok :
      (run_id message : String) (payload_updates : List Update) (details : Members) (now : String)
      → (seen : Hub) → {move : Move}
      → plan_progress library run_id message payload_updates details now seen ≡ ok move
      → (row : RunRow) × (select_run run_id seen ≡ some row) × IsMoveOf row row.status move
  unfolding plan_progress
  plan_progress-ok run_id message payload_updates details now seen e =
      let (row, read, e1) = bind-ok (get_run run_id seen) _ e in
      (
        row,
        get_run-ok run_id seen read,
        IsMoveOf-mutate row row.status message payload_updates details now e1,
      )

  row_id :
      (run_id : String) (seen : Hub) (row : RunRow)
      → select_run run_id seen ≡ some row
      → row.run_id ≡ run_id
  row_id run_id seen row e = (eq_iff row.run_id run_id).0 (find?-test _ seen.runs row e)

  -- An applied transition, whatever calls of others came between its read and its write in a journaled
  -- database: it takes the run from the status that it has at the write to the target, which the
  -- transition table allows from there, with the next sequence.
  pub transition_follows_table :
      (run_id : String) (target : Target) (message : String) (payload_updates : List Update)
      → (details : Members) → (now : String) → (seen h : Hub) → {r : RunTransition} → IsJournaled h
      → (transition library run_id target message payload_updates details now seen h).0 ≡ ok r
      → r.applied ≡ true
      → (old new : RunRow) × (current status : RunStatus) × (select_run run_id h ≡ some old)
        × (old.status ≡ value current)
        × (selected target ≡ ok status)
        × Allowed current status
        × (select_run run_id
              (transition library run_id target message payload_updates details now seen h).1
            ≡ some new)
        × (new.status ≡ value status)
        × (new.head_sequence ≡ old.head_sequence + 1)
  transition_follows_table run_id target message payload_updates details now seen h journaled e
        applied =
      let (move, planned, same) =
        transition_runs run_id target message payload_updates details now seen h e in
      let (row, current, status, read, known, asked, allowed, (at_run, from, sequence, to)) =
        plan_transition-ok run_id target message payload_updates details now seen planned in
      let (old, new, found, was, counted, there, is, next, _) =
        compare_and_swap_run_effect move h journaled (rw same at e) applied in
      let of_run : move.run_id ≡ run_id = at_run ∙ row_id run_id seen row read in
      (
        old,
        new,
        current,
        status,
        ap (λ key. select_run key h) (sym of_run) ∙ found,
        was ∙ from ∙ sym known,
        asked,
        allowed,
        rw same (ap (λ key. select_run key (compare_and_swap_run move h).1) (sym of_run) ∙ there),
        is ∙ to,
        next ∙ ap (λ n. n + 1) (sym counted),
      )

  -- An applied report of progress, whatever calls of others came between its read and its write in a
  -- journaled database, leaves the status of the run and takes its sequence to the next one.
  pub progress_keeps_status :
      (run_id message : String) (payload_updates : List Update) (details : Members) (now : String)
      → (seen h : Hub) → {r : RunTransition} → IsJournaled h
      → (progress library run_id message payload_updates details now seen h).0 ≡ ok r
      → r.applied ≡ true
      → (old new : RunRow) × (select_run run_id h ≡ some old)
        × (select_run run_id (progress library run_id message payload_updates details now seen h).1
            ≡ some new)
        × (new.status ≡ old.status)
        × (new.head_sequence ≡ old.head_sequence + 1)
  progress_keeps_status run_id message payload_updates details now seen h journaled e applied =
      let (move, planned, same) =
        progress_runs run_id message payload_updates details now seen h e in
      let (row, read, (at_run, from, sequence, to)) =
        plan_progress-ok run_id message payload_updates details now seen planned in
      let (old, new, found, was, counted, there, is, next, _) =
        compare_and_swap_run_effect move h journaled (rw same at e) applied in
      let of_run : move.run_id ≡ run_id = at_run ∙ row_id run_id seen row read in
      (
        old,
        new,
        ap (λ key. select_run key h) (sym of_run) ∙ found,
        rw same (ap (λ key. select_run key (compare_and_swap_run move h).1) (sym of_run) ∙ there),
        is ∙ to ∙ sym (was ∙ from),
        next ∙ ap (λ n. n + 1) (sym counted),
      )
