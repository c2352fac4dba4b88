-- ===== src/Storage/Executions/Retrying.antt =====
-- Retries of role executions: a call that is made again finds what the first one recorded.
use mathlib.Core.Path.{subst}
use text.Mathlib.TextPositions.{eq_refl}
use model_forge.Prelude.{
  ◌≡◌, eq_iff, sym, ap, ◌∙◌, inl, inr, true, false, some, ok, err, arith, Option-cases,
  if◌then◌else◌,
}
use model_forge.Storage.Schema.Rows.{Hub, RunRow, ExecutionRow, ClosureRow}
use model_forge.Storage.Schema.Execution.{insert_execution, insert_closure}
use model_forge.Storage.Commands.{RecordResult}
use model_forge.Storage.Runs.Swap.{select_run}
use model_forge.Storage.Executions.{
  select_execution, select_invocation, select_closure, same_intent, same_closure, intend, close,
}

-- What the transaction of `close_execution` leaves when it returns: the execution, and a closure that
-- has the content asked for and is the one returned.
close-found :
    (new : ClosureRow) (h : Hub) {r : RecordResult ClosureRow}
    → (close new h).0 ≡ ok r
    → (execution : ExecutionRow) × (select_execution new.execution_id (close new h).1
        ≡ some execution)
      × (select_closure new.execution_id (close new h).1 ≡ some r.row)
      × (same_closure new r.row ≡ true)
unfolding close insert_closure
close-found new h e = elim (Option-cases (select_execution new.execution_id h)) [
  | inl absent ↦ ground (arith, e)
  | inr (execution, there) ↦ (
    execution,
    ground (arith, e, eq_refl new.execution_id),
    ground (arith, e, eq_refl new.execution_id),
    ground (arith, e, eq_refl new.closure_id, eq_refl new.closure_sha256, eq_refl new.payload_json),
  )
]

intend-found :
    (new : ExecutionRow) (h : Hub) {r : RecordResult ExecutionRow}
    → (intend new h).0 ≡ ok r
    → (run : RunRow) × (select_run new.run_id (intend new h).1 ≡ some run)
      × (select_invocation new.invocation_id (intend new h).1 ≡ some r.row)
      × (same_intent new r.row ≡ true)
unfolding intend insert_execution
intend-found new h e = elim (Option-cases (select_run new.run_id h)) [
  | inl absent ↦ ground (arith, e)
  | inr (run, there) ↦ (
    run,
    ground (arith, e),
    ground (arith, e, eq_refl new.execution_id, eq_refl new.invocation_id),
    ground (
      arith,
      e,
      eq_refl new.execution_id,
      eq_refl new.run_id,
      eq_refl new.invocation_sha256,
      eq_refl new.payload_json,
    ),
  )
]

close-present :
    (new : ClosureRow) (h : Hub) (execution : ExecutionRow) (old : ClosureRow)
    → select_execution new.execution_id h ≡ some execution
    → select_closure new.execution_id h ≡ some old
    → close new h ≡ (
        if same_closure new old
        then (ok (record { created = false; row = old }), h)
        else (err "repository.execution_conflict", h))
unfolding close
close-present new h execution old there found = ground (arith, there, found)

intend-present :
    (new : ExecutionRow) (h : Hub) (run : RunRow) (old : ExecutionRow)
    → select_run new.run_id h ≡ some run
    → select_invocation new.invocation_id h ≡ some old
    → intend new h ≡ (
        if same_intent new old
        then (ok (record { created = false; row = old }), h)
        else (err "repository.execution_conflict", h))
unfolding intend
intend-present new h run old there found = ground (arith, there, found)

same_closure_as :
    (new' new old : ClosureRow)
    → same_closure new old ≡ true
    → same_closure new' old ≡ same_closure new' new
same_closure_as new' new old same = ground (
  arith,
  same,
  (eq_iff old.closure_id new.closure_id).0,
  (eq_iff old.closure_sha256 new.closure_sha256).0,
  (eq_iff old.payload_json new.payload_json).0,
)

same_intent_as :
    (new' new old : ExecutionRow)
    → same_intent new old ≡ true
    → same_intent new' old ≡ same_intent new' new
same_intent_as new' new old same = ground (
  arith,
  same,
  (eq_iff old.run_id new.run_id).0,
  (eq_iff old.invocation_sha256 new.invocation_sha256).0,
  (eq_iff old.payload_json new.payload_json).0,
)

-- After the transaction of `close_execution` returned a closure, that of a second call for the same
-- execution changes nothing: it returns that closure as not created if the content is the same,
-- whatever the time, and raises a conflict if not.
pub close_again :
    (new new' : ClosureRow) (h : Hub) {r : RecordResult ClosureRow}
    → (close new h).0 ≡ ok r
    → new'.execution_id ≡ new.execution_id
    → close new' (close new h).1 ≡ (
        if same_closure new' new
        then (ok (record { created = false; row = r.row }), (close new h).1)
        else (err "repository.execution_conflict", (close new h).1))
close_again new new' h {r = r} e same_id =
    let (execution, there, found, same) = close-found new h e in
    let h' = (close new h).1 in
    let again =
      close-present new' h' execution r.row
        (subst (λ k. select_execution k h' ≡ some execution) (sym same_id) there)
        (subst (λ k. select_closure k h' ≡ some r.row) (sym same_id) found) in
    again
    ∙ ap
        (λ b.
          if b
          then (ok (record { created = false; row = r.row }), h')
          else (err "repository.execution_conflict", h'))
        (same_closure_as new' new r.row same)

-- After the transaction of `get_or_create_execution` returned an intent, that of a second call for
-- the same invocation and run changes nothing: it returns that intent as not created if the content
-- is the same, whatever execution id and time it has, and raises a conflict if not.
pub intend_again :
    (new new' : ExecutionRow) (h : Hub) {r : RecordResult ExecutionRow}
    → (intend new h).0 ≡ ok r
    → new'.invocation_id ≡ new.invocation_id
    → new'.run_id ≡ new.run_id
    → intend new' (intend new h).1 ≡ (
        if same_intent new' new
        then (ok (record { created = false; row = r.row }), (intend new h).1)
        else (err "repository.execution_conflict", (intend new h).1))
intend_again new new' h {r = r} e same_invocation same_run =
    let (run, there, found, same) = intend-found new h e in
    let h' = (intend new h).1 in
    let again =
      intend-present new' h' run r.row
        (subst (λ k. select_run k h' ≡ some run) (sym same_run) there)
        (subst (λ k. select_invocation k h' ≡ some r.row) (sym same_invocation) found) in
    again
    ∙ ap
        (λ b.
          if b
          then (ok (record { created = false; row = r.row }), h')
          else (err "repository.execution_conflict", h'))
        (same_intent_as new' new r.row same)
