-- ===== src/Storage/Schema/Execution.antt =====
-- Inserts into the execution tables, with the constraints of `_EXECUTION_SCHEMA` in
-- src/model_forge/storage/migrations.py.
use model_forge.Prelude.{
  String, ◌==◌, Bool, not, ◌&&◌, ◌∷◌, leb, nat_eq, any, ok, err, if◌then◌else◌,
}
use model_forge.Storage.Database.{Tx}
use model_forge.Storage.Schema.Rows.{
  Hub, ExecutionRow, AcknowledgementRow, HeartbeatRow, ClosureRow, SubmissionRow, next_sequence,
  integrity_error, sha_length,
}
use model_forge.Storage.Schema.Control.{has_run}

abbrev pub has_execution : Hub → String → Bool
has_execution h key = any (λ row. row.execution_id == key) h.role_execution_intents

unfoldable pub insert_execution : ExecutionRow → Tx Hub (Unit {0})
insert_execution new h =
    if not (has_execution h new.execution_id)
      && not (any (λ row. row.invocation_id == new.invocation_id) h.role_execution_intents)
      && has_run h new.run_id
      && nat_eq (sha_length new.invocation_sha256) 64
    then (ok tt, record h { role_execution_intents = new ∷ h.role_execution_intents })
    else (err integrity_error, h)

unfoldable pub insert_acknowledgement : AcknowledgementRow → Tx Hub (Unit {0})
insert_acknowledgement new h =
    if not (any (λ row. row.execution_id == new.execution_id) h.role_execution_acknowledgements)
      && has_execution h new.execution_id
      && not (
          any (λ row. row.external_execution_id == new.external_execution_id)
            h.role_execution_acknowledgements)
    then (
      ok tt,
      record h { role_execution_acknowledgements = new ∷ h.role_execution_acknowledgements },
    )
    else (err integrity_error, h)

-- `role_execution_heartbeats_monotone_insert` is the last test.
unfoldable pub insert_heartbeat : HeartbeatRow → Tx Hub (Unit {0})
insert_heartbeat new h =
    if not (any (λ row. row.heartbeat_id == new.heartbeat_id) h.role_execution_heartbeats)
      && has_execution h new.execution_id
      && leb 1 new.sequence
      && not (
          any (λ row. row.execution_id == new.execution_id && nat_eq row.sequence new.sequence)
            h.role_execution_heartbeats)
      && nat_eq new.sequence (
          next_sequence (λ row. row.execution_id == new.execution_id) (λ row. row.sequence)
            h.role_execution_heartbeats)
    then (ok tt, record h { role_execution_heartbeats = new ∷ h.role_execution_heartbeats })
    else (err integrity_error, h)

unfoldable pub insert_closure : ClosureRow → Tx Hub (Unit {0})
insert_closure new h =
    if not (any (λ row. row.closure_id == new.closure_id) h.role_execution_closures)
      && not (any (λ row. row.execution_id == new.execution_id) h.role_execution_closures)
      && has_execution h new.execution_id
      && nat_eq (sha_length new.closure_sha256) 64
    then (ok tt, record h { role_execution_closures = new ∷ h.role_execution_closures })
    else (err integrity_error, h)

unfoldable pub insert_submission : SubmissionRow → Tx Hub (Unit {0})
insert_submission new h =
    if not (any (λ row. row.submission_id == new.submission_id) h.run_submissions)
      && not (any (λ row. row.run_id == new.run_id) h.run_submissions)
      && has_run h new.run_id
      && nat_eq (sha_length new.submission_sha256) 64
    then (ok tt, record h { run_submissions = new ∷ h.run_submissions })
    else (err integrity_error, h)
