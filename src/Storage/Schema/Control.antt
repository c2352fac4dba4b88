-- ===== src/Storage/Schema/Control.antt =====
-- Inserts into the control tables, with the constraints of `_CONTROL_SCHEMA` in
-- src/model_forge/storage/migrations.py: primary keys, unique columns, foreign keys, checks, triggers.
use model_forge.Prelude.{
  String, ◌==◌, Bool, not, ◌&&◌, ◌∷◌, leb, nat_eq, any, ok, err, if◌then◌else◌,
}
use model_forge.Storage.Database.{Tx}
use model_forge.Storage.Schema.Rows.{
  Hub, ProjectRow, RequestRow, CommandRow, RunRow, EventRow, ManifestRow, ArtifactRow,
  next_sequence, integrity_error, sha_length,
}

-- `REFERENCES projects(project_id)` and the like: the row referred to is there.
abbrev pub has_project : Hub → String → Bool
has_project h key = any (λ row. row.project_id == key) h.projects

abbrev pub has_request : Hub → String → Bool
has_request h key = any (λ row. row.request_id == key) h.raw_command_requests

abbrev pub has_command : Hub → String → Bool
has_command h key = any (λ row. row.command_id == key) h.sealed_commands

abbrev pub has_run : Hub → String → Bool
has_run h key = any (λ row. row.run_id == key) h.runs

unfoldable pub insert_project : ProjectRow → Tx Hub (Unit {0})
insert_project new h =
    if not (has_project h new.project_id)
      && leb 1 new.revision
      && nat_eq (sha_length new.authority_root_sha256) 64
    then (ok tt, record h { projects = new ∷ h.projects })
    else (err integrity_error, h)

unfoldable pub insert_request : RequestRow → Tx Hub (Unit {0})
insert_request new h =
    if not (has_request h new.request_id)
      && has_project h new.project_id
      && nat_eq (sha_length new.raw_sha256) 64
    then (ok tt, record h { raw_command_requests = new ∷ h.raw_command_requests })
    else (err integrity_error, h)

unfoldable pub insert_command : CommandRow → Tx Hub (Unit {0})
insert_command new h =
    if not (has_command h new.command_id)
      && has_project h new.project_id
      && has_request h new.raw_request_id
      && not (
          any
            (λ row. row.project_id == new.project_id && row.idempotency_key == new.idempotency_key)
            h.sealed_commands)
      && nat_eq (sha_length new.command_sha256) 64
    then (ok tt, record h { sealed_commands = new ∷ h.sealed_commands })
    else (err integrity_error, h)

unfoldable pub insert_run : RunRow → Tx Hub (Unit {0})
insert_run new h =
    if not (has_run h new.run_id)
      && has_project h new.project_id
      && has_command h new.command_id
      && not (any (λ row. row.command_id == new.command_id) h.runs)
      && leb 1 new.head_sequence
    then (ok tt, record h { runs = new ∷ h.runs })
    else (err integrity_error, h)

-- `run_events_monotone_insert` is the last test.
unfoldable pub insert_run_event : EventRow → Tx Hub (Unit {0})
insert_run_event new h =
    if not (any (λ row. row.event_id == new.event_id) h.run_events)
      && has_run h new.run_id
      && leb 1 new.sequence
      && nat_eq (sha_length new.event_sha256) 64
      && not
          (any (λ row. row.run_id == new.run_id && nat_eq row.sequence new.sequence) h.run_events)
      && nat_eq new.sequence
          (next_sequence (λ row. row.run_id == new.run_id) (λ row. row.sequence) h.run_events)
    then (ok tt, record h { run_events = new ∷ h.run_events })
    else (err integrity_error, h)

unfoldable pub insert_manifest : ManifestRow → Tx Hub (Unit {0})
insert_manifest new h =
    if not (any (λ row. row.run_id == new.run_id) h.run_manifests)
      && has_run h new.run_id
      && nat_eq (sha_length new.manifest_sha256) 64
    then (ok tt, record h { run_manifests = new ∷ h.run_manifests })
    else (err integrity_error, h)

unfoldable pub insert_artifact : ArtifactRow → Tx Hub (Unit {0})
insert_artifact new h =
    if not (any (λ row. row.artifact_id == new.artifact_id) h.artifacts)
      && has_project h new.project_id
      && nat_eq (sha_length new.sha256) 64
    then (ok tt, record h { artifacts = new ∷ h.artifacts })
    else (err integrity_error, h)
