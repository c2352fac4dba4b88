-- ===== src/Storage/Artifacts.antt =====
-- `HubRepository.record_artifact` of src/model_forge/storage/repository.py.
pub mod Retrying
use model_forge.Prelude.{
  ℕ, String, ◌==◌, Bool, not, ◌&&◌, Option, none, some, nat_eq, Result, ok, err, if◌then◌else◌,
}
use model_forge.Storage.Text.{Payload, Timestamp, text, digest, json, time}
use model_forge.Storage.Database.{Tx, raise, lift, gets, on_row, immediate_transaction, ◌>>=◌, ◌>>◌}
use model_forge.Storage.Schema.Rows.{Hub, ArtifactRow}
use model_forge.Storage.Schema.Control.{insert_artifact}
use model_forge.Storage.Commands.{RecordResult, require_project, created, existing}
use model_forge.Storage.Publication.Session.{select_artifact}

abbrev pub same_artifact : ArtifactRow → ArtifactRow → Bool
same_artifact new old =
    old.project_id == new.project_id
    && old.sha256 == new.sha256
    && nat_eq old.size new.size
    && old.media_type == new.media_type
    && old.storage_uri == new.storage_uri
    && old.payload_json == new.payload_json

-- The body of the transaction.
unfoldable pub keep_artifact : ArtifactRow → Tx Hub (RecordResult ArtifactRow)
keep_artifact new = do
  require_project new.project_id
  row ← gets (select_artifact new.artifact_id)
  on_row row
      (λ old.
        if not (same_artifact new old) then raise "repository.immutable_conflict" else existing old)
      (do insert_artifact new; created (select_artifact new.artifact_id))

-- A size argument is `none` where it is not a nonnegative integer.
unfoldable pub valid_size : Option ℕ → Result ℕ
valid_size none = err "repository.invalid_size"
valid_size (some size) = ok size

unfoldable pub record_artifact :
    (artifact_id project_id sha256 : String)
    → (size : Option ℕ) → (media_type storage_uri : String) → Payload
    → (recorded_at : Timestamp) → Tx Hub (RecordResult ArtifactRow)
record_artifact artifact_id project_id sha256 size media_type storage_uri payload recorded_at = do
  lift (text artifact_id)
  lift (text project_id)
  lift (digest sha256)
  checked_size ← lift (valid_size size)
  lift (text media_type)
  lift (text storage_uri)
  payload_json ← lift (json payload)
  at ← lift (time recorded_at)
  immediate_transaction (
      keep_artifact (record {
        artifact_id = artifact_id;
        project_id = project_id;
        sha256 = sha256;
        size = checked_size;
        media_type = media_type;
        storage_uri = storage_uri;
        payload_json = payload_json;
        recorded_at = at;
      }))
