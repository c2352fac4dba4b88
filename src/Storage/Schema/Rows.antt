-- ===== src/Storage/Schema/Rows.antt =====
-- The row types of src/model_forge/storage/migrations.py, and the generic parts of SQL statements.
use model_forge.Prelude.{
  ℕ, suc, ◌+◌, String, Bool, Option, none, some, List, [], ◌∷◌, length, ltb, if◌then◌else◌,
}
use model_forge.Storage.Text.{codes}

pub record ProjectRow : Type 0 where
  pub project_id : String
  pub payload_json : String
  pub revision : ℕ
  pub authority_sequence : ℕ
  pub authority_root_sha256 : String
  pub current_revision : ℕ
  pub created_at : String
  pub updated_at : String

pub record RequestRow : Type 0 where
  pub request_id : String
  pub project_id : String
  pub raw_sha256 : String
  pub payload_json : String
  pub received_at : String

pub record CommandRow : Type 0 where
  pub command_id : String
  pub project_id : String
  pub raw_request_id : String
  pub idempotency_key : String
  pub command_sha256 : String
  pub payload_json : String
  pub sealed_at : String

pub record RunRow : Type 0 where
  pub run_id : String
  pub project_id : String
  pub command_id : String
  pub status : String
  pub head_sequence : ℕ
  pub cancellation_fenced : Bool
  pub new_role_fenced : Bool
  pub cancellation_command_id : Option String
  pub payload_json : String
  pub created_at : String
  pub updated_at : String

pub record EventRow : Type 0 where
  pub event_id : String
  pub run_id : String
  pub sequence : ℕ
  pub status : String
  pub event_sha256 : String
  pub payload_json : String
  pub recorded_at : String

pub record ManifestRow : Type 0 where
  pub run_id : String
  pub manifest_sha256 : String
  pub payload_json : String
  pub sealed_at : String

pub record ArtifactRow : Type 0 where
  pub artifact_id : String
  pub project_id : String
  pub sha256 : String
  pub size : ℕ
  pub media_type : String
  pub storage_uri : String
  pub payload_json : String
  pub recorded_at : String

pub record SubmissionRow : Type 0 where
  pub submission_id : String
  pub run_id : String
  pub submission_sha256 : String
  pub payload_json : String
  pub submitted_at : String

pub record ExecutionRow : Type 0 where
  pub execution_id : String
  pub invocation_id : String
  pub run_id : String
  pub invocation_sha256 : String
  pub payload_json : String
  pub created_at : String

pub record AcknowledgementRow : Type 0 where
  pub execution_id : String
  pub external_execution_id : String
  pub payload_json : String
  pub acknowledged_at : String

pub record HeartbeatRow : Type 0 where
  pub heartbeat_id : String
  pub execution_id : String
  pub sequence : ℕ
  pub payload_json : String
  pub recorded_at : String

pub record ClosureRow : Type 0 where
  pub closure_id : String
  pub execution_id : String
  pub closure_sha256 : String
  pub payload_json : String
  pub closed_at : String

pub record ReceiptRow : Type 0 where
  pub receipt_id : String
  pub project_id : String
  pub run_id : Option String
  pub command_id : Option String
  pub prior_authority_sequence : ℕ
  pub new_authority_sequence : ℕ
  pub prior_authority_root_sha256 : String
  pub new_authority_root_sha256 : String
  pub prior_current_revision : ℕ
  pub new_current_revision : ℕ
  pub receipt_sha256 : String
  pub payload_json : String
  pub committed_at : String

pub record GenerationRow : Type 0 where
  pub generation_id : String
  pub project_id : String
  pub record_type : String
  pub logical_slot : Option String
  pub artifact_id : String
  pub source_run_id : Option String
  pub supersedes_generation_id : Option String
  pub content_sha256 : String
  pub payload_json : String
  pub published_at : String

pub record SlotRow : Type 0 where
  pub project_id : String
  pub slot_key : String
  pub generation_id : String
  pub revision : ℕ
  pub updated_at : String

pub record ItemRow : Type 0 where
  pub project_id : String
  pub collection_key : String
  pub item_id : String
  pub object_type : String
  pub artifact_id : Option String
  pub source_run_id : Option String
  pub content_sha256 : String
  pub payload_json : String
  pub appended_at : String

pub record AuthorityRow : Type 0 where
  pub project_id : String
  pub sequence : ℕ
  pub event_id : String
  pub event_type : String
  pub prior_root_sha256 : String
  pub content_sha256 : String
  pub root_sha256 : String
  pub receipt_id : String
  pub payload_json : String
  pub committed_at : String

pub record MappingRow : Type 0 where
  pub project_id : String
  pub role_key : String
  pub profile_name : String
  pub settings_json : String
  pub revision : ℕ
  pub updated_at : String

pub record SettingRow : Type 0 where
  pub project_id : String
  pub setting_key : String
  pub value_json : String
  pub revision : ℕ
  pub updated_at : String

-- The database.
pub record Hub : Type 0 where
  pub projects : List ProjectRow
  pub raw_command_requests : List RequestRow
  pub sealed_commands : List CommandRow
  pub runs : List RunRow
  pub run_events : List EventRow
  pub run_manifests : List ManifestRow
  pub artifacts : List ArtifactRow
  pub role_execution_intents : List ExecutionRow
  pub role_execution_acknowledgements : List AcknowledgementRow
  pub role_execution_heartbeats : List HeartbeatRow
  pub role_execution_closures : List ClosureRow
  pub run_submissions : List SubmissionRow
  pub publication_receipts : List ReceiptRow
  pub formal_generations : List GenerationRow
  pub current_slots : List SlotRow
  pub cumulative_collection_items : List ItemRow
  pub authority_events : List AuthorityRow
  pub profile_mappings : List MappingRow
  pub project_settings : List SettingRow

abbrev pub empty_hub : Hub
empty_hub = record {
  projects = [];
  raw_command_requests = [];
  sealed_commands = [];
  runs = [];
  run_events = [];
  run_manifests = [];
  artifacts = [];
  role_execution_intents = [];
  role_execution_acknowledgements = [];
  role_execution_heartbeats = [];
  role_execution_closures = [];
  run_submissions = [];
  publication_receipts = [];
  formal_generations = [];
  current_slots = [];
  cumulative_collection_items = [];
  authority_events = [];
  profile_mappings = [];
  project_settings = [];
}

-- `sqlite3.IntegrityError`: a constraint or a trigger refused the statement.
abbrev pub integrity_error : String
integrity_error = "sqlite3.IntegrityError"

-- `CHECK (length(… ) = 64)`
abbrev pub sha_length : String → ℕ
sha_length value = length (codes value)

abbrev pub larger : ℕ → ℕ → ℕ
larger a b = if ltb a b then b else a

module _ {A : Type 0} where
  -- `COALESCE((SELECT MAX(sequence) + 1 … WHERE test), 1)`
  unfoldable pub next_sequence : (A → Bool) → (A → ℕ) → List A → ℕ
  next_sequence test sequence [] = 1
  next_sequence test sequence (row ∷ rows) =
      let rest = next_sequence test sequence rows in
      if test row then larger (sequence row + 1) rest else rest

  -- The rows after `UPDATE … SET change WHERE test`.
  unfoldable pub update : (A → Bool) → (A → A) → List A → List A
  update test change [] = []
  update test change (row ∷ rows) = (if test row then change row else row) ∷ update test change rows

  -- `cursor.rowcount` of that statement.
  unfoldable pub rowcount : (A → Bool) → List A → ℕ
  rowcount test [] = 0
  rowcount test (row ∷ rows) = let rest = rowcount test rows in if test row then suc rest else rest

  -- `SELECT … WHERE test ORDER BY sequence DESC LIMIT 1`
  unfoldable pub greatest : (A → Bool) → (A → ℕ) → List A → Option A
  greatest test sequence [] = none
  greatest test sequence (row ∷ rows) =
      let rest = greatest test sequence rows in
      if test row
      then elim rest [
        | none ↦ some row
        | some best ↦ if ltb (sequence row) (sequence best) then some best else some row
      ]
      else rest
