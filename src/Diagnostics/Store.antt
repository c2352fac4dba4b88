-- ===== src/Diagnostics/Store.antt =====
-- The tables of src/model_forge/diagnostics/store.py, as the migrations of
-- src/model_forge/storage/migrations.py make them. An instant is a number of microseconds: what
-- `isoformat` writes of one, `fromisoformat` reads back.
pub mod Invocations
pub mod Fencing
pub mod Locks
pub mod Rows
pub mod Frames
pub mod Calls
pub mod Statuses
pub mod Tokens
pub mod Leases
pub mod Restart
pub mod Retrying
use model_forge.Prelude.{
  ℕ, ◌*◌, String, ◌==◌, Bool, not, List, [], ◌∷◌, Option, find?, any, if◌then◌else◌,
}
use model_forge.Digests.Json.{ℤ}
use model_forge.Diagnostics.States.{DiagnosticState}

-- `diagnostic_invocations`
pub record InvocationRow : Type 0 where
  pub invocation_id : String
  pub idempotency_key : String
  pub project_id : String
  pub role : String
  pub profile_name : String
  pub external_execution_id : Option String
  pub process_identity_json : Option String
  pub status : DiagnosticState
  pub exit_code : Option ℤ
  pub summary : String
  pub diagnostic_text : String
  pub memory_state_before : Option String
  pub memory_state_after : Option String
  pub memory_policy : String
  pub manifest_sha256 : Option String
  pub payload_json : String
  pub evidence_json : Option String
  pub created_at : ℕ
  pub updated_at : ℕ

-- `diagnostic_fencing_tokens`
pub record TokenRow : Type 0 where
  pub invocation_id : String
  pub token : ℕ
  pub holder : String
  pub lease_expires_at : ℕ
  pub updated_at : ℕ

-- `profile_execution_locks`
pub record LockRow : Type 0 where
  pub profile_name : String
  pub invocation_id : String
  pub token : ℕ
  pub acquired_at : ℕ
  pub lease_expires_at : ℕ

pub record Lane : Type 0 where
  pub invocations : List InvocationRow
  pub tokens : List TokenRow
  pub locks : List LockRow

abbrev pub empty_lane : Lane
empty_lane = record { invocations = []; tokens = []; locks = [] }

abbrev pub get_invocation : String → Lane → Option InvocationRow
get_invocation key lane = find? (λ row. row.invocation_id == key) lane.invocations

abbrev pub select_token : String → Lane → Option TokenRow
select_token key lane = find? (λ row. row.invocation_id == key) lane.tokens

abbrev pub select_lock : String → Lane → Option LockRow
select_lock profile lane = find? (λ row. row.profile_name == profile) lane.locks

-- The foreign keys on `diagnostic_invocations`.
abbrev pub has_invocation : Lane → String → Bool
has_invocation lane key = any (λ row. row.invocation_id == key) lane.invocations

-- `DELETE FROM … WHERE test`
unfoldable pub delete : {A : Type 0} → (A → Bool) → List A → List A
delete test [] = []
delete test (row ∷ rows) = let rest = delete test rows in if test row then rest else row ∷ rest

-- `timedelta(seconds=…)`
abbrev pub seconds : ℕ → ℕ
seconds n = n * 1000000
