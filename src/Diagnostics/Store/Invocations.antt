-- ===== src/Diagnostics/Store/Invocations.antt =====
-- The invocations of `DiagnosticStore` in src/model_forge/diagnostics/store.py.
use model_forge.Prelude.{
  ℕ, String, ◌==◌, not, ◌&&◌, ◌||◌, Option, none, some, ◌∷◌, nat_eq, any, find?, Result, ok, err,
  if◌then◌else◌,
}
use model_forge.Digests.Json.{ℤ}
use model_forge.Storage.Text.{Payload}
use model_forge.Storage.Database.{
  Tx, pure, lift, or_raise, on_row, immediate_transaction, ◌>>=◌, ◌>>◌,
}
use model_forge.Storage.Schema.Rows.{update, integrity_error}
use model_forge.Diagnostics.States.{DiagnosticState, state_of, same_state, is_valid_transition}
use model_forge.Diagnostics.Store.{InvocationRow, Lane, get_invocation, select_token}

-- `json.dumps`, `none` where it raises
unfoldable pub dumps : Payload → Result String
dumps none = err "TypeError"
dumps (some text) = ok text

-- The arguments of `create_invocation`, with the time that the clock reads.
pub record Creation : Type 0 where
  pub invocation_id : String
  pub project_id : String
  pub role : String
  pub profile_name : String
  pub memory_policy : String
  pub idempotency_key : String
  pub manifest_sha256 : Option String
  pub payload : Payload
  pub now : ℕ

abbrev pub find_by_idempotency_key : String → Lane → Option InvocationRow
find_by_idempotency_key key lane = find? (λ row. row.idempotency_key == key) lane.invocations

-- `idempotency_key or invocation_id`
abbrev pub key_of : Creation → String
key_of c = if c.idempotency_key == "" then c.invocation_id else c.idempotency_key

abbrev pub new_invocation : Creation → (payload_json : String) → InvocationRow
new_invocation c payload_json = record {
  invocation_id = c.invocation_id;
  idempotency_key = key_of c;
  project_id = c.project_id;
  role = c.role;
  profile_name = c.profile_name;
  external_execution_id = none;
  process_identity_json = none;
  status = DiagnosticState.pending;
  exit_code = none;
  summary = "";
  diagnostic_text = "";
  memory_state_before = none;
  memory_state_after = none;
  memory_policy = c.memory_policy;
  manifest_sha256 = c.manifest_sha256;
  payload_json = payload_json;
  evidence_json = none;
  created_at = c.now;
  updated_at = c.now;
}

-- `INSERT INTO diagnostic_invocations`, with its keys.
unfoldable pub insert_invocation : InvocationRow → Tx Lane (Unit {0})
insert_invocation new lane =
    if any
      (λ row. row.invocation_id == new.invocation_id || row.idempotency_key == new.idempotency_key)
      lane.invocations
    then (err integrity_error, lane)
    else (ok tt, record lane { invocations = new ∷ lane.invocations })

unfoldable pub add_invocation : Creation → Tx Lane String
add_invocation c = immediate_transaction (do
  payload_json ← lift (dumps c.payload)
  insert_invocation (new_invocation c payload_json)
  pure c.invocation_id)

abbrev pub existing_invocation : Creation → Lane → Option InvocationRow
existing_invocation c seen =
    if c.idempotency_key == "" then none else find_by_idempotency_key c.idempotency_key seen

-- `create_invocation`; the look-up of the key saw the database `seen`.
unfoldable pub create_invocation : Creation → (seen : Lane) → Tx Lane String
create_invocation c seen =
    on_row (existing_invocation c seen) (λ row. pure row.invocation_id) (add_invocation c)

-- `validate_fencing_token`
unfoldable pub validate_fencing_token :
    (invocation_id : String) → (expected_token : ℕ) → Lane → Result (Unit {0})
validate_fencing_token invocation_id expected_token lane = elim (select_token invocation_id lane) [
  | none ↦ err "FencingError"
  | some row ↦ if not (nat_eq row.token expected_token) then err "FencingError" else ok tt
]

-- `if expected_token is not None: …`
unfoldable pub guard_token : (invocation_id : String) → Option ℕ → Lane → Result (Unit {0})
guard_token invocation_id none lane = ok tt
guard_token invocation_id (some expected) lane = validate_fencing_token invocation_id expected lane

-- The arguments of `update_status`.
pub record StatusUpdate : Type 0 where
  pub invocation_id : String
  pub status : String
  pub external_execution_id : Option String
  pub exit_code : Option ℤ
  pub summary : String
  pub diagnostic_text : String
  pub expected_token : Option ℕ
  pub now : ℕ

abbrev pub state_transition_error : String
state_transition_error = "StateTransitionError"

-- The check of the transition from the row that was read.
unfoldable pub check_transition : Option InvocationRow → DiagnosticState → Result (Unit {0})
check_transition none status = ok tt
check_transition (some current) status =
    if not (same_state current.status status) && not (is_valid_transition current.status status)
    then err state_transition_error
    else ok tt

-- A column that is set where there is a value for it.
abbrev pub given_or : {A : Type 0} → Option A → Option A → Option A
given_or (some value) old = some value
given_or none old = old

abbrev pub text_or : String → String → String
text_or value old = if value == "" then old else value

abbrev pub with_status : StatusUpdate → DiagnosticState → InvocationRow → InvocationRow
with_status u status row = record row {
  status = status;
  updated_at = u.now;
  external_execution_id = given_or u.external_execution_id row.external_execution_id;
  exit_code = given_or u.exit_code row.exit_code;
  summary = text_or u.summary row.summary;
  diagnostic_text = text_or u.diagnostic_text row.diagnostic_text;
}

-- An `UPDATE` of one invocation.
unfoldable pub update_invocation :
    (invocation_id : String) → (InvocationRow → InvocationRow) → Tx Lane (Unit {0})
update_invocation invocation_id change lane = (
  ok tt,
  record lane {
    invocations = update (λ row. row.invocation_id == invocation_id) change lane.invocations;
  },
)

-- `update_status`, with the databases that the guard, the read and the write find; they are one where
-- no call of others comes between.
unfoldable pub update_status : StatusUpdate → (guarded read : Lane) → Tx Lane (Unit {0})
update_status u guarded read = do
  status ← or_raise "ValueError" (state_of u.status)
  lift (guard_token u.invocation_id u.expected_token guarded)
  lift (check_transition (get_invocation u.invocation_id read) status)
  update_invocation u.invocation_id (with_status u status)

abbrev pub with_identity : (identity_json : String) → (now : ℕ) → InvocationRow → InvocationRow
with_identity identity_json now row = record row {
  process_identity_json = some identity_json;
  updated_at = now;
}

-- `update_process_identity`
unfoldable pub update_process_identity :
    (invocation_id : String)
    → (identity : Payload) → (expected_token : Option ℕ) → (now : ℕ) → (guarded : Lane)
    → Tx Lane (Unit {0})
update_process_identity invocation_id identity expected_token now guarded = do
  lift (guard_token invocation_id expected_token guarded)
  identity_json ← lift (dumps identity)
  update_invocation invocation_id (with_identity identity_json now)

-- `if before is not None: … json.dumps(before)`
unfoldable pub dumps_given : Option Payload → Result (Option String)
unfolding dumps
dumps_given none = ok none
dumps_given (some none) = err "TypeError"
dumps_given (some (some text)) = ok (some text)

abbrev pub with_memory :
    (before_json after_json : Option String) → (now : ℕ) → InvocationRow → InvocationRow
with_memory before_json after_json now row = record row {
  updated_at = now;
  memory_state_before = given_or before_json row.memory_state_before;
  memory_state_after = given_or after_json row.memory_state_after;
}

-- `record_memory_state`
unfoldable pub record_memory_state :
    (invocation_id : String) → (before after : Option Payload) → (now : ℕ) → Tx Lane (Unit {0})
record_memory_state invocation_id before after now = do
  before_json ← lift (dumps_given before)
  after_json ← lift (dumps_given after)
  update_invocation invocation_id (with_memory before_json after_json now)

abbrev pub with_evidence : (evidence_json : String) → (now : ℕ) → InvocationRow → InvocationRow
with_evidence evidence_json now row = record row {
  evidence_json = some evidence_json;
  updated_at = now;
}

-- `record_evidence`, with the text of the evidence
unfoldable pub record_evidence :
    (invocation_id : String) → (evidence : Payload) → (now : ℕ) → Tx Lane (Unit {0})
record_evidence invocation_id evidence now = do
  evidence_json ← lift (dumps evidence)
  update_invocation invocation_id (with_evidence evidence_json now)
