-- ===== src/Application/Lifecycle.antt =====
-- src/model_forge/application/run_lifecycle.py: transitions of a run through the repository.
pub mod Moving
use Prim.Native.String.{◌++◌ as ◌<>◌}
use model_forge.Prelude.{
  ℕ, ◌+◌, String, ◌==◌, Bool, true, false, ◌&&◌, nat_eq, Option, none, some, List, [], ◌∷◌, Result,
  ok, err, bind, if◌then◌else◌,
}
use model_forge.Domain.RunStatus.{RunStatus, value, of_value, require_transition}
use model_forge.Digests.Json.{Text, ℤ, Value, Members}
use model_forge.Digests.Canonical.{canonicalize}
use model_forge.Storage.Text.{codes, Payload, Timestamp}
use model_forge.Storage.Database.{Tx, lift, ◌>>=◌}
use model_forge.Storage.Schema.Rows.{Hub, RunRow}
use model_forge.Storage.Commands.{not_found}
use model_forge.Storage.Runs.Swap.{Move, RunTransition, select_run, compare_and_swap_run}

-- The parts of Python's library that the class calls: `json.loads` (`none` where it raises),
-- `json.dumps` as the repository calls it, and the hexadecimal digits of SHA-256.
pub record Library : Type 0 where
  pub loads : String → Option Value
  pub dumps : Value → Payload
  pub sha256 : List ℕ → String

-- `RunStatus | str`
pub data Target : Type 0 where
  member : RunStatus → Target
  raw : String → Target

abbrev pub text_of : String → Value
text_of s = Value.str (codes s)

abbrev entry : String → Value → Members → Members
entry key value rest = Members.member (some (codes key)) value rest

abbrev value_error : String
value_error = "ValueError"

abbrev pub same_text : Text → Text → Bool
same_text [] [] = true
same_text (a ∷ more) (b ∷ others) = nat_eq a b && same_text more others
same_text _ _ = false

abbrev pub same_key : Text → Option Text → Bool
same_key key none = false
same_key key (some other) = same_text key other

-- `payload[key] = value`: a key that is there keeps its place.
unfoldable pub set_member : Text → Value → Members → Members
set_member key value Members.no_members = Members.member (some key) value Members.no_members
set_member key value (Members.member other old rest) =
    let after = set_member key value rest in
    if same_key key other then Members.member other value rest else Members.member other old after

-- An item of `payload_updates`.
pub record Update : Type 0 where
  pub key : Text
  pub value : Value

-- `payload.update`
unfoldable pub update_members : Members → List Update → Members
update_members payload [] = payload
update_members payload (first ∷ rest) =
    update_members (set_member first.key first.value payload) rest

-- The `event` of `_mutate`.
abbrev pub event_document : (target message now : String) → (details : Members) → Value
event_document target message now details = Value.dict (
    entry "event_type" (text_of ("run." <> target)) (
      entry "message" (text_of message) (
        entry "occurred_at" (text_of now)
          (entry "details" (Value.dict details) Members.no_members))))

-- What the id of the event is the digest of.
abbrev pub identity_document :
    (run_id : String) → (sequence : ℕ) → (target : String) → (event : Value) → Value
identity_document run_id sequence target event = Value.dict (
    entry "run_id" (text_of run_id) (
      entry "sequence" (Value.int (ℤ.pos sequence))
        (entry "status" (text_of target) (entry "payload" event Members.no_members))))

-- `RunStatus(text)`
abbrev pub status_of : String → Result RunStatus
status_of text = elim (of_value text) [ none ↦ err value_error | some status ↦ ok status ]

unfoldable pub selected : Target → Result RunStatus
selected (Target.member status) = ok status
selected (Target.raw text) = status_of text

-- `json.loads(…)`, which must be a dict.
unfoldable pub payload_members : Option Value → Result Members
payload_members none = err "json.JSONDecodeError"
payload_members (some (Value.dict members)) = ok members
payload_members (some _) = err value_error

-- `get_run`
abbrev pub get_run : String → Hub → Result RunRow
get_run run_id seen = elim (select_run run_id seen) [ none ↦ err not_found | some row ↦ ok row ]

module _ (library : Library) where
  -- `_mutate`, up to its call of the repository: the arguments of that call.
  unfoldable pub mutate :
      RunRow
      → (target message : String) → (payload_updates : List Update) → (details : Members)
      → (now : String) → Result Move
  mutate row target message payload_updates details now =
      let event = event_document target message now details in
      bind (payload_members (library.loads row.payload_json)) (λ payload.
        bind (canonicalize (identity_document row.run_id (row.head_sequence + 1) target event))
          (λ identity. bind (canonicalize event) (λ content. ok (record {
            run_id = row.run_id;
            expected_status = row.status;
            expected_sequence = row.head_sequence;
            new_status = target;
            payload = library.dumps (Value.dict (update_members payload payload_updates));
            event_id = "event." <> library.sha256 identity;
            event_sha256 = library.sha256 content;
            event_payload = library.dumps event;
            recorded_at = Timestamp.aware now;
          }))))

  -- What `transition` works out from the row that it reads.
  unfoldable pub plan_transition :
      (run_id : String)
      → Target
      → (message : String) → (payload_updates : List Update) → (details : Members) → (now : String)
      → Hub
      → Result Move
  plan_transition run_id target message payload_updates details now seen =
      bind (get_run run_id seen) (λ row. bind (status_of row.status) (λ current.
        bind (selected target) (λ status.
          bind (require_transition current status)
            (λ _. mutate row (value status) message payload_updates details now))))

  unfoldable pub plan_progress :
      (run_id message : String)
      → (payload_updates : List Update) → (details : Members) → (now : String) → Hub
      → Result Move
  plan_progress run_id message payload_updates details now seen =
      bind (get_run run_id seen) (λ row. mutate row row.status message payload_updates details now)

  -- `transition` and `progress`: the read sees one database, and the write finds another if calls of
  -- others came between.
  unfoldable pub transition :
      (run_id : String)
      → Target
      → (message : String) → (payload_updates : List Update) → (details : Members) → (now : String)
      → (seen : Hub) → Tx Hub RunTransition
  transition run_id target message payload_updates details now seen = do
    move ← lift (plan_transition run_id target message payload_updates details now seen)
    compare_and_swap_run move

  unfoldable pub progress :
      (run_id message : String)
      → (payload_updates : List Update) → (details : Members) → (now : String) → (seen : Hub)
      → Tx Hub RunTransition
  progress run_id message payload_updates details now seen = do
    move ← lift (plan_progress run_id message payload_updates details now seen)
    compare_and_swap_run move
