-- ===== src/Storage/Publication/Session.antt =====
-- `PublicationUnitOfWork` of src/model_forge/storage/repository.py: its fields, and the checks that its
-- methods share.
use model_forge.Prelude.{
  ℕ, ◌+◌, String, ◌==◌, Bool, false, not, Option, none, some, List, [], find?, ok, if◌then◌else◌,
}
use model_forge.Storage.Database.{Tx, pure, raise, gets, or_raise, ◌>>=◌}
use model_forge.Storage.Schema.Rows.{Hub, GenerationRow, ArtifactRow}
use model_forge.Storage.Commands.{not_found}

-- `_Receipt`
pub record Receipt : Type 0 where
  pub receipt_sha256 : String
  pub payload_json : String
  pub run_id : Option String
  pub command_id : Option String
  pub committed_at : String

-- The unit of work and the database of its connection.
pub record Session : Type 0 where
  pub hub : Hub
  pub project_id : String
  pub receipt_id : String
  pub prior_authority_sequence : ℕ
  pub authority_sequence : ℕ
  pub prior_authority_root : String
  pub authority_root : String
  pub prior_current_revision : ℕ
  pub current_revision : ℕ
  pub events_added : ℕ
  pub touched_slots : List String
  pub receipt : Option Receipt
  pub closed : Bool

-- `PublicationUnitOfWork.__init__`
abbrev pub new_session :
    Hub
    → (project_id receipt_id : String) → (authority_sequence : ℕ) → (authority_root : String)
    → (current_revision : ℕ) → Session
new_session h project_id receipt_id authority_sequence authority_root current_revision = record {
  hub = h;
  project_id = project_id;
  receipt_id = receipt_id;
  prior_authority_sequence = authority_sequence;
  authority_sequence = authority_sequence;
  prior_authority_root = authority_root;
  authority_root = authority_root;
  prior_current_revision = current_revision;
  current_revision = current_revision + 1;
  events_added = 0;
  touched_slots = [];
  receipt = none;
  closed = false;
}

-- A statement on the connection.
abbrev pub on_hub : {A : Type 0} → Tx Hub A → Tx Session A
on_hub m s = let (r, h) = m s.hub in (r, record s { hub = h })

-- An assignment to fields of the unit of work.
abbrev pub modify : (Session → Session) → Tx Session (Unit {0})
modify change s = (ok tt, change s)

-- `_ensure_open`
abbrev pub ensure_open : Tx Session (Unit {0})
ensure_open = do
  closed ← gets (λ s. s.closed)
  if closed then raise "repository.transaction_closed" else pure tt

-- `_require_same_project`, for the row that a query selects.
abbrev pub require_same_project :
    {Row : Type 0} → (Row → String) → (Hub → Option Row) → Tx Session Row
require_same_project project_of select = do
  row ← gets (λ s. select s.hub)
  found ← or_raise not_found row
  project_id ← gets (λ s. s.project_id)
  if not (project_of found == project_id) then raise "repository.project_mismatch" else pure found

-- `if value is not None: …`
abbrev pub if_given : Option String → (String → Tx Session (Unit {0})) → Tx Session (Unit {0})
if_given none check = pure tt
if_given (some value) check = check value

abbrev pub select_artifact : String → Hub → Option ArtifactRow
select_artifact key h = find? (λ row. row.artifact_id == key) h.artifacts

abbrev pub select_generation : String → Hub → Option GenerationRow
select_generation key h = find? (λ row. row.generation_id == key) h.formal_generations
