-- ===== src/Storage/Settings.antt =====
-- `HubRepository._set_revisioned` of src/model_forge/storage/repository.py, over any of the tables
-- whose rows have a project, a key and a revision.
pub mod Tables
pub mod Mapping
pub mod Revising
pub mod Setting
pub mod Comparing
pub mod Effective
use model_forge.Prelude.{
  ℕ, ◌+◌, String, Bool, not, ◌&&◌, Option, none, some, List, ◌∷◌, leb, nat_eq, any, find?, Result,
  ok, err, if◌then◌else◌,
}
use model_forge.Storage.Text.{text}
use model_forge.Storage.Database.{
  Tx, raise, lift, gets, or_raise, on_row, immediate_transaction, ◌>>=◌, ◌>>◌,
}
use model_forge.Storage.Schema.Rows.{Hub, update, integrity_error}
use model_forge.Storage.Schema.Control.{has_project}
use model_forge.Storage.Commands.{assertion_error, require_project}

-- What the SQL text of `_set_revisioned` is made from: a table, its key and its value columns.
pub record Revisioned (Row Values : Type 0) : Type 0 where
  pub rows : Hub → List Row
  pub store : List Row → Hub → Hub
  pub is_key : (project_id key : String) → Row → Bool
  pub revision : Row → ℕ
  pub row_of : (project_id key : String) → Values → (revision : ℕ) → (at : String) → Row
  pub assign : Values → (revision : ℕ) → (at : String) → Row → Row

-- A revision argument is `none` where it is not a nonnegative integer.
unfoldable pub nonnegative : Option ℕ → Result ℕ
nonnegative none = err "repository.invalid_revision"
nonnegative (some revision) = ok revision

module _ {Row Values : Type 0} (T : Revisioned Row Values) where
  abbrev pub select : (project_id key : String) → Hub → Option Row
  select project_id key h = find? (T.is_key project_id key) (T.rows h)

  -- `0 if row is None else row["revision"]`
  abbrev pub current_revision : Option Row → ℕ
  current_revision none = 0
  current_revision (some row) = T.revision row

  -- `INSERT`, with the constraints of the table.
  unfoldable pub insert_revisioned :
      (project_id key : String) → Values → (revision : ℕ) → (at : String) → Tx Hub (Unit {0})
  insert_revisioned project_id key values revision at h =
      if not (any (T.is_key project_id key) (T.rows h))
        && has_project h project_id
        && leb 1 revision
      then (ok tt, T.store (T.row_of project_id key values revision at ∷ T.rows h) h)
      else (err integrity_error, h)

  -- `UPDATE … WHERE project_id = ? AND key = ? AND revision = ?`
  unfoldable pub update_revisioned :
      (project_id key : String)
      → Values
      → (expected revision : ℕ) → (at : String) → Tx Hub (Unit {0})
  update_revisioned project_id key values expected revision at h = (
    ok tt,
    T.store
        (update (λ row. T.is_key project_id key row && nat_eq (T.revision row) expected)
          (T.assign values revision at) (T.rows h))
        h,
  )

  -- The write after the checks, and the row read again.
  unfoldable pub write_revisioned :
      (project_id key : String) → Values → (expected : ℕ) → (at : String) → Option Row → Tx Hub Row
  write_revisioned project_id key values expected at row = do
    on_row row (λ old. update_revisioned project_id key values expected (expected + 1) at)
        (insert_revisioned project_id key values (expected + 1) at)
    again ← gets (select project_id key)
    or_raise assertion_error again

  -- The body of the transaction.
  unfoldable pub revise :
      (project_id key : String) → Values → (expected : ℕ) → (at : String) → Tx Hub Row
  revise project_id key values expected at = do
    require_project project_id
    row ← gets (select project_id key)
    if not (nat_eq (current_revision row) expected)
        then raise "repository.revision_conflict"
        else write_revisioned project_id key values expected at row

  unfoldable pub set_revisioned :
      (project_id key : String)
      → Values
      → (expected_revision : Option ℕ) → (at : String) → Tx Hub Row
  set_revisioned project_id key values expected_revision at = do
    lift (text project_id)
    lift (text key)
    expected ← lift (nonnegative expected_revision)
    immediate_transaction (revise project_id key values expected at)
