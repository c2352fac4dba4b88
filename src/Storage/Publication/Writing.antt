-- ===== src/Storage/Publication/Writing.antt =====
-- `add_formal_generation`, `replace_current_slot` and `append_collection_item` of
-- src/model_forge/storage/repository.py.
use model_forge.Prelude.{
  String, ◌==◌, Bool, true, false, not, ◌&&◌, Option, none, some, ◌∷◌, option_eq, leb, any, find?,
  Result, ok, err, bind, if◌then◌else◌,
}
use model_forge.Storage.Text.{Payload, Timestamp, text, digest, json, time}
use model_forge.Storage.Database.{Tx, pure, raise, lift, gets, or_raise, on_row, ◌>>=◌, ◌>>◌}
use model_forge.Storage.Schema.Rows.{Hub, GenerationRow, SlotRow, ItemRow, update, integrity_error}
use model_forge.Storage.Schema.Publication.{insert_generation, insert_slot, insert_item}
use model_forge.Storage.Commands.{RecordResult, assertion_error}
use model_forge.Storage.Runs.Swap.{select_run}
use model_forge.Storage.Publication.Session.{
  Session, on_hub, modify, ensure_open, require_same_project, if_given, select_artifact,
  select_generation,
}

-- `None` or a text that passes the check.
abbrev pub optional_text : Option String → Result (Option String)
optional_text none = ok none
optional_text (some value) = bind (text value) (λ checked. ok (some checked))

-- `SELECT … WHERE …`, and `assert row is not None`.
abbrev pub read_back : {Row : Type 0} → (Session → Option Row) → Tx Session Row
read_back select = do row ← gets select; or_raise assertion_error row

abbrev pub recorded : {Row : Type 0} → (Session → Option Row) → Tx Session (RecordResult Row)
recorded select = do row ← read_back select; pure (record { created = true; row = row })

-- The row that is there, if it has the content asked for.
abbrev pub unchanged_or_conflict : {Row : Type 0} → Bool → Row → Tx Session (RecordResult Row)
unchanged_or_conflict same row =
    if not same
    then raise "repository.immutable_conflict"
    else pure (record { created = false; row = row })

-- The artifact, the run and the generation that a row refers to belong to the project.
abbrev pub check_artifact : String → Tx Session (Unit {0})
check_artifact key = do require_same_project (λ row. row.project_id) (select_artifact key); pure tt

abbrev pub check_run : String → Tx Session (Unit {0})
check_run key = do require_same_project (λ row. row.project_id) (select_run key); pure tt

abbrev pub check_generation : String → Tx Session (Unit {0})
check_generation key = do
  require_same_project (λ row. row.project_id) (select_generation key)
  pure tt

abbrev pub same_generation : GenerationRow → GenerationRow → Bool
same_generation new old =
    old.project_id == new.project_id
    && old.record_type == new.record_type
    && option_eq old.logical_slot new.logical_slot
    && old.artifact_id == new.artifact_id
    && option_eq old.source_run_id new.source_run_id
    && option_eq old.supersedes_generation_id new.supersedes_generation_id
    && old.content_sha256 == new.content_sha256
    && old.payload_json == new.payload_json

-- The arguments of `add_formal_generation`.
pub record Generation : Type 0 where
  pub generation_id : String
  pub record_type : String
  pub artifact_id : String
  pub content_sha256 : String
  pub payload : Payload
  pub logical_slot : Option String
  pub source_run_id : Option String
  pub supersedes_generation_id : Option String
  pub published_at : Timestamp

abbrev generation_row : Generation → (project_id payload_json at : String) → GenerationRow
generation_row g project_id payload_json at = record {
  generation_id = g.generation_id;
  project_id = project_id;
  record_type = g.record_type;
  logical_slot = g.logical_slot;
  artifact_id = g.artifact_id;
  source_run_id = g.source_run_id;
  supersedes_generation_id = g.supersedes_generation_id;
  content_sha256 = g.content_sha256;
  payload_json = payload_json;
  published_at = at;
}

-- The reads and the insert of `add_formal_generation`.
unfoldable pub write_generation : GenerationRow → Tx Session (RecordResult GenerationRow)
write_generation new = do
  row ← gets (λ s. select_generation new.generation_id s.hub)
  on_row row (λ old. unchanged_or_conflict (same_generation new old) old)
      (do on_hub (insert_generation new); recorded (λ s. select_generation new.generation_id s.hub))

unfoldable pub add_formal_generation : Generation → Tx Session (RecordResult GenerationRow)
add_formal_generation g = do
  ensure_open
  lift (text g.generation_id)
  lift (text g.record_type)
  lift (text g.artifact_id)
  lift (digest g.content_sha256)
  lift (optional_text g.logical_slot)
  payload_json ← lift (json g.payload)
  at ← lift (time g.published_at)
  check_artifact g.artifact_id
  if_given g.source_run_id check_run
  if_given g.supersedes_generation_id check_generation
  project_id ← gets (λ s. s.project_id)
  write_generation (generation_row g project_id payload_json at)

abbrev pub is_slot : (project_id slot_key : String) → SlotRow → Bool
is_slot project_id slot_key row = row.project_id == project_id && row.slot_key == slot_key

abbrev pub select_slot : (project_id slot_key : String) → Hub → Option SlotRow
select_slot project_id slot_key h = find? (is_slot project_id slot_key) h.current_slots

-- The `UPDATE` of a slot, with the checks of the table on the row that it changes.
unfoldable pub update_slot : SlotRow → (expected_generation_id : Option String) → Tx Hub (Unit {0})
update_slot new expected_generation_id h =
    if any (λ row. row.project_id == new.project_id && row.generation_id == new.generation_id)
        h.formal_generations
      && leb 1 new.revision
    then (
      ok tt,
      record h {
        current_slots =
            update
              (λ row.
                is_slot new.project_id new.slot_key row
                && option_eq (some row.generation_id) expected_generation_id)
              (λ row. record row {
                generation_id = new.generation_id;
                revision = new.revision;
                updated_at = new.updated_at;
              })
              h.current_slots;
      },
    )
    else (err integrity_error, h)

-- The `generation_id` of the row, or `None`.
abbrev pub generation_of : Option SlotRow → Option String
generation_of none = none
generation_of (some row) = some row.generation_id

-- The writes of `replace_current_slot`.
unfoldable pub write_slot : Option SlotRow → SlotRow → Tx Session SlotRow
write_slot row new = do
  on_row row (λ old. on_hub (update_slot new (generation_of row))) (on_hub (insert_slot new))
  modify (λ s. record s { touched_slots = new.slot_key ∷ s.touched_slots })
  read_back (λ s. select_slot new.project_id new.slot_key s.hub)

-- What `replace_current_slot` does once it has read the slot.
unfoldable pub decide_slot :
    (slot_key generation_id : String)
    → (expected_generation_id : Option String) → Timestamp
    → Option SlotRow
    → Tx Session SlotRow
decide_slot slot_key generation_id expected_generation_id updated_at row =
    if not (option_eq (generation_of row) expected_generation_id)
    then raise "repository.current_slot_conflict"
    else on_row (if option_eq (generation_of row) (some generation_id) then row else none)
        (λ same. pure same)
        (do
          at ← lift (time updated_at)
          project_id ← gets (λ s. s.project_id)
          revision ← gets (λ s. s.current_revision)
          write_slot row (record {
            project_id = project_id;
            slot_key = slot_key;
            generation_id = generation_id;
            revision = revision;
            updated_at = at;
          }))

unfoldable pub replace_current_slot :
    (slot_key generation_id : String)
    → (expected_generation_id : Option String) → Timestamp
    → Tx Session SlotRow
replace_current_slot slot_key generation_id expected_generation_id updated_at = do
  ensure_open
  lift (text slot_key)
  lift (text generation_id)
  touched ← gets (λ s. any (λ key. key == slot_key) s.touched_slots)
  if touched then raise "repository.slot_reused" else (do
    check_generation generation_id
    row ← gets (λ s. select_slot s.project_id slot_key s.hub)
    decide_slot slot_key generation_id expected_generation_id updated_at row)

-- The arguments of `append_collection_item`.
pub record Item : Type 0 where
  pub collection_key : String
  pub item_id : String
  pub object_type : String
  pub content_sha256 : String
  pub payload : Payload
  pub artifact_id : Option String
  pub source_run_id : Option String
  pub appended_at : Timestamp

abbrev pub select_item : (project_id collection_key item_id : String) → Hub → Option ItemRow
select_item project_id collection_key item_id h =
    find?
      (λ row.
        row.project_id == project_id
        && row.collection_key == collection_key
        && row.item_id == item_id)
      h.cumulative_collection_items

abbrev pub same_item : Item → String → ItemRow → Bool
same_item i payload_json old =
    old.object_type == i.object_type
    && old.content_sha256 == i.content_sha256
    && old.payload_json == payload_json

-- The insert of `append_collection_item`.
unfoldable pub write_item :
    Item → (project_id payload_json : String) → Tx Session (RecordResult ItemRow)
write_item i project_id payload_json = do
  at ← lift (time i.appended_at)
  on_hub (
      insert_item (record {
        project_id = project_id;
        collection_key = i.collection_key;
        item_id = i.item_id;
        object_type = i.object_type;
        artifact_id = i.artifact_id;
        source_run_id = i.source_run_id;
        content_sha256 = i.content_sha256;
        payload_json = payload_json;
        appended_at = at;
      }))
  recorded (λ s. select_item project_id i.collection_key i.item_id s.hub)

unfoldable pub append_collection_item : Item → Tx Session (RecordResult ItemRow)
append_collection_item i = do
  ensure_open
  lift (text i.collection_key)
  lift (text i.item_id)
  lift (text i.object_type)
  lift (digest i.content_sha256)
  payload_json ← lift (json i.payload)
  if_given i.artifact_id check_artifact
  if_given i.source_run_id check_run
  project_id ← gets (λ s. s.project_id)
  row ← gets (λ s. select_item project_id i.collection_key i.item_id s.hub)
  on_row row (λ old. unchanged_or_conflict (same_item i payload_json old) old)
      (write_item i project_id payload_json)
