-- ===== src/Storage/Schema/Publication.antt =====
-- Inserts into the publication tables, with the constraints of `_PUBLICATION_SCHEMA` in
-- src/model_forge/storage/migrations.py.
use model_forge.Prelude.{
  String, ◌==◌, Bool, true, not, ◌&&◌, Option, none, some, ◌∷◌, leb, nat_eq, any, ok, err,
  if◌then◌else◌,
}
use model_forge.Storage.Database.{Tx}
use model_forge.Storage.Schema.Rows.{
  Hub, ReceiptRow, GenerationRow, SlotRow, ItemRow, AuthorityRow, next_sequence, greatest,
  integrity_error, sha_length,
}
use model_forge.Storage.Schema.Control.{has_project, has_run, has_command}

-- A foreign key that may be NULL.
abbrev pub null_or : (String → Bool) → Option String → Bool
null_or test none = true
null_or test (some key) = test key

abbrev pub has_artifact : Hub → String → Bool
has_artifact h key = any (λ row. row.artifact_id == key) h.artifacts

abbrev pub has_generation : Hub → String → Bool
has_generation h key = any (λ row. row.generation_id == key) h.formal_generations

-- `ZERO_SHA256`
abbrev pub zero_sha256 : String
zero_sha256 = "0000000000000000000000000000000000000000000000000000000000000000"

unfoldable pub insert_receipt : ReceiptRow → Tx Hub (Unit {0})
insert_receipt new h =
    if not (any (λ row. row.receipt_id == new.receipt_id) h.publication_receipts)
      && has_project h new.project_id
      && null_or (has_run h) new.run_id
      && null_or (has_command h) new.command_id
      && leb new.prior_authority_sequence new.new_authority_sequence
      && nat_eq (sha_length new.prior_authority_root_sha256) 64
      && nat_eq (sha_length new.new_authority_root_sha256) 64
      && leb new.prior_current_revision new.new_current_revision
    then (ok tt, record h { publication_receipts = new ∷ h.publication_receipts })
    else (err integrity_error, h)

unfoldable pub insert_generation : GenerationRow → Tx Hub (Unit {0})
insert_generation new h =
    if not (has_generation h new.generation_id)
      && has_project h new.project_id
      && has_artifact h new.artifact_id
      && null_or (has_run h) new.source_run_id
      && null_or (has_generation h) new.supersedes_generation_id
      && nat_eq (sha_length new.content_sha256) 64
    then (ok tt, record h { formal_generations = new ∷ h.formal_generations })
    else (err integrity_error, h)

unfoldable pub insert_slot : SlotRow → Tx Hub (Unit {0})
insert_slot new h =
    if not (
        any (λ row. row.project_id == new.project_id && row.slot_key == new.slot_key)
          h.current_slots)
      && has_project h new.project_id
      && any (λ row. row.project_id == new.project_id && row.generation_id == new.generation_id)
          h.formal_generations
      && leb 1 new.revision
    then (ok tt, record h { current_slots = new ∷ h.current_slots })
    else (err integrity_error, h)

unfoldable pub insert_item : ItemRow → Tx Hub (Unit {0})
insert_item new h =
    if not (
        any
          (λ row.
            row.project_id == new.project_id
            && row.collection_key == new.collection_key
            && row.item_id == new.item_id)
          h.cumulative_collection_items)
      && has_project h new.project_id
      && null_or (has_artifact h) new.artifact_id
      && null_or (has_run h) new.source_run_id
      && nat_eq (sha_length new.content_sha256) 64
    then (ok tt, record h { cumulative_collection_items = new ∷ h.cumulative_collection_items })
    else (err integrity_error, h)

-- `COALESCE((SELECT root_sha256 … ORDER BY sequence DESC LIMIT 1), ZERO_SHA256)`
unfoldable pub last_root : String → Hub → String
unfolding greatest
last_root project_id h =
    elim (greatest (λ row. row.project_id == project_id) (λ row. row.sequence) h.authority_events) [
      | none ↦ zero_sha256
      | some row ↦ row.root_sha256
    ]

-- `authority_events_monotone_insert` makes the last two tests.
unfoldable pub insert_authority_event : AuthorityRow → Tx Hub (Unit {0})
unfolding last_root
insert_authority_event new h =
    if not (any (λ row. row.event_id == new.event_id) h.authority_events)
      && not (
          any (λ row. row.project_id == new.project_id && nat_eq row.sequence new.sequence)
            h.authority_events)
      && has_project h new.project_id
      && leb 1 new.sequence
      && nat_eq (sha_length new.content_sha256) 64
      && nat_eq (sha_length new.root_sha256) 64
      && nat_eq new.sequence (
          next_sequence (λ row. row.project_id == new.project_id) (λ row. row.sequence)
            h.authority_events)
      && new.prior_root_sha256 == last_root new.project_id h
    then (ok tt, record h { authority_events = new ∷ h.authority_events })
    else (err integrity_error, h)
