-- ===== src/Examples/Publishing.antt =====
-- The theorems on publications, at a project whose head is moved by one event.
use model_forge.Prelude.{ℕ, ◌+◌, ◌≤◌, String, ◌≡◌, refl, false, none, some, ok, err, List, [], ◌∷◌}
use model_forge.Storage.Text.{text, digest, json, time, is_nonblank, is_sha256, Timestamp}
use model_forge.Storage.Database.{immediate_transaction}
use model_forge.Storage.Schema.Rows.{
  Hub, ProjectRow, empty_hub, next_sequence, update, rowcount, greatest,
}
use model_forge.Storage.Schema.Control.{insert_project}
use model_forge.Storage.Schema.Publication.{
  insert_receipt, insert_authority_event, last_root, zero_sha256,
}
use model_forge.Storage.Commands.{select_project, create_project}
use model_forge.Storage.Operations.{Operation, perform}
use model_forge.Storage.Publication.Sealing.{
  Write, Basis, is_stale, extend_chain, record_stamped, record_event, append_rooted,
  append_authority_event, keep_receipt, record_receipt, update_head, seal_receipt, move_head,
  finish, check_receipts, write, write_all, run_unit, open_unit, publish, publication_transaction,
}
use model_forge.Storage.Publication.Ledger.{IsLedger}
use model_forge.Storage.Publication.Committed.{
  publication_transaction_effect, second_publication_refused,
}
use model_forge.Storage.Publication.Always.{Call, call, call_all, IsLedger-always}

-- A digest of two texts that keeps the second.
abbrev chained : (root content : String) → String
chained root content = content

abbrev content : String
content = "1111111111111111111111111111111111111111111111111111111111111111"

abbrev at : Timestamp
at = Timestamp.stamp "2025-01-01T00:00:00Z"

abbrev creation : Call
creation = Call.operation (Operation.create_project "project-1" (some "{}") at)

abbrev basis : (receipt_id : String) → Basis
basis receipt_id = record {
  project_id = "project-1";
  receipt_id = receipt_id;
  expected_authority_sequence = 0;
  expected_authority_root = zero_sha256;
  expected_current_revision = some 0;
}

abbrev writes : List Write
writes =
    Write.event (record {
      event_id = "authority-1";
      event_type = "formal_generation_published";
      content_sha256 = content;
      root_sha256 = content;
      payload = some "{}";
      committed_at = at;
    })
    ∷ Write.receipt zero_sha256 (some "{}") none none at
    ∷ []

abbrev created : Hub
created = call_all chained (creation ∷ []) empty_hub

published : (publication_transaction chained (basis "receipt-1") writes created).0 ≡ ok tt
unfolding text digest json time is_nonblank is_sha256 immediate_transaction next_sequence update
    rowcount greatest last_root insert_project insert_receipt insert_authority_event create_project
    perform extend_chain record_stamped record_event append_rooted append_authority_event
    keep_receipt record_receipt update_head seal_receipt move_head finish check_receipts write
    write_all run_unit open_unit publish publication_transaction call call_all
published = refl

IsLedger-always_example :
    IsLedger chained
      (call_all chained (creation ∷ Call.publication (basis "receipt-1") writes ∷ []) empty_hub)
IsLedger-always_example =
    IsLedger-always chained (creation ∷ Call.publication (basis "receipt-1") writes ∷ [])

publication_transaction_effect_example :
    (old new : ProjectRow) × (added : ℕ) × (select_project "project-1" created ≡ some old)
    × (is_stale (basis "receipt-1") old ≡ false)
    × (select_project "project-1"
          (publication_transaction chained (basis "receipt-1") writes created).1
        ≡ some new)
    × (1 ≤ added)
    × (new.authority_sequence ≡ old.authority_sequence + added)
    × (new.current_revision ≡ old.current_revision + 1)
publication_transaction_effect_example =
    publication_transaction_effect chained (basis "receipt-1") writes created
      (IsLedger-always chained (creation ∷ [])) published

second_publication_refused_example :
    (x : String) × (publication_transaction chained
        (basis "receipt-2")
        writes
        (publication_transaction chained (basis "receipt-1") writes created).1
      ≡ (err x, (publication_transaction chained (basis "receipt-1") writes created).1))
second_publication_refused_example =
    second_publication_refused chained (basis "receipt-1") (basis "receipt-2") writes writes created
      (IsLedger-always chained (creation ∷ [])) published refl refl
