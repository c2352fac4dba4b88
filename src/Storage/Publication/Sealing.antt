-- ===== src/Storage/Publication/Sealing.antt =====
-- `append_authority_event`, `record_receipt`, `_finish` and `publication_transaction` of
-- src/model_forge/storage/repository.py.
use model_forge.Prelude.{
  ℕ, ◌+◌, String, ◌==◌, Bool, true, not, ◌&&◌, ◌||◌, Option, none, some, List, [], ◌∷◌, nat_eq, any,
  all, find?, ok, err, if◌then◌else◌,
}
use model_forge.Storage.Text.{Payload, Timestamp, text, digest, json, time}
use model_forge.Storage.Database.{
  Tx, pure, raise, lift, gets, or_raise, immediate_transaction, ◌>>=◌, ◌>>◌,
}
use model_forge.Storage.Schema.Rows.{
  Hub, ProjectRow, AuthorityRow, update, rowcount, integrity_error, sha_length,
}
use model_forge.Storage.Schema.Publication.{insert_receipt, insert_authority_event}
use model_forge.Storage.Commands.{select_command, require_project}
use model_forge.Storage.Publication.Session.{
  Receipt, Session, new_session, on_hub, modify, ensure_open, require_same_project, if_given,
}
use model_forge.Storage.Publication.Writing.{
  read_back, check_run, Generation, add_formal_generation, replace_current_slot, Item,
  append_collection_item,
}

-- The arguments of `append_authority_event`.
pub record Event : Type 0 where
  pub event_id : String
  pub event_type : String
  pub content_sha256 : String
  pub root_sha256 : String
  pub payload : Payload
  pub committed_at : Timestamp

abbrev pub select_authority_event : String → Hub → Option AuthorityRow
select_authority_event key h = find? (λ row. row.event_id == key) h.authority_events

-- The row of the event that extends the chain of the unit of work.
abbrev pub authority_row : Event → (payload_json at : String) → Session → AuthorityRow
authority_row e payload_json at s = record {
  project_id = s.project_id;
  sequence = s.authority_sequence + 1;
  event_id = e.event_id;
  event_type = e.event_type;
  prior_root_sha256 = s.authority_root;
  content_sha256 = e.content_sha256;
  root_sha256 = e.root_sha256;
  receipt_id = s.receipt_id;
  payload_json = payload_json;
  committed_at = at;
}

-- `INSERT INTO authority_events`, and the assignments after it.
unfoldable pub extend_chain : Event → (payload_json at : String) → Tx Session (Unit {0})
extend_chain e payload_json at = do
  row ← gets (authority_row e payload_json at)
  on_hub (insert_authority_event row)
  modify (λ s. record s {
    authority_sequence = s.authority_sequence + 1;
    authority_root = e.root_sha256;
    events_added = s.events_added + 1;
  })

unfoldable pub record_stamped : Event → (payload_json at : String) → Tx Session AuthorityRow
record_stamped e payload_json at = do
  extend_chain e payload_json at
  read_back (λ s. select_authority_event e.event_id s.hub)

-- The end of `append_authority_event`.
unfoldable pub record_event : Event → Tx Session AuthorityRow
record_event e = do
  payload_json ← lift (json e.payload)
  at ← lift (time e.committed_at)
  record_stamped e payload_json at

abbrev pub check_command : String → Tx Session (Unit {0})
check_command key = do require_same_project (λ row. row.project_id) (select_command key); pure tt

-- What `record_receipt` stores.
unfoldable pub keep_receipt :
    (receipt_sha256 : String)
    → Payload
    → (run_id command_id : Option String) → Timestamp
    → Tx Session (Unit {0})
keep_receipt receipt_sha256 payload run_id command_id committed_at = do
  lift (digest receipt_sha256)
  payload_json ← lift (json payload)
  at ← lift (time committed_at)
  modify (λ s. record s {
    receipt = some (record {
      receipt_sha256 = receipt_sha256;
      payload_json = payload_json;
      run_id = run_id;
      command_id = command_id;
      committed_at = at;
    });
  })

abbrev is_given : Option Receipt → Bool
is_given (some receipt) = true
is_given none = Bool.false

unfoldable pub record_receipt :
    (receipt_sha256 : String)
    → Payload
    → (run_id command_id : Option String) → Timestamp
    → Tx Session (Unit {0})
record_receipt receipt_sha256 payload run_id command_id committed_at = do
  ensure_open
  reused ← gets (λ s. is_given s.receipt)
  if reused then raise "repository.receipt_reused" else (do
    if_given run_id check_run
    if_given command_id check_command
    keep_receipt receipt_sha256 payload run_id command_id committed_at)

-- The rows that the `UPDATE` of `_finish` reaches.
abbrev pub is_basis : Session → ProjectRow → Bool
is_basis s row =
    row.project_id == s.project_id
    && nat_eq row.authority_sequence s.prior_authority_sequence
    && row.authority_root_sha256 == s.prior_authority_root
    && nat_eq row.current_revision s.prior_current_revision

abbrev pub advanced : Session → Receipt → ProjectRow → ProjectRow
advanced s receipt row = record row {
  authority_sequence = s.authority_sequence;
  authority_root_sha256 = s.authority_root;
  current_revision = s.current_revision;
  updated_at = receipt.committed_at;
}

-- `UPDATE projects …`, with the check of the table on the rows that it changes, and its row count.
unfoldable pub update_head : Receipt → Tx Session ℕ
update_head receipt s =
    if nat_eq (rowcount (is_basis s) s.hub.projects) 0 || nat_eq (sha_length s.authority_root) 64
    then (
      ok (rowcount (is_basis s) s.hub.projects),
      record s {
        hub = record (s.hub) { projects = update (is_basis s) (advanced s receipt) s.hub.projects };
      },
    )
    else (err integrity_error, s)

-- `INSERT INTO publication_receipts`
unfoldable pub seal_receipt : Receipt → Tx Session (Unit {0})
seal_receipt receipt s =
    on_hub
      (insert_receipt (record {
        receipt_id = s.receipt_id;
        project_id = s.project_id;
        run_id = receipt.run_id;
        command_id = receipt.command_id;
        prior_authority_sequence = s.prior_authority_sequence;
        new_authority_sequence = s.authority_sequence;
        prior_authority_root_sha256 = s.prior_authority_root;
        new_authority_root_sha256 = s.authority_root;
        prior_current_revision = s.prior_current_revision;
        new_current_revision = s.current_revision;
        receipt_sha256 = receipt.receipt_sha256;
        payload_json = receipt.payload_json;
        committed_at = receipt.committed_at;
      }))
      s

-- The end of `_finish`.
unfoldable pub move_head : Receipt → Tx Session (Unit {0})
move_head receipt = do
  seal_receipt receipt
  changed ← update_head receipt
  if not (nat_eq changed 1) then raise "repository.publication_basis_changed" else pure tt

-- `_finish`
unfoldable pub finish : Tx Session (Unit {0})
finish = do
  ensure_open
  row ← gets (λ s. s.receipt)
  receipt ← or_raise "repository.receipt_required" row
  added ← gets (λ s. s.events_added)
  if nat_eq added 0 then raise "repository.authority_event_required" else move_head receipt

-- The deferred foreign key of `authority_events`, which is checked at the commit.
unfoldable pub check_receipts : Tx Session (Unit {0})
check_receipts s =
    if all (λ e. any (λ row. row.receipt_id == e.receipt_id) s.hub.publication_receipts)
      s.hub.authority_events
    then (ok tt, s)
    else (err integrity_error, s)

-- `expected_current_revision is not None and …`
abbrev pub other_revision : Option ℕ → ProjectRow → Bool
other_revision none project = Bool.false
other_revision (some revision) project = not (nat_eq project.current_revision revision)

-- The arguments of `publication_transaction`.
pub record Basis : Type 0 where
  pub project_id : String
  pub receipt_id : String
  pub expected_authority_sequence : ℕ
  pub expected_authority_root : String
  pub expected_current_revision : Option ℕ

abbrev pub is_stale : Basis → ProjectRow → Bool
is_stale b project =
    not (nat_eq project.authority_sequence b.expected_authority_sequence)
    || not (project.authority_root_sha256 == b.expected_authority_root)
    || other_revision b.expected_current_revision project

-- A call of the unit of work; `caught` where the caller goes on after an exception.
pub data Write : Type 0 where
  generation : Generation → Write
  slot :
      (slot_key generation_id : String) (expected_generation_id : Option String)
      (updated_at : Timestamp)
      → Write
  item : Item → Write
  event : Event → Write
  receipt :
      (receipt_sha256 : String) (payload : Payload) (run_id command_id : Option String)
      (committed_at : Timestamp)
      → Write
  caught : Write → Write

module _ (chained : (root content : String) → String) where
  -- `append_authority_event` once its texts are checked; `chained` is the SHA-256 of the bytes of a root and a content digest.
  unfoldable pub append_rooted : Event → Tx Session AuthorityRow
  append_rooted e = do
    root ← gets (λ s. s.authority_root)
    if not (e.root_sha256 == chained root e.content_sha256)
        then raise "repository.invalid_authority_root"
        else record_event e

  unfoldable pub append_authority_event : Event → Tx Session AuthorityRow
  append_authority_event e = do
    ensure_open
    lift (text e.event_id)
    lift (text e.event_type)
    lift (digest e.content_sha256)
    lift (digest e.root_sha256)
    append_rooted e

  unfoldable pub write : Write → Tx Session (Unit {0})
  write (generation g) = do add_formal_generation g; pure tt
  write (slot key generation_id expected at) = do
    replace_current_slot key generation_id expected at
    pure tt
  write (item i) = do append_collection_item i; pure tt
  write (event e) = do append_authority_event e; pure tt
  write (receipt sha payload run_id command_id at) = record_receipt sha payload run_id command_id at
  write (caught w) = λ s. let (r, s') = write w s in (ok tt, s')

  -- The body of the `with` block.
  unfoldable pub write_all : List Write → Tx Session (Unit {0})
  write_all [] = pure tt
  write_all (w ∷ ws) = do write w; write_all ws

  -- What the transaction does with the unit of work, from its start to the commit.
  unfoldable pub run_unit : List Write → Tx Session (Unit {0})
  run_unit ws = do write_all ws; finish; check_receipts

  -- The body of the transaction, once the project is read.
  unfoldable pub open_unit : Basis → List Write → ProjectRow → Tx Hub (Unit {0})
  open_unit b ws project h =
      let (r, s) = run_unit ws (
        new_session h b.project_id b.receipt_id b.expected_authority_sequence
          b.expected_authority_root project.current_revision) in
      (r, s.hub)

  unfoldable pub publish : Basis → List Write → Tx Hub (Unit {0})
  publish b ws = do
    project ← require_project b.project_id
    if is_stale b project then raise "repository.publication_basis_changed" else (do
      prior ← gets (λ h. any (λ row. row.receipt_id == b.receipt_id) h.publication_receipts)
      if prior then raise "repository.publication_exists" else open_unit b ws project)

  -- `with publication_transaction(…) as unit:` and the calls of its body.
  unfoldable pub publication_transaction : Basis → List Write → Tx Hub (Unit {0})
  publication_transaction b ws = do
    lift (text b.project_id)
    lift (text b.receipt_id)
    lift (digest b.expected_authority_root)
    immediate_transaction (publish b ws)
