-- ===== src/Storage/Publication/Opening.antt =====
-- The invariant of an open unit of work, and that every call of it keeps the invariant.
use model_forge.Prelude.{
  ℕ, ◌+◌, ◌≤◌, String, ◌==◌, eq_iff, ◌≡◌, ap, ◌∙◌, inl, inr, Bool, false, Option, none, some, List,
  [], ◌∷◌, arith, ok, err, length, find?, Bool-cases, if◌then◌else◌,
}
use package.text.Mathlib.TextPositions.{eq_refl}
use model_forge.Storage.Text.{Payload, Timestamp, json, time}
use model_forge.Storage.Database.{lift, Tx, ◌>>=◌}
use model_forge.Storage.Database.Stays.{after_check, continued, Stays, Stays-bind, stays_rules}
use model_forge.Storage.Schema.Rows.{
  Hub, ProjectRow, AuthorityRow, GenerationRow, SlotRow, ItemRow, rowcount,
}
use model_forge.Storage.Schema.Publication.{
  insert_generation, insert_slot, insert_item, insert_authority_event,
}
use model_forge.Storage.Publication.Session.{Session, on_hub, modify, if_given}
use model_forge.Storage.Publication.Writing.{
  read_back, Generation, Item, update_slot, write_slot, decide_slot, write_generation, write_item,
  add_formal_generation, replace_current_slot, append_collection_item,
}
use model_forge.Storage.Publication.Sealing.{
  Event, select_authority_event, authority_row, extend_chain, record_stamped, record_event,
  append_rooted, append_authority_event, keep_receipt, record_receipt, Write, write, write_all,
}
use model_forge.Storage.Publication.Ledger.{digests, root_of, IsChain, IsHead}

module _ (chained : (root content : String) → String) (start : Session) where
  -- The unit of work has the head of its project in its own fields; the rows of the projects still
  -- have the heads of before.
  pub record IsAhead (projects : List ProjectRow) (events : List AuthorityRow) (project_id : String)
      (prior sequence added : ℕ) (root receipt_id prior_root : String) (prior_revision revision : ℕ)
      : Type 0 where
    pub unique : (key : String) → rowcount (λ row. row.project_id == key) projects ≤ 1
    pub chain : IsChain chained events
    pub others :
        (key : String)
        → (project_id == key) ≡ false
        → IsHead chained (find? (λ row. row.project_id == key) projects) (digests key events)
    pub present :
        (project : ProjectRow) × (find? (λ row. row.project_id == project_id) projects
          ≡ some project)
    pub counted : sequence ≡ length (digests project_id events)
    pub rooted : root ≡ root_of chained (digests project_id events)
    pub added_since : sequence ≡ prior + added
    pub same_project : project_id ≡ start.project_id
    pub same_receipt : receipt_id ≡ start.receipt_id
    pub same_prior : prior ≡ start.prior_authority_sequence
    pub same_root : prior_root ≡ start.prior_authority_root
    pub same_prior_revision : prior_revision ≡ start.prior_current_revision
    pub same_revision : revision ≡ start.current_revision

  abbrev pub IsOpen : Session → Type 0
  IsOpen s =
      IsAhead s.hub.projects s.hub.authority_events s.project_id s.prior_authority_sequence
        s.authority_sequence s.events_added s.authority_root s.receipt_id s.prior_authority_root
        s.prior_current_revision s.current_revision

  -- An insert into a table that the chain does not use.
  on_hub-Stays :
      (test : Hub → Bool) (change : Hub → Hub) (e : String)
      → ((s : Session) → IsOpen s → IsOpen (record s { hub = change s.hub }))
      → Stays IsOpen (on_hub (λ h. if test h then (ok tt, change h) else (err e, h)))
  on_hub-Stays test change e kept = record {
    after = λ s holds. elim (Bool-cases (test s.hub)) [
      | inl met ↦ rw met (kept s holds)
      | inr unmet ↦ rw unmet holds
    ];
  }

  if_given-Stays :
      (value : Option String) (check : String → Tx Session (Unit {0}))
      → ((key : String) → Stays IsOpen (check key))
      → Stays IsOpen (if_given value check)
  if_given-Stays none check k = search stays_rules depth 5
  if_given-Stays (some value) check k = k value

  insert_generation-Stays : (new : GenerationRow) → Stays IsOpen (on_hub (insert_generation new))
  unfolding insert_generation
  insert_generation-Stays new = on_hub-Stays _ _ _ (λ s x. x)

  insert_slot-Stays : (new : SlotRow) → Stays IsOpen (on_hub (insert_slot new))
  unfolding insert_slot
  insert_slot-Stays new = on_hub-Stays _ _ _ (λ s x. x)

  update_slot-Stays :
      (new : SlotRow) (expected : Option String) → Stays IsOpen (on_hub (update_slot new expected))
  unfolding update_slot
  update_slot-Stays new expected = on_hub-Stays _ _ _ (λ s x. x)

  insert_item-Stays : (new : ItemRow) → Stays IsOpen (on_hub (insert_item new))
  unfolding insert_item
  insert_item-Stays new = on_hub-Stays _ _ _ (λ s x. x)

  -- The event of the unit of work is the next of its chain.
  IsOpen-event :
      (e : Event) (payload_json at : String) (s : Session)
      → IsOpen s
      → e.root_sha256 ≡ chained s.authority_root e.content_sha256
      → IsAhead s.hub.projects
          (authority_row e payload_json at s ∷ s.hub.authority_events)
          s.project_id
          s.prior_authority_sequence
          (s.authority_sequence + 1)
          (s.events_added + 1)
          e.root_sha256
          s.receipt_id
          s.prior_authority_root
          s.prior_current_revision
          s.current_revision
  unfolding digests root_of
  IsOpen-event e payload_json at s x rooted = record {
    unique = x.unique;
    chain = (omega (arith, x.counted), x.rooted, rooted, x.chain);
    others = λ key other. rw other (x.others key other);
    present = x.present;
    counted = rw (eq_refl s.project_id) (omega (arith, x.counted));
    rooted =
        rw (eq_refl s.project_id) (rooted ∙ ap (λ root. chained root e.content_sha256) x.rooted);
    added_since = omega (arith, x.added_since);
    same_project = x.same_project;
    same_receipt = x.same_receipt;
    same_prior = x.same_prior;
    same_root = x.same_root;
    same_prior_revision = x.same_prior_revision;
    same_revision = x.same_revision;
  }

  extend_chain-IsOpen :
      (e : Event) (payload_json at : String) (s : Session)
      → IsOpen s
      → e.root_sha256 ≡ chained s.authority_root e.content_sha256
      → IsOpen (extend_chain e payload_json at s).1
  unfolding extend_chain insert_authority_event
  extend_chain-IsOpen e payload_json at s x rooted =
      ground (arith, x, IsOpen-event e payload_json at s x rooted)

  record_stamped-IsOpen :
      (e : Event) (payload_json at : String) (s : Session)
      → IsOpen s
      → e.root_sha256 ≡ chained s.authority_root e.content_sha256
      → IsOpen (record_stamped e payload_json at s).1
  unfolding record_stamped
  record_stamped-IsOpen e payload_json at s x rooted =
      let read : (u : Unit {0})
          → Stays IsOpen (read_back (λ s. select_authority_event e.event_id s.hub)) =
        λ u. search stays_rules depth 10 in
      continued {P = IsOpen} (extend_chain e payload_json at s).0 _
        (extend_chain e payload_json at s).1 read (extend_chain-IsOpen e payload_json at s x rooted)

  record_event-IsOpen :
      (e : Event) (s : Session)
      → IsOpen s
      → e.root_sha256 ≡ chained s.authority_root e.content_sha256
      → IsOpen (record_event e s).1
  unfolding record_event
  record_event-IsOpen e s x rooted =
      after_check IsOpen (json e.payload)
        (λ payload_json. lift (time e.committed_at) >>= λ at. record_stamped e payload_json at) s x
        (λ payload_json.
          after_check IsOpen (time e.committed_at) (λ at. record_stamped e payload_json at) s x
            (λ at. record_stamped-IsOpen e payload_json at s x rooted))

  append_rooted-Stays : (e : Event) → Stays IsOpen (append_rooted chained e)
  unfolding append_rooted
  append_rooted-Stays e = record {
    after = λ s x. elim (Bool-cases (e.root_sha256 == chained s.authority_root e.content_sha256)) [
      | inr wrong ↦ rw wrong x
      | inl right ↦ rw right (
          record_event-IsOpen e s x
            ((eq_iff e.root_sha256 (chained s.authority_root e.content_sha256)).0 right))
    ];
  }

  append_authority_event-Stays : (e : Event) → Stays IsOpen (append_authority_event chained e)
  unfolding append_authority_event
  append_authority_event-Stays e = search (stays_rules, append_rooted-Stays) depth 30

  modify-Stays :
      (change : Session → Session)
      → ((s : Session) → IsOpen s → IsOpen (change s))
      → Stays IsOpen (modify change)
  modify-Stays change kept = record { after = kept }

  write_generation-Stays : (new : GenerationRow) → Stays IsOpen (write_generation new)
  unfolding write_generation
  write_generation-Stays new = search (stays_rules, insert_generation-Stays) depth 30

  add_formal_generation-Stays : (g : Generation) → Stays IsOpen (add_formal_generation g)
  unfolding add_formal_generation
  add_formal_generation-Stays g =
      search (stays_rules, if_given-Stays, write_generation-Stays) depth 40

  write_slot-Stays : (row : Option SlotRow) (new : SlotRow) → Stays IsOpen (write_slot row new)
  unfolding write_slot
  write_slot-Stays row new =
      search (stays_rules, modify-Stays, insert_slot-Stays, update_slot-Stays) depth 30

  decide_slot-Stays :
      (slot_key generation_id : String) (expected : Option String) (at : Timestamp)
      (row : Option SlotRow)
      → Stays IsOpen (decide_slot slot_key generation_id expected at row)
  unfolding decide_slot
  decide_slot-Stays slot_key generation_id expected at row =
      search (stays_rules, write_slot-Stays) depth 30

  replace_current_slot-Stays :
      (slot_key generation_id : String) (expected : Option String) (at : Timestamp)
      → Stays IsOpen (replace_current_slot slot_key generation_id expected at)
  unfolding replace_current_slot
  replace_current_slot-Stays slot_key generation_id expected at =
      search (stays_rules, decide_slot-Stays) depth 40

  write_item-Stays :
      (i : Item) (project_id payload_json : String)
      → Stays IsOpen (write_item i project_id payload_json)
  unfolding write_item
  write_item-Stays i project_id payload_json = search (stays_rules, insert_item-Stays) depth 30

  append_collection_item-Stays : (i : Item) → Stays IsOpen (append_collection_item i)
  unfolding append_collection_item
  append_collection_item-Stays i = search (stays_rules, if_given-Stays, write_item-Stays) depth 40

  keep_receipt-Stays :
      (sha : String) (payload : Payload) (run_id command_id : Option String) (at : Timestamp)
      → Stays IsOpen (keep_receipt sha payload run_id command_id at)
  unfolding keep_receipt
  keep_receipt-Stays sha payload run_id command_id at = search (stays_rules, modify-Stays) depth 30

  record_receipt-Stays :
      (sha : String) (payload : Payload) (run_id command_id : Option String) (at : Timestamp)
      → Stays IsOpen (record_receipt sha payload run_id command_id at)
  unfolding record_receipt
  record_receipt-Stays sha payload run_id command_id at =
      search (stays_rules, if_given-Stays, keep_receipt-Stays) depth 40

  write-Stays : (w : Write) → Stays IsOpen (write chained w)
  unfolding write
  write-Stays (Write.generation g) = search (stays_rules, add_formal_generation-Stays) depth 10
  write-Stays (Write.slot key generation_id expected at) =
      search (stays_rules, replace_current_slot-Stays) depth 10
  write-Stays (Write.item i) = search (stays_rules, append_collection_item-Stays) depth 10
  write-Stays (Write.event e) = search (stays_rules, append_authority_event-Stays) depth 10
  write-Stays (Write.receipt sha payload run_id command_id at) =
      record_receipt-Stays sha payload run_id command_id at
  write-Stays (Write.caught w) = record { after = (write-Stays w).after }

  pub write_all-Stays : (ws : List Write) → Stays IsOpen (write_all chained ws)
  unfolding write_all
  write_all-Stays [] = search stays_rules depth 5
  write_all-Stays (w ∷ ws) =
      Stays-bind (write chained w) _ (write-Stays w) (λ u. write_all-Stays ws)
