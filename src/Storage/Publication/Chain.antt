-- ===== src/Storage/Publication/Chain.antt =====
-- `publication_transaction` keeps the ledger of every project.
use mathlib.Core.Path.{subst}
use model_forge.Prelude.{
  String, ◌==◌, eq_iff, ◌≡◌, refl, ap, ◌∙◌, inl, inr, true, false, some, List, arith, ok, find?,
  nat_eq, Bool-cases, Option-cases,
}
use model_forge.Storage.Database.Rules.{>>=-ok}
use model_forge.Storage.Schema.Rows.{Hub, ProjectRow, update, rowcount}
use model_forge.Storage.Schema.Tables.{
  rowcount-update, find?-update, find?-test, rowcount_found, map_found,
}
use model_forge.Storage.Schema.Publication.{insert_receipt}
use model_forge.Storage.Publication.Session.{Receipt, Session, new_session}
use model_forge.Storage.Publication.Sealing.{
  is_basis, advanced, update_head, seal_receipt, move_head, finish, check_receipts, Write,
  write_all, run_unit, Basis, is_stale,
}
use model_forge.Storage.Publication.Ledger.{digests, IsHead, IsLedger}
use model_forge.Storage.Publication.Opening.{IsOpen, write_all-Stays}

is_basis-project_id :
    (s : Session) (row : ProjectRow)
    → is_basis s row ≡ true
    → (row.project_id == s.project_id) ≡ true
is_basis-project_id s row h = ground arith

-- What `_finish` has done where it returned.
pub record IsFinished (s s' : Session) : Type 0 where
  pub receipt : Receipt
  pub one : rowcount (is_basis s) s.hub.projects ≡ 1
  pub projects : s'.hub.projects ≡ update (is_basis s) (advanced s receipt) s.hub.projects
  pub events : s'.hub.authority_events ≡ s.hub.authority_events
  pub added : (nat_eq s.events_added 0) ≡ false

move_head-IsFinished :
    (receipt : Receipt) (s : Session) {u : Unit {0}}
    → (move_head receipt s).0 ≡ ok u
    → nat_eq s.events_added 0 ≡ false
    → IsFinished s (move_head receipt s).1
unfolding move_head seal_receipt update_head insert_receipt
move_head-IsFinished receipt s e added = record {
  receipt = receipt;
  one = ground (arith, e);
  projects = ground (arith, e);
  events = ground (arith, e);
  added = added;
}

finish_runs :
    (s : Session) {u : Unit {0}}
    → (finish s).0 ≡ ok u
    → (receipt : Receipt) × (finish s ≡ move_head receipt s) × (nat_eq s.events_added 0 ≡ false)
unfolding finish
finish_runs s e = elim (Option-cases s.receipt) [
  | inl absent ↦ absurd (ground (arith, e, absent))
  | inr (receipt, there) ↦ (receipt, ground (arith, e, there), ground (arith, e, there))
]

pub finish-IsFinished :
    (s : Session) {u : Unit {0}} → (finish s).0 ≡ ok u → IsFinished s (finish s).1
finish-IsFinished s e =
    let (receipt, same, added) = finish_runs s e in
    rw same (move_head-IsFinished receipt s (rw same at e) added)

module _ (chained : (root content : String) → String) (start s s' : Session)
    (x : IsOpen chained start s) (f : IsFinished s s') where
  moved :
      (key : String)
      → find? (λ row. row.project_id == key) s'.hub.projects
        ≡ map_found
            (is_basis s)
            (advanced s f.receipt)
            (find? (λ row. row.project_id == key) s.hub.projects)
  moved key =
      ap (find? (λ row. row.project_id == key)) f.projects
      ∙ find?-update (λ row. row.project_id == key) (is_basis s) (advanced s f.receipt)
          s.hub.projects (λ row. refl)

  -- The row of the project is the one that the `UPDATE` reached.
  own_reached : is_basis s x.present.0 ≡ true
  own_reached =
      rowcount_found (is_basis s) (λ row. row.project_id == s.project_id) s.hub.projects x.present.0
        (is_basis-project_id s) (x.unique s.project_id) x.present.1 f.one

  pub own_head :
      find? (λ row. row.project_id == s.project_id) s'.hub.projects
      ≡ some (advanced s f.receipt x.present.0)
  own_head = moved s.project_id ∙ rw (x.present.1, own_reached) refl

  other_head :
      (key : String)
      → (s.project_id == key) ≡ false
      → find? (λ row. row.project_id == key) s'.hub.projects
        ≡ find? (λ row. row.project_id == key) s.hub.projects
  other_head key other =
      moved key ∙ elim (Option-cases (find? (λ row. row.project_id == key) s.hub.projects)) [
        | inl absent ↦ rw absent refl
        | inr (row, there) ↦ rw there (
            ground (
              arith,
              is_basis-project_id s row,
              find?-test (λ row. row.project_id == key) s.hub.projects row there,
              eq_iff row.project_id s.project_id,
              eq_iff row.project_id key,
              eq_iff s.project_id key,
            ))
      ]

  IsHead-after :
      (key : String)
      → IsHead chained
          (find? (λ row. row.project_id == key) s'.hub.projects)
          (digests key s'.hub.authority_events)
  IsHead-after key = rw f.events (elim (Bool-cases (s.project_id == key)) [
    | inl same ↦
        subst
          (λ k.
            IsHead chained (find? (λ row. row.project_id == k) s'.hub.projects)
              (digests k s.hub.authority_events))
          ((eq_iff s.project_id key).0 same) (rw own_head (x.counted, x.rooted))
    | inr other ↦ rw (other_head key other) (x.others key other)
  ])

  finished-IsLedger : IsLedger chained s'.hub
  finished-IsLedger = record {
    unique = λ key. rw f.projects (
        omega (
          arith,
          x.unique key,
          rowcount-update (λ row. row.project_id == key) (is_basis s) (advanced s f.receipt)
              s.hub.projects (λ row. refl),
        ));
    chain = rw f.events x.chain;
    heads = IsHead-after;
  }

module _ (chained : (root content : String) → String) where
  -- A unit of work that ended well leaves a ledger.
  pub run_unit-IsLedger :
      (start s : Session) (ws : List Write) {u : Unit {0}}
      → IsOpen chained start s
      → (run_unit chained ws s).0 ≡ ok u
      → IsLedger chained (run_unit chained ws s).1.hub
  unfolding run_unit check_receipts
  run_unit-IsLedger start s ws x e =
      let (_, written, first) = >>=-ok (write_all chained ws) _ s e in
      let e1 = rw first at e in
      let s1 = (write_all chained ws s).1 in
      let (_, done, second) = >>=-ok finish _ s1 e1 in
      let f = finish-IsFinished s1 done in
      let ledger =
        finished-IsLedger chained start s1 (finish s1).1
          ((write_all-Stays chained start ws).after s x) f in
      rw (first, second) (kept (finish s1).1 ledger)
    where
      kept : (s : Session) → IsLedger chained s.hub → IsLedger chained (check_receipts s).1.hub
      kept s l = ground (arith, l)

  pub new_session-IsOpen :
      (h : Hub) (b : Basis) (project : ProjectRow)
      → IsLedger chained h
      → find? (λ row. row.project_id == b.project_id) h.projects ≡ some project
      → is_stale b project ≡ false
      → IsOpen chained
          (new_session h b.project_id b.receipt_id b.expected_authority_sequence
            b.expected_authority_root project.current_revision)
          (new_session h b.project_id b.receipt_id b.expected_authority_sequence
            b.expected_authority_root project.current_revision)
  new_session-IsOpen h b project l there fresh =
      let (number, root) =
        subst (λ found. IsHead chained found (digests b.project_id h.authority_events)) there
          (l.heads b.project_id) in
      record {
        unique = l.unique;
        chain = l.chain;
        others = λ key other. l.heads key;
        present = (project, there);
        counted = ground (arith, fresh, number);
        rooted = ground (
          arith,
          fresh,
          root,
          (eq_iff project.authority_root_sha256 b.expected_authority_root).0,
        );
        added_since = omega arith;
        same_project = refl;
        same_receipt = refl;
        same_prior = refl;
        same_root = refl;
        same_prior_revision = refl;
        same_revision = refl;
      }
