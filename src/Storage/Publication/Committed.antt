-- ===== src/Storage/Publication/Committed.antt =====
-- What a committed publication has done, and that it makes its basis stale for all others.
use mathlib.Core.Path.{subst}
use mathlib.Core.Option.{some-injective}
use model_forge.Prelude.{
  ℕ, ◌+◌, ◌≤◌, String, ◌≡◌, refl, sym, ap, ◌∙◌, ◌⊎◌, inl, inr, false, some, List, arith, ok, err,
  Option-cases,
}
use model_forge.Storage.Text.{text, digest}
use model_forge.Storage.Database.{lift}
use model_forge.Storage.Database.Rules.{>>=-ok, transaction_cases}
use model_forge.Storage.Database.Atomic.{IsAtomic, outcomes, atomic_rules}
use model_forge.Storage.Database.Keeps.{Keeps, keeps_rules}
use model_forge.Storage.Schema.Rows.{Hub, ProjectRow}
use model_forge.Storage.Commands.{select_project}
use model_forge.Storage.Publication.Session.{Session, new_session}
use model_forge.Storage.Publication.Sealing.{
  advanced, finish, check_receipts, Write, write_all, run_unit, open_unit, Basis, is_stale, publish,
  publication_transaction,
}
use model_forge.Storage.Publication.Ledger.{IsLedger}
use model_forge.Storage.Publication.Opening.{IsOpen, write_all-Stays}
use model_forge.Storage.Publication.Chain.{
  finish-IsFinished, own_head, run_unit-IsLedger, new_session-IsOpen,
}

-- The unit of work that a basis opens.
abbrev opened : Basis → ProjectRow → Hub → Session
opened b project h =
    new_session h b.project_id b.receipt_id b.expected_authority_sequence b.expected_authority_root
      project.current_revision

module _ (chained : (root content : String) → String) where
  publish_opens :
      (b : Basis) (ws : List Write) (h : Hub) {u : Unit {0}}
      → (publish chained b ws h).0 ≡ ok u
      → (project : ProjectRow) × (select_project b.project_id h ≡ some project)
        × (is_stale b project ≡ false)
        × (publish chained b ws h ≡ open_unit chained b ws project h)
  unfolding publish
  publish_opens b ws h e = elim (Option-cases (select_project b.project_id h)) [
    | inl absent ↦ cc (rw absent at e)
    | inr (project, there) ↦
        (project, there, ground (arith, rw there at e), rw there (ground (arith, rw there at e)))
  ]

  publish-Keeps : (b : Basis) (ws : List Write) → Keeps (IsLedger chained) (publish chained b ws)
  unfolding open_unit
  publish-Keeps b ws = record {
    at = λ h u e l.
        let (project, there, fresh, same) = publish_opens b ws h e in
        rw same (
          run_unit-IsLedger chained (opened b project h) (opened b project h) ws
            (new_session-IsOpen chained h b project l there fresh) (rw same at e));
  }

  -- A unit of work that ended well has moved the row of its project.
  run_unit-moves :
      (start s : Session) (ws : List Write) {u : Unit {0}}
      → IsOpen chained start s
      → (run_unit chained ws s).0 ≡ ok u
      → (added : ℕ) × (row : ProjectRow) × (select_project start.project_id
            (run_unit chained ws s).1.hub
          ≡ some row)
        × (1 ≤ added)
        × (row.authority_sequence ≡ start.prior_authority_sequence + added)
        × (row.current_revision ≡ start.current_revision)
  unfolding run_unit check_receipts
  run_unit-moves start s ws x e =
      let (_, written, first) = >>=-ok (write_all chained ws) _ s e in
      let e1 = rw first at e in
      let s1 = (write_all chained ws s).1 in
      let (_, done, second) = >>=-ok finish _ s1 e1 in
      let f = finish-IsFinished s1 done in
      let x1 = (write_all-Stays chained start ws).after s x in
      let found =
        subst
          (λ key. select_project key (finish s1).1.hub ≡ some (advanced s1 f.receipt x1.present.0))
          x1.same_project (own_head chained start s1 (finish s1).1 x1 f) in
      (
        s1.events_added,
        advanced s1 f.receipt x1.present.0,
        rw (first, second) (kept (finish s1).1 found),
        ground (arith, f.added),
        x1.added_since ∙ ap (λ n. n + s1.events_added) x1.same_prior,
        x1.same_revision,
      )
    where
      kept :
          (s2 : Session) {row : ProjectRow}
          → select_project start.project_id s2.hub ≡ some row
          → select_project start.project_id (check_receipts s2).1.hub ≡ some row
      kept s2 found = ground (arith, found)

  -- The transaction around the unit of work.
  transaction_runs :
      (b : Basis) (ws : List Write) (h : Hub) {u : Unit {0}}
      → (publication_transaction chained b ws h).0 ≡ ok u
      → ((publish chained b ws h).0 ≡ ok tt)
        × ((publication_transaction chained b ws h).1 ≡ (publish chained b ws h).1)
  unfolding publication_transaction
  transaction_runs b ws h e =
      let (_, _, first) = >>=-ok (lift (text b.project_id)) _ h e in
      let e1 = rw first at e in
      let (_, _, second) = >>=-ok (lift (text b.receipt_id)) _ h e1 in
      let e2 = rw second at e1 in
      let (_, _, third) = >>=-ok (lift (digest b.expected_authority_root)) _ h e2 in
      let e3 = rw third at e2 in
      elim (transaction_cases (publish chained b ws) h) [
        | inl (_, returned, same) ↦ (returned, rw (first, second, third, same) refl)
        | inr (_, _, failed) ↦ cc (rw failed at e3)
      ]

  pub publication_transaction-IsAtomic :
      (b : Basis) (ws : List Write) → IsAtomic (publication_transaction chained b ws)
  unfolding publication_transaction
  publication_transaction-IsAtomic b ws = search atomic_rules depth 20

  pub publication_transaction-Keeps :
      (b : Basis) (ws : List Write)
      → Keeps (IsLedger chained) (publication_transaction chained b ws)
  unfolding publication_transaction
  publication_transaction-Keeps b ws = search (keeps_rules, publish-Keeps) depth 20

  -- A publication returns, or it raises and the database is what it was.
  outcome :
      (b : Basis) (ws : List Write) (h : Hub)
      → ((publication_transaction chained b ws h).0 ≡ ok tt)
        ⊎ ((x : String) × (publication_transaction chained b ws h ≡ (err x, h)))
  outcome b ws h =
      elim (outcomes (publication_transaction chained b ws) h
        (publication_transaction-IsAtomic b ws)) [
          | inl (_, returned) ↦ inl returned
          | inr failed ↦ inr failed
        ]

  -- A committed publication, where the ledgers hold: the project had the expected head; its authority
  -- sequence has moved by one or more, and its current revision by one.
  pub publication_transaction_effect :
      (b : Basis) (ws : List Write) (h : Hub)
      → IsLedger chained h
      → (publication_transaction chained b ws h).0 ≡ ok tt
      → (old new : ProjectRow) × (added : ℕ) × (select_project b.project_id h ≡ some old)
        × (is_stale b old ≡ false)
        × (select_project b.project_id (publication_transaction chained b ws h).1 ≡ some new)
        × (1 ≤ added)
        × (new.authority_sequence ≡ old.authority_sequence + added)
        × (new.current_revision ≡ old.current_revision + 1)
  unfolding open_unit
  publication_transaction_effect b ws h l e =
      let (published, after) = transaction_runs b ws h e in
      let (project, there, fresh, same) = publish_opens b ws h published in
      let start = opened b project h in
      let (added, row, found, positive, sequence, revision) =
        run_unit-moves start start ws (new_session-IsOpen chained h b project l there fresh)
          (rw same at published) in
      (
        project,
        row,
        added,
        there,
        fresh,
        rw (after, same) found,
        positive,
        ground (arith, sequence, fresh),
        revision,
      )

  -- Once a publication is committed where the ledgers hold, every other one that expects the same
  -- authority sequence of the project fails, whatever it would write, and changes nothing.
  pub second_publication_refused :
      (b c : Basis) (ws vs : List Write) (h : Hub)
      → IsLedger chained h
      → (publication_transaction chained b ws h).0 ≡ ok tt
      → c.project_id ≡ b.project_id
      → c.expected_authority_sequence ≡ b.expected_authority_sequence
      → (x : String) × (publication_transaction chained c vs
            (publication_transaction chained b ws h).1
          ≡ (err x, (publication_transaction chained b ws h).1))
  second_publication_refused b c ws vs h l e same_project same_sequence =
      let h' = (publication_transaction chained b ws h).1 in
      elim (outcome c vs h') [
        | inr failed ↦ failed
        | inl passed ↦
            let (published, _) = transaction_runs c vs h' passed in
            let (project, there, fresh, _) = publish_opens c vs h' published in
            let (old, new, added, _, was, now, positive, sequence, _) =
              publication_transaction_effect b ws h l e in
            let one = subst (λ k. select_project k h' ≡ some project) same_project there in
            absurd (
              ground (
                arith,
                some-injective new project (sym now ∙ one),
                fresh,
                was,
                sequence,
                positive,
                same_sequence,
              ))
      ]
