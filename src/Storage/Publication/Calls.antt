-- ===== src/Storage/Publication/Calls.antt =====
-- The inserts of the calls on commands and runs keep the ledgers; a new project starts a new chain.
use model_forge.Prelude.{
  String, ◌==◌, eq_iff, ◌≡◌, refl, Bool, false, none, List, [], ◌∷◌, arith, find?, any, inl, inr,
  Bool-cases,
}
use mathlib.Core.Path.{subst}
use model_forge.Storage.Database.Stays.{Stays, Stays-write}
use model_forge.Storage.Schema.Rows.{
  Hub, ProjectRow, RequestRow, CommandRow, RunRow, EventRow, ManifestRow, SubmissionRow, rowcount,
}
use model_forge.Storage.Schema.Publication.{zero_sha256}
use model_forge.Storage.Schema.Control.{
  insert_project, insert_request, insert_command, insert_run, insert_run_event, insert_manifest,
}
use model_forge.Storage.Schema.Execution.{insert_submission}
use model_forge.Storage.Publication.Ledger.{digests, root_of, IsHead, IsLedgerOf, IsLedger}

module _ {A : Type 0} where
  find?-none : (p : A → Bool) (rows : List A) → any p rows ≡ false → find? p rows ≡ none
  find?-none p [] e = refl
  find?-none p (row ∷ rows) e = ground (arith, find?-none p rows)

  rowcount-none : (p : A → Bool) (rows : List A) → any p rows ≡ false → rowcount p rows ≡ 0
  unfolding rowcount
  rowcount-none p [] e = refl
  rowcount-none p (row ∷ rows) e = ground (arith, rowcount-none p rows)

module _ (chained : (root content : String) → String) where
  -- A new project starts a new chain.
  ledger_with :
      (new : ProjectRow) (h : Hub)
      → new.authority_sequence ≡ 0
      → new.authority_root_sha256 ≡ zero_sha256
      → any (λ row. row.project_id == new.project_id) h.projects ≡ false
      → IsLedger chained h
      → IsLedgerOf chained (new ∷ h.projects) h.authority_events
  unfolding rowcount root_of
  ledger_with new h number root fresh l =
      let nothing : (key : String) → new.project_id ≡ key → digests key h.authority_events ≡ [] =
        λ key same.
          subst (λ found. IsHead chained found (digests key h.authority_events))
            (subst (λ k. find? (λ row. row.project_id == k) h.projects ≡ none) same
              (find?-none _ h.projects fresh))
            (l.heads key) in
      record {
        unique = λ key. elim (Bool-cases (new.project_id == key)) [
          | inr other ↦ rw other (l.unique key)
          | inl same ↦
              let gone =
                subst (λ k. rowcount (λ row. row.project_id == k) h.projects ≡ 0)
                  ((eq_iff new.project_id key).0 same) (rowcount-none _ h.projects fresh) in
              rw same (omega (arith, gone))
        ];
        chain = l.chain;
        heads = λ key. elim (Bool-cases (new.project_id == key)) [
          | inr other ↦ rw other (l.heads key)
          | inl same ↦ rw (same, nothing key ((eq_iff new.project_id key).0 same)) (number, root)
        ];
      }

  pub insert_project-Stays :
      (new : ProjectRow)
      → new.authority_sequence ≡ 0
      → new.authority_root_sha256 ≡ zero_sha256
      → Stays (IsLedger chained) (insert_project new)
  unfolding insert_project
  insert_project-Stays new number root = record {
    after = λ h l. ground (arith, l, ledger_with new h number root);
  }

  pub insert_request-Stays : (new : RequestRow) → Stays (IsLedger chained) (insert_request new)
  unfolding insert_request
  insert_request-Stays new = Stays-write _ _ _ _ (λ h l. l)

  pub insert_command-Stays : (new : CommandRow) → Stays (IsLedger chained) (insert_command new)
  unfolding insert_command
  insert_command-Stays new = Stays-write _ _ _ _ (λ h l. l)

  pub insert_run-Stays : (new : RunRow) → Stays (IsLedger chained) (insert_run new)
  unfolding insert_run
  insert_run-Stays new = Stays-write _ _ _ _ (λ h l. l)

  pub insert_run_event-Stays : (new : EventRow) → Stays (IsLedger chained) (insert_run_event new)
  unfolding insert_run_event
  insert_run_event-Stays new = Stays-write _ _ _ _ (λ h l. l)

  pub insert_manifest-Stays : (new : ManifestRow) → Stays (IsLedger chained) (insert_manifest new)
  unfolding insert_manifest
  insert_manifest-Stays new = Stays-write _ _ _ _ (λ h l. l)

  pub insert_submission-Stays :
      (new : SubmissionRow) → Stays (IsLedger chained) (insert_submission new)
  unfolding insert_submission
  insert_submission-Stays new = Stays-write _ _ _ _ (λ h l. l)
