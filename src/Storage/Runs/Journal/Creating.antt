-- ===== src/Storage/Runs/Journal/Creating.antt =====
-- `create_run` keeps the journal: the row and the event with sequence 1 are written together.
use mathlib.Core.Path.{subst}
use text.Mathlib.TextPositions.{eq_refl}
use model_forge.Prelude.{
  ◌≤◌, String, ◌==◌, eq_iff, ◌≡◌, refl, sym, ◌∙◌, false, none, find?, any, arith, Bool-cases, inl,
  inr, ok, ◌∷◌, List, [],
}
use model_forge.Storage.Schema.Rows.{Hub, RunRow, EventRow, next_sequence, rowcount}
use model_forge.Storage.Schema.Control.{has_run, insert_run, insert_run_event}
use model_forge.Storage.Database.Keeps.{Keeps}
use model_forge.Storage.Runs.Creation.{new_run, first_event, write_run}
use model_forge.Storage.Runs.Swap.{select_run}
use model_forge.Storage.Runs.Journal.{newest_event, next_event, event_count, Agrees, IsJournaled}

no-run :
    (rows : List RunRow) (key : String)
    → any (λ row. row.run_id == key) rows ≡ false
    → (find? (λ row. row.run_id == key) rows ≡ none)
      × (rowcount (λ row. row.run_id == key) rows ≡ 0)
unfolding rowcount
no-run [] key h = (refl, refl)
no-run (row ∷ rows) key h = ground (arith, no-run rows key)

abbrev pub with_run : RunRow → EventRow → Hub → Hub
with_run new event h = record h { runs = new ∷ h.runs; run_events = event ∷ h.run_events }

-- The two inserts, if both return.
pub write_run-ok :
    (new : RunRow) (event : EventRow) (h : Hub)
    → (write_run new event h).0 ≡ ok tt
    → (has_run h new.run_id ≡ false) × ((write_run new event h).1 ≡ with_run new event h)
unfolding write_run insert_run insert_run_event
write_run-ok new event h e = ground arith

module _ (new : RunRow) (event : EventRow) (h : Hub) (j : IsJournaled h)
    (same_run : (key : String) → (event.run_id == key) ≡ (new.run_id == key))
    (first : event.sequence ≡ 1) (head : new.head_sequence ≡ 1) (status : event.status ≡ new.status)
    (fresh : has_run h new.run_id ≡ false) where
  Agrees-new :
      Agrees
        (select_run new.run_id (with_run new event h))
        (newest_event new.run_id (with_run new event h))
        (next_event new.run_id (with_run new event h))
        (event_count new.run_id (with_run new event h))
  unfolding next_sequence rowcount
  Agrees-new =
      let (silent, next, count) =
        subst
          (λ o.
            Agrees o (newest_event new.run_id h) (next_event new.run_id h)
              (event_count new.run_id h))
          (no-run h.runs new.run_id fresh).0 (j.agrees new.run_id) in
      rw (same_run new.run_id, eq_refl new.run_id)
        (event, refl, first ∙ sym head, status, ground arith, ground arith)

  Agrees-old :
      (key : String)
      → (new.run_id == key) ≡ false
      → Agrees
          (select_run key (with_run new event h))
          (newest_event key (with_run new event h))
          (next_event key (with_run new event h))
          (event_count key (with_run new event h))
  unfolding next_sequence rowcount
  Agrees-old key other = rw (same_run key, other) (j.agrees key)

  unique_new : (key : String) → rowcount (λ row. row.run_id == key) (with_run new event h).runs ≤ 1
  unfolding rowcount
  unique_new key =
      ground (arith, j.unique key, no-run h.runs new.run_id fresh, eq_iff new.run_id key)

  pub with_run-IsJournaled : IsJournaled (with_run new event h)
  with_run-IsJournaled = record {
    unique = unique_new;
    agrees = λ key. elim (Bool-cases (new.run_id == key)) [
      | inl same ↦
          subst
            (λ k.
              Agrees (select_run k (with_run new event h)) (newest_event k (with_run new event h))
                (next_event k (with_run new event h)) (event_count k (with_run new event h)))
            ((eq_iff new.run_id key).0 same) Agrees-new
      | inr other ↦ Agrees-old key other
    ];
  }

pub write_run-Keeps :
    (run_id project_id command_id status payload_json event_id event_sha256 event_json at : String)
    → Keeps IsJournaled (
        write_run
          (new_run run_id project_id command_id status payload_json at)
          (first_event event_id run_id status event_sha256 event_json at))
write_run-Keeps run_id project_id command_id status payload_json event_id event_sha256 event_json
      at =
    record {
      at = λ h u e j.
          let new = new_run run_id project_id command_id status payload_json at in
          let event = first_event event_id run_id status event_sha256 event_json at in
          let (fresh, state) = write_run-ok new event h e in
          rw state (with_run-IsJournaled new event h j (λ key. refl) refl refl refl fresh);
    }
