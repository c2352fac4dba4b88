-- ===== src/Storage/Runs/Sealing/Decision.antt =====
-- On which branches `seal_submission` writes.
use model_forge.Prelude.{String, ◌≡◌, ◌⊎◌, false, none, some, arith}
use model_forge.Storage.Schema.Rows.{Hub, RunRow}
use model_forge.Storage.Runs.Swap.{Move, select_run, select_submission}
use model_forge.Storage.Runs.Sealing.{Submission, decide_submission, write_submission}

-- Either nothing was written, or the run had no submission and was not fenced, and was written.
pub decide_submission_cases :
    (s : Submission) (m : Move) (run_json at : String) (h : Hub)
    → ((decide_submission s m run_json at h).1 ≡ h)
      ⊎ ((run : RunRow) × (select_run m.run_id h ≡ some run)
          × (run.cancellation_fenced ≡ false)
          × (select_submission m.run_id h ≡ none)
          × (decide_submission s m run_json at h ≡ write_submission s m run_json at h))
unfolding decide_submission
decide_submission_cases s m run_json at h = ground arith
