-- ===== src/Storage/Runs/Cancellation/Decision.antt =====
-- On which branches `request_cancellation` writes.
use model_forge.Prelude.{String, ◌≡◌, ◌⊎◌, false, none, some, arith}
use model_forge.Storage.Schema.Rows.{Hub, RunRow}
use model_forge.Storage.Runs.Swap.{Move, select_run, select_submission}
use model_forge.Storage.Runs.Cancellation.{decide_cancellation, swap_to_requested}

-- Either nothing was written, or the run had no submission and was not fenced, and was swapped.
pub decide_cancellation_cases :
    (command_id : String) (m : Move) (at : String) (h : Hub)
    → ((decide_cancellation command_id m at h).1 ≡ h)
      ⊎ ((run : RunRow) × (select_run m.run_id h ≡ some run)
          × (run.cancellation_fenced ≡ false)
          × (select_submission m.run_id h ≡ none)
          × (decide_cancellation command_id m at h ≡ swap_to_requested command_id m at h))
unfolding decide_cancellation
decide_cancellation_cases command_id m at h = ground arith
