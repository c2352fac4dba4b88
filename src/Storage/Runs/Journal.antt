-- ===== src/Storage/Runs/Journal.antt =====
-- The invariant that ties a run to its events: the row of a run has the status and the sequence of
-- its newest event, and its events are numbered 1, 2, … without a gap.
pub mod Swapping
pub mod Creating
pub mod Methods
pub mod Progress
use model_forge.Prelude.{ℕ, ◌+◌, ◌≤◌, String, ◌==◌, ◌≡◌, Option, none, some, find?}
use model_forge.Storage.Schema.Rows.{Hub, RunRow, EventRow, next_sequence, rowcount}
use model_forge.Storage.Runs.Swap.{select_run}

-- The newest event of a run.
abbrev pub newest_event : String → Hub → Option EventRow
newest_event key h = find? (λ row. row.run_id == key) h.run_events

abbrev pub next_event : String → Hub → ℕ
next_event key h = next_sequence (λ row. row.run_id == key) (λ row. row.sequence) h.run_events

abbrev pub event_count : String → Hub → ℕ
event_count key h = rowcount (λ row. row.run_id == key) h.run_events

-- How a run's row, its newest event, its next sequence and its number of events agree.
abbrev pub Agrees : Option RunRow → Option EventRow → (next count : ℕ) → Type 0
Agrees none newest next count = (newest ≡ none) × (next ≡ 1) × (count ≡ 0)
Agrees (some run) newest next count =
    (event : EventRow) × (newest ≡ some event)
    × (event.sequence ≡ run.head_sequence)
    × (event.status ≡ run.status)
    × (next ≡ run.head_sequence + 1)
    × (count ≡ run.head_sequence)

pub record IsJournaled (h : Hub) : Type 0 where
  pub unique : (key : String) → rowcount (λ row. row.run_id == key) h.runs ≤ 1
  pub agrees :
      (key : String)
      → Agrees (select_run key h) (newest_event key h) (next_event key h) (event_count key h)
