-- ===== src/Storage/Executions/Beating.antt =====
-- How `append_execution_heartbeat` numbers the heartbeats of every execution.
use text.Mathlib.TextPositions.{eq_refl}
use model_forge.Prelude.{
  ℕ, ◌+◌, ◌∙◌, ap, String, ◌==◌, eq_iff, ◌≡◌, refl, inl, inr, true, none, some, List, [], ◌∷◌, ok,
  arith, Bool-cases,
}
use model_forge.Storage.Schema.Rows.{Hub, ExecutionRow, HeartbeatRow, next_sequence, rowcount}
use model_forge.Storage.Schema.Tables.{any-none, any-some, any_next}
use model_forge.Storage.Schema.Execution.{insert_heartbeat}
use model_forge.Storage.Executions.{select_execution, select_heartbeat, beat}

-- How many of the rows are heartbeats of an execution.
abbrev pub beats : String → List HeartbeatRow → ℕ
beats key rows = rowcount (λ row. row.execution_id == key) rows

-- The heartbeats, the newest first, are numbered from 1 within each execution.
abbrev pub IsNumbered : List HeartbeatRow → Type 0
IsNumbered [] = Unit
IsNumbered (row ∷ rows) = (row.sequence ≡ beats row.execution_id rows + 1) × IsNumbered rows

next_is_count :
    (key : String) (rows : List HeartbeatRow)
    → IsNumbered rows
    → next_sequence (λ row. row.execution_id == key) (λ row. row.sequence) rows ≡ beats key rows + 1
unfolding next_sequence rowcount
next_is_count key [] numbered = refl
next_is_count key (row ∷ rows) (this, others) = elim (Bool-cases (row.execution_id == key)) [
  | inl own ↦
      let number : row.sequence ≡ beats key rows + 1 =
        this ∙ ap (λ k. beats k rows + 1) ((eq_iff row.execution_id key).0 own) in
      ground (arith, own, number, next_is_count key rows others)
  | inr other ↦ rw other (next_is_count key rows others)
]

module _ (new : HeartbeatRow) (h : Hub) (execution : ExecutionRow)
    (there : select_execution new.execution_id h ≡ some execution)
    (fresh : select_heartbeat new.heartbeat_id h ≡ none)
    (numbered : IsNumbered h.role_execution_heartbeats) where
  -- The heartbeat with its number.
  abbrev row : HeartbeatRow
  row = record new { sequence = beats new.execution_id h.role_execution_heartbeats + 1 }

  abbrev with_row : Hub
  with_row = record h { role_execution_heartbeats = row ∷ h.role_execution_heartbeats }

  next :
      next_sequence
        (λ row. row.execution_id == new.execution_id)
        (λ row. row.sequence)
        h.role_execution_heartbeats
      ≡ row.sequence
  next = next_is_count new.execution_id h.role_execution_heartbeats numbered

  row_accepted : insert_heartbeat row h ≡ (ok tt, with_row)
  unfolding insert_heartbeat
  row_accepted = ground (
    arith,
    any-none (λ row. row.heartbeat_id == new.heartbeat_id) h.role_execution_heartbeats fresh,
    any-some (λ row. row.execution_id == new.execution_id) h.role_execution_intents {x = execution}
        there,
    any_next (λ row. row.execution_id == new.execution_id) (λ row. row.sequence)
        h.role_execution_heartbeats row.sequence,
    next,
  )

  beat-returns : beat new h ≡ (ok (record { created = true; row = row }), with_row)
  unfolding beat
  beat-returns = rw (there, fresh, next, row_accepted, eq_refl new.heartbeat_id) refl

-- Where every execution has its heartbeats numbered from 1, a heartbeat with a new id for an execution
-- that is there is created, with the number after those of its execution, however many the others
-- have; the heartbeats of every execution are numbered so again, and its own are one more.
pub beat-IsNumbered :
    (new : HeartbeatRow) (h : Hub) (execution : ExecutionRow)
    → select_execution new.execution_id h ≡ some execution
    → select_heartbeat new.heartbeat_id h ≡ none
    → IsNumbered h.role_execution_heartbeats
    → let number = beats new.execution_id h.role_execution_heartbeats + 1 in
      let rows = (beat new h).1.role_execution_heartbeats in
      ((beat new h).0 ≡ ok (record { created = true; row = record new { sequence = number } }))
      × IsNumbered rows
      × (beats new.execution_id rows ≡ number)
unfolding rowcount
beat-IsNumbered new h execution there fresh numbered =
    let returns = beat-returns new h execution there fresh numbered in
    (
      ap (λ p. p.0) returns,
      rw returns (refl, numbered),
      rw (returns, eq_refl new.execution_id) (omega arith),
    )
