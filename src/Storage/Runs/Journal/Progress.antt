-- ===== src/Storage/Runs/Journal/Progress.antt =====
-- In a journaled database no trigger and no constraint stops a move that expects the head of its run.
use model_forge.Prelude.{
  ◌+◌, ◌≤◌, String, ◌==◌, eq_iff, ◌≡◌, refl, ◌∙◌, true, none, some, ok, arith, nat_eq,
}
use mathlib.Core.Path.{subst}
use model_forge.Storage.Text.{text, digest, json, time, is_sha256}
use model_forge.Storage.Database.{immediate_transaction}
use model_forge.Storage.Schema.Rows.{Hub, RunRow, rowcount, sha_length}
use model_forge.Storage.Schema.Tables.{any-none, any-some, any_next, rowcount_one}
use model_forge.Storage.Schema.Control.{insert_run_event}
use model_forge.Storage.Runs.Swap.{
  RunTransition, Swap, Move, swap_of, select_run, select_event, is_target, swapped, swap_event,
  cas_run, unchanged, update_run, write_swap, check_swap, decide_swap, look_and_swap, move_run,
  compare_and_swap_run,
}
use model_forge.Storage.Runs.Swap.Outcome.{after_swap, updated}
use model_forge.Storage.Runs.Journal.{newest_event, next_event, event_count, Agrees, IsJournaled}
use model_forge.Storage.Runs.Journal.Swapping.{
  is_target-run_id, is_target_found, select_after, unchanged-KeepsHead,
}

digest-length :
    (value : String) {d : String} → digest value ≡ ok d → nat_eq (sha_length value) 64 ≡ true
unfolding digest is_sha256
digest-length value e = ground arith

module _ (q : Swap) (h : Hub) (j : IsJournaled h) (run : RunRow)
    (found : select_run q.run_id h ≡ some run) (status : run.status ≡ q.expected_status)
    (sequence : run.head_sequence ≡ q.expected_sequence) where
  expected_next : next_event q.run_id h ≡ q.expected_sequence + 1
  expected_next =
      let (event, _, _, _, next, _) =
        subst
          (λ o. Agrees o (newest_event q.run_id h) (next_event q.run_id h) (event_count q.run_id h))
          found (j.agrees q.run_id) in
      omega (arith, next, sequence)

  one_target : rowcount (is_target q) h.runs ≡ 1
  one_target =
      rowcount_one (is_target q) (λ row. row.run_id == q.run_id) h.runs run (is_target-run_id q)
        (j.unique q.run_id) found (is_target_found q h run found status sequence)

  select_moved : select_run q.run_id (after_swap q unchanged h) ≡ some (swapped q unchanged run)
  select_moved =
      select_after q unchanged unchanged-KeepsHead h j q.run_id
      ∙ rw (found, is_target_found q h run found status sequence) refl

  event_accepted :
      {d : String}
      → select_event q.event_id h ≡ none
      → digest q.event_sha256 ≡ ok d
      → insert_run_event (swap_event q) (updated q unchanged h) ≡ (ok tt, after_swap q unchanged h)
  unfolding insert_run_event
  event_accepted {d = d} fresh valid = ground (
    arith,
    any-none (λ row. row.event_id == q.event_id) h.run_events fresh,
    any-some (λ row. row.run_id == q.run_id) (updated q unchanged h).runs
        {x = swapped q unchanged run} select_moved,
    any_next (λ row. row.run_id == q.run_id) (λ row. row.sequence) h.run_events
        (q.expected_sequence + 1),
    expected_next,
    digest-length q.event_sha256 {d = d} valid,
  )

  abbrev moved : RunTransition
  moved = record { applied = true; reason = "applied"; run = swapped q unchanged run }

  write_swap-returns :
      {d : String}
      → select_event q.event_id h ≡ none
      → digest q.event_sha256 ≡ ok d
      → (write_swap q unchanged h).0 ≡ ok moved
  unfolding write_swap update_run
  write_swap-returns fresh valid = rw (one_target, event_accepted fresh valid, select_moved) refl

  decide_swap-returns :
      {d : String}
      → select_event q.event_id h ≡ none
      → digest q.event_sha256 ≡ ok d
      → (decide_swap q unchanged none run h).0 ≡ ok moved
  unfolding decide_swap
  decide_swap-returns fresh valid =
      ground (
        arith,
        eq_iff run.status q.expected_status,
        status,
        sequence,
        write_swap-returns fresh valid,
      )

  look_and_swap-returns :
      {d : String}
      → select_event q.event_id h ≡ none
      → digest q.event_sha256 ≡ ok d
      → (look_and_swap q unchanged h).0 ≡ ok moved
  unfolding look_and_swap
  look_and_swap-returns fresh valid = rw (fresh, found) (decide_swap-returns fresh valid)

-- The arguments of a move that pass the checks of `_cas_run`.
pub record IsValid (m : Move) : Type 0 where
  pub run_id : text m.run_id ≡ ok m.run_id
  pub expected_status : text m.expected_status ≡ ok m.expected_status
  pub new_status : text m.new_status ≡ ok m.new_status
  pub event_id : text m.event_id ≡ ok m.event_id
  pub event_sha256 : digest m.event_sha256 ≡ ok m.event_sha256
  pub expected_sequence : 1 ≤ m.expected_sequence
  pub payload_json : String
  pub payload : json m.payload ≡ ok payload_json
  pub event_json : String
  pub event_payload : json m.event_payload ≡ ok event_json
  pub at : String
  pub recorded_at : time m.recorded_at ≡ ok at

check_swap-passes :
    (m : Move) (payload_json event_json at : String) (h : Hub)
    → IsValid m
    → check_swap (swap_of m payload_json event_json at) h ≡ (ok tt, h)
unfolding check_swap
check_swap-passes m payload_json event_json at h v =
    rw (v.run_id, v.expected_status, v.new_status, v.event_id, v.event_sha256)
      (ground (arith, v.expected_sequence))

-- A move with valid arguments that expects the head of its run, in a journaled database that does not
-- know its event id, is applied, and the run that it returns has the new status.
pub compare_and_swap_run_applies :
    (m : Move) (h : Hub) (run : RunRow)
    → IsValid m
    → IsJournaled h
    → select_run m.run_id h ≡ some run
    → run.status ≡ m.expected_status
    → run.head_sequence ≡ m.expected_sequence
    → select_event m.event_id h ≡ none
    → (r : RunTransition) × ((compare_and_swap_run m h).0 ≡ ok r)
      × (r.applied ≡ true)
      × (r.run.status ≡ m.new_status)
unfolding compare_and_swap_run immediate_transaction move_run cas_run
compare_and_swap_run_applies m h run v j found status sequence fresh =
    let q = swap_of m v.payload_json v.event_json v.at in
    (
      record { applied = true; reason = "applied"; run = swapped q unchanged run },
      rw
          (
            v.payload,
            v.event_payload,
            v.recorded_at,
            check_swap-passes m v.payload_json v.event_json v.at h v,
            look_and_swap-returns q h j run found status sequence fresh v.event_sha256,
          )
          refl,
      refl,
      refl,
    )
