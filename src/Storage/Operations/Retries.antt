-- ===== src/Storage/Operations/Retries.antt =====
-- A move that is sent again after it was applied: the event id tells the retry from a new move.
use mathlib.Core.Path.{subst}
use package.text.Mathlib.TextPositions.{eq_refl}
use model_forge.Prelude.{String, ◌≡◌, refl, sym, true, false, some, ok, arith}
use model_forge.Storage.Text.{Timestamp, text, digest, json, time}
use model_forge.Storage.Database.{immediate_transaction}
use model_forge.Storage.Schema.Rows.{Hub, RunRow}
use model_forge.Storage.Runs.Swap.{
  RunTransition, Swap, Move, swap_of, swap_event, unchanged, select_run, select_event, check_swap,
  decide_swap, look_and_swap, cas_run, move_run, compare_and_swap_run,
}
use model_forge.Storage.Runs.Swap.Outcome.{after_swap}
use model_forge.Storage.Runs.Journal.{IsJournaled}
use model_forge.Storage.Operations.Conflicts.{
  compare_and_swap_run-applied, compare_and_swap_run_effect,
}

-- The checks of a swap do not look at the database or at the time.
check_swap-later :
    (m : Move) (payload_json event_json at at' : String) (h h' : Hub)
    → (check_swap (swap_of m payload_json event_json at) h).0 ≡ ok tt
    → check_swap (swap_of m payload_json event_json at') h' ≡ (ok tt, h')
unfolding check_swap text digest
check_swap-later m payload_json event_json at at' h h' e = ground (arith, e)

look_and_swap-known :
    (q q' : Swap) (h : Hub) (run : RunRow)
    → select_event q'.event_id h ≡ some (swap_event q)
    → select_run q'.run_id h ≡ some run
    → q'.run_id ≡ q.run_id
    → q'.new_status ≡ q.new_status
    → q'.event_sha256 ≡ q.event_sha256
    → q'.event_json ≡ q.event_json
    → look_and_swap q' unchanged h
      ≡ (ok (record { applied = false; reason = "already_applied"; run = run }), h)
unfolding look_and_swap decide_swap
look_and_swap-known q q' h run known there same_run same_status same_sha same_json = ground (
  arith,
  known,
  there,
  same_run,
  same_status,
  same_sha,
  same_json,
  eq_refl q.run_id,
  eq_refl q.new_status,
  eq_refl q.event_sha256,
  eq_refl q.event_json,
)

select_event-after :
    (q : Swap) (h : Hub) → select_event q.event_id (after_swap q unchanged h) ≡ some (swap_event q)
select_event-after q h = rw (eq_refl q.event_id) refl

-- The transaction of a move whose checks pass is that of its reads.
retried :
    (m : Move) (again : Timestamp) (payload_json event_json at : String) (h : Hub) (run : RunRow)
    → json m.payload ≡ ok payload_json
    → json m.event_payload ≡ ok event_json
    → time again ≡ ok at
    → check_swap (swap_of m payload_json event_json at) h ≡ (ok tt, h)
    → look_and_swap (swap_of m payload_json event_json at) unchanged h
      ≡ (ok (record { applied = false; reason = "already_applied"; run = run }), h)
    → compare_and_swap_run (record m { recorded_at = again }) h
      ≡ (ok (record { applied = false; reason = "already_applied"; run = run }), h)
unfolding compare_and_swap_run immediate_transaction move_run cas_run
retried m again payload_json event_json at h run payload event_payload clock checked known =
    rw (payload, event_payload, clock, checked, known) refl

-- An applied move of a journaled database that is sent again, at whatever time: the retry changes
-- nothing, is reported as already applied, and returns the run as it stands.
pub compare_and_swap_run_retry :
    (m : Move) (again : Timestamp) (at' : String) (h : Hub) {r : RunTransition}
    → IsJournaled h
    → (compare_and_swap_run m h).0 ≡ ok r
    → r.applied ≡ true
    → time again ≡ ok at'
    → (run : RunRow) × (select_run m.run_id (compare_and_swap_run m h).1 ≡ some run)
      × (compare_and_swap_run (record m { recorded_at = again }) (compare_and_swap_run m h).1 ≡ (
        ok (record { applied = false; reason = "already_applied"; run = run }),
        (compare_and_swap_run m h).1,
      ))
compare_and_swap_run_retry m again at' h j e applied clock =
    let moved = compare_and_swap_run-applied m h e applied in
    let (_, run, _, _, _, there, _, _, _) = compare_and_swap_run_effect m h j e applied in
    let h' = (compare_and_swap_run m h).1 in
    let q = swap_of m moved.payload_json moved.event_json moved.at in
    let q' = swap_of m moved.payload_json moved.event_json at' in
    let known : select_event m.event_id h' ≡ some (swap_event q) =
      subst (λ g. select_event m.event_id g ≡ some (swap_event q)) (sym moved.applied.state)
        (select_event-after q h) in
    (
      run,
      there,
      retried m again moved.payload_json moved.event_json at' h' run moved.payload
          moved.event_payload clock
          (check_swap-later m moved.payload_json moved.event_json moved.at at' h h' moved.checked)
          (look_and_swap-known q q' h' run known there refl refl refl refl),
    )
