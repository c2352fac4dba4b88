-- ===== src/Storage/Operations/Conflicts.antt =====
-- Optimistic concurrency of `compare_and_swap_run`: what an applied move does, and that of two moves
-- that expect the same head of a run at most one is applied.
use mathlib.Core.Path.{subst}
use mathlib.Core.Option.{some-injective}
use model_forge.Prelude.{
  ◌+◌, String, ◌==◌, ◌≡◌, refl, sym, ◌∙◌, inl, inr, true, false, some, ok, arith, Bool-cases,
}
use model_forge.Storage.Text.{json, time}
use model_forge.Storage.Database.{lift}
use model_forge.Storage.Database.Rules.{>>=-ok, transaction_cases}
use model_forge.Storage.Schema.Rows.{Hub, RunRow}
use model_forge.Storage.Runs.Swap.{
  check_swap, RunTransition, Swap, Move, swap_of, unchanged, select_run, swapped, cas_run, move_run,
  compare_and_swap_run,
}
use model_forge.Storage.Runs.Swap.Outcome.{IsApplied, cas_run-ok}
use model_forge.Storage.Runs.Journal.{IsJournaled}
use model_forge.Storage.Runs.Journal.Swapping.{
  unchanged-KeepsHead, select_after, select_other, is_target_found,
}

-- An applied move is an applied swap.
pub record IsMoved (m : Move) (h h' : Hub) : Type 0 where
  pub payload_json : String
  pub event_json : String
  pub at : String
  pub payload : json m.payload ≡ ok payload_json
  pub event_payload : json m.event_payload ≡ ok event_json
  pub checked : (check_swap (swap_of m payload_json event_json at) h).0 ≡ ok tt
  pub applied : IsApplied (swap_of m payload_json event_json at) unchanged h h'

cas_run-applied :
    (q : Swap) (h : Hub) {r : RunTransition}
    → (cas_run q unchanged h).0 ≡ ok r
    → r.applied ≡ true
    → IsApplied q unchanged h (cas_run q unchanged h).1
cas_run-applied q h e applied = elim (cas_run-ok q unchanged h e) [
  | inl (refused, _) ↦ cc
  | inr (inl (_, a)) ↦ a
  | inr (inr (refused, _)) ↦ cc
]

cas_run-checked :
    (q : Swap) (h : Hub) {r : RunTransition}
    → (cas_run q unchanged h).0 ≡ ok r
    → (check_swap q h).0 ≡ ok tt
unfolding cas_run
cas_run-checked q h e = (>>=-ok (check_swap q) _ h e).1

move_run-applied :
    (m : Move) (h : Hub) {r : RunTransition}
    → (move_run m h).0 ≡ ok r
    → r.applied ≡ true
    → IsMoved m h (move_run m h).1
unfolding move_run
move_run-applied m h e applied =
    let (payload_json, payload, first) = >>=-ok (lift (json m.payload)) _ h e in
    let e' = rw first at e in
    let (event_json, event_payload, second) = >>=-ok (lift (json m.event_payload)) _ h e' in
    let e'' = rw second at e' in
    let (at, _, third) = >>=-ok (lift (time m.recorded_at)) _ h e'' in
    rw (first, second, third)
      (record {
        payload_json = payload_json;
        event_json = event_json;
        at = at;
        payload = payload;
        event_payload = event_payload;
        checked = cas_run-checked _ h (rw third at e'');
        applied = cas_run-applied _ h (rw third at e'') applied;
      })

pub compare_and_swap_run-applied :
    (m : Move) (h : Hub) {r : RunTransition}
    → (compare_and_swap_run m h).0 ≡ ok r
    → r.applied ≡ true
    → IsMoved m h (compare_and_swap_run m h).1
unfolding compare_and_swap_run
compare_and_swap_run-applied m h e applied = elim (transaction_cases (move_run m) h) [
  | inl (r', returned, done) ↦ rw done (move_run-applied m h returned (cc (rw done at e, applied)))
  | inr (x, _, failed) ↦ cc (rw failed at e)
]

-- An applied move of a journaled database: the run had the expected status and sequence; it now has
-- the new status, the next sequence and the cancellation fence that it had.
pub compare_and_swap_run_effect :
    (m : Move) (h : Hub) {r : RunTransition}
    → IsJournaled h
    → (compare_and_swap_run m h).0 ≡ ok r
    → r.applied ≡ true
    → (old new : RunRow) × (select_run m.run_id h ≡ some old)
      × (old.status ≡ m.expected_status)
      × (old.head_sequence ≡ m.expected_sequence)
      × (select_run m.run_id (compare_and_swap_run m h).1 ≡ some new)
      × (new.status ≡ m.new_status)
      × (new.head_sequence ≡ m.expected_sequence + 1)
      × (new.cancellation_fenced ≡ old.cancellation_fenced)
compare_and_swap_run_effect m h j e applied =
    let moved = compare_and_swap_run-applied m h e applied in
    let a = moved.applied in
    let q = swap_of m moved.payload_json moved.event_json moved.at in
    let there = select_after q unchanged unchanged-KeepsHead h j in
    (
      a.run,
      swapped q unchanged a.run,
      a.found,
      a.status,
      a.sequence,
      rw (a.state, there m.run_id, a.found, is_target_found q h a.run a.found a.status a.sequence)
          refl,
      refl,
      refl,
      refl,
    )

-- An applied move of a journaled database leaves every other run as it was.
pub compare_and_swap_run_frame :
    (m : Move) (h : Hub) (key : String) {r : RunTransition}
    → IsJournaled h
    → (compare_and_swap_run m h).0 ≡ ok r
    → r.applied ≡ true
    → (m.run_id == key) ≡ false
    → select_run key (compare_and_swap_run m h).1 ≡ select_run key h
compare_and_swap_run_frame m h key j e applied other =
    let moved = compare_and_swap_run-applied m h e applied in
    let q = swap_of m moved.payload_json moved.event_json moved.at in
    rw moved.applied.state (
      select_after q unchanged unchanged-KeepsHead h j key
      ∙ select_other q unchanged unchanged-KeepsHead h j key other)

-- Of two moves of one run that expect the same sequence in a journaled database, the second, if it
-- returns, is not applied once the first is, whatever else the two ask for.
pub second_swap_refused :
    (m n : Move) (h : Hub) {r s : RunTransition}
    → IsJournaled h
    → n.run_id ≡ m.run_id
    → n.expected_sequence ≡ m.expected_sequence
    → (compare_and_swap_run m h).0 ≡ ok r
    → r.applied ≡ true
    → (compare_and_swap_run n (compare_and_swap_run m h).1).0 ≡ ok s
    → s.applied ≡ false
second_swap_refused m n h {s = s} j same_run same_head e applied e' = elim (Bool-cases s.applied) [
  | inr refused ↦ refused
  | inl both ↦
      let (old, new, _, _, _, found, _, head, _) = compare_and_swap_run_effect m h j e applied in
      let a = (compare_and_swap_run-applied n _ e' both).applied in
      let found' =
        subst (λ k. select_run k (compare_and_swap_run m h).1 ≡ some a.run) same_run a.found in
      absurd (ground (arith, some-injective new a.run (sym found ∙ found'), a.sequence))
]
