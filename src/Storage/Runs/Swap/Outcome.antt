-- ===== src/Storage/Runs/Swap/Outcome.antt =====
-- What a `_cas_run` that returned has done.
use model_forge.Prelude.{
  ◌≡◌, refl, ap, ◌∙◌, ◌⊎◌, inl, inr, Bool, true, false, Option, none, some, ok, nat_eq, eq_iff,
  ◌==◌, arith, Bool-cases, Option-cases, ◌∷◌, not, ◌||◌,
}
use model_forge.Storage.Text.{text, digest}
use model_forge.Storage.Database.Rules.{>>=-ok}
use model_forge.Storage.Schema.Rows.{Hub, RunRow, EventRow, update, rowcount}
use model_forge.Storage.Schema.Control.{insert_run_event}
use model_forge.Storage.Runs.Swap.{
  RunTransition, Swap, select_run, select_event, is_target, swapped, swap_event, update_run,
  write_swap, same_event, check_swap, decide_swap, look_and_swap, cas_run,
}

-- The database after the transition.
abbrev pub after_swap : Swap → (RunRow → RunRow) → Hub → Hub
after_swap q extra h = record h {
  runs = update (is_target q) (swapped q extra) h.runs;
  run_events = swap_event q ∷ h.run_events;
}

abbrev pub updated : Swap → (RunRow → RunRow) → Hub → Hub
updated q extra h = record h { runs = update (is_target q) (swapped q extra) h.runs }

check_swap_state : (q : Swap) (h : Hub) → (check_swap q h).1 ≡ h
unfolding check_swap text digest
check_swap_state q h = ground arith

-- The swap was made: the run was found as expected, its event is new, exactly one row was changed,
-- and the event was accepted.
pub record IsApplied (q : Swap) (extra : RunRow → RunRow) (h : Hub) (h' : Hub) : Type 0 where
  pub run : RunRow
  pub found : select_run q.run_id h ≡ some run
  pub status : run.status ≡ q.expected_status
  pub sequence : run.head_sequence ≡ q.expected_sequence
  pub fresh : select_event q.event_id h ≡ none
  pub one : rowcount (is_target q) h.runs ≡ 1
  pub accepted : insert_run_event (swap_event q) (updated q extra h) ≡ (ok tt, after_swap q extra h)
  pub state : h' ≡ after_swap q extra h

-- The `UPDATE` changed another number of rows than one. No primary key allows it.
pub record IsMiscounted (q : Swap) (extra : RunRow → RunRow) (h : Hub) : Type 0 where
  pub run : RunRow
  pub found : select_run q.run_id h ≡ some run
  pub status : run.status ≡ q.expected_status
  pub sequence : run.head_sequence ≡ q.expected_sequence
  pub other : nat_eq (rowcount (is_target q) h.runs) 1 ≡ false

write_swap-ok :
    (q : Swap) (extra : RunRow → RunRow) (h : Hub) {r : RunTransition}
    → (write_swap q extra h).0 ≡ ok r
    → nat_eq (rowcount (is_target q) h.runs) 1 ≡ true
    → (insert_run_event (swap_event q) (updated q extra h) ≡ (ok tt, after_swap q extra h))
      × ((write_swap q extra h).1 ≡ after_swap q extra h)
      × (r.applied ≡ true)
unfolding write_swap update_run insert_run_event
write_swap-ok q extra h e one = ground arith

write_swap-miscounted :
    (q : Swap) (extra : RunRow → RunRow) (h : Hub) {r : RunTransition}
    → (write_swap q extra h).0 ≡ ok r
    → nat_eq (rowcount (is_target q) h.runs) 1 ≡ false
    → r.applied ≡ false
unfolding write_swap update_run insert_run_event
write_swap-miscounted q extra h e other = ground arith

abbrev pub Outcome : Swap → (RunRow → RunRow) → Hub → RunTransition → Hub → Type 0
Outcome q extra h r h' =
    ((r.applied ≡ false) × (h' ≡ h))
    ⊎ ((r.applied ≡ true) × IsApplied q extra h h')
    ⊎ ((r.applied ≡ false) × IsMiscounted q extra h)

written :
    (q : Swap) (extra : RunRow → RunRow) (h : Hub) (run : RunRow) {r : RunTransition}
    → select_event q.event_id h ≡ none
    → select_run q.run_id h ≡ some run
    → run.status ≡ q.expected_status
    → run.head_sequence ≡ q.expected_sequence
    → (write_swap q extra h).0 ≡ ok r
    → Outcome q extra h r (write_swap q extra h).1
written q extra h run fresh found status sequence e =
    elim (Bool-cases (nat_eq (rowcount (is_target q) h.runs) 1)) [
      | inl one ↦
          let (accepted, state, applied) = write_swap-ok q extra h e one in
          inr (
            inl (
              applied,
              record {
                run = run;
                found = found;
                status = status;
                sequence = sequence;
                fresh = fresh;
                one = ground arith;
                accepted = accepted;
                state = state;
              },
            ))
      | inr other ↦ inr (
          inr (
            write_swap-miscounted q extra h e other,
            record {
              run = run;
              found = found;
              status = status;
              sequence = sequence;
              other = other;
            },
          ))
    ]

abbrev is_stale : Swap → RunRow → Bool
is_stale q run =
    not (run.status == q.expected_status) || not (nat_eq run.head_sequence q.expected_sequence)

not_stale :
    (q : Swap) (run : RunRow)
    → is_stale q run ≡ false
    → (run.status ≡ q.expected_status) × (run.head_sequence ≡ q.expected_sequence)
not_stale q run h = ground (arith, eq_iff run.status q.expected_status)

decide_swap-ok :
    (q : Swap) (extra : RunRow → RunRow) (h : Hub) (o : Option EventRow) (run : RunRow)
    {r : RunTransition}
    → select_event q.event_id h ≡ o
    → select_run q.run_id h ≡ some run
    → (decide_swap q extra o run h).0 ≡ ok r
    → Outcome q extra h r (decide_swap q extra o run h).1
unfolding decide_swap
decide_swap-ok q extra h (some prior) run seen found e = elim (Bool-cases (same_event q prior)) [
  | inl same ↦ rw same (inl (cc (rw same at e), refl))
  | inr other ↦ cc (rw other at e)
]
decide_swap-ok q extra h none run seen found e = elim (Bool-cases (is_stale q run)) [
  | inl stale ↦ rw stale (inl (cc (rw stale at e), refl))
  | inr fresh ↦
      let (status, sequence) = not_stale q run fresh in
      rw fresh (written q extra h run seen found status sequence (rw fresh at e))
]

look_and_swap-ok :
    (q : Swap) (extra : RunRow → RunRow) (h : Hub) {r : RunTransition}
    → (look_and_swap q extra h).0 ≡ ok r
    → Outcome q extra h r (look_and_swap q extra h).1
unfolding look_and_swap
look_and_swap-ok q extra h e = elim (Option-cases (select_run q.run_id h)) [
  | inl absent ↦ cc (rw absent at e)
  | inr (run, found) ↦
      rw found (decide_swap-ok q extra h (select_event q.event_id h) run refl found (rw found at e))
]

-- What a `_cas_run` that returned has done: nothing, the whole swap, or (with two rows of one run
-- id) an `UPDATE` without its event.
pub cas_run-ok :
    (q : Swap) (extra : RunRow → RunRow) (h : Hub) {r : RunTransition}
    → (cas_run q extra h).0 ≡ ok r
    → Outcome q extra h r (cas_run q extra h).1
unfolding cas_run
cas_run-ok q extra h e =
    let (u, checked, rest) = >>=-ok (check_swap q) (λ _. look_and_swap q extra) h e in
    let same = rest ∙ ap (look_and_swap q extra) (check_swap_state q h) in
    rw same (look_and_swap-ok q extra h (rw same at e))
