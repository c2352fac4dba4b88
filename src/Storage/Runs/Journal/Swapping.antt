-- ===== src/Storage/Runs/Journal/Swapping.antt =====
-- `_cas_run` keeps the journal, and with it every method that moves a run.
use model_forge.Prelude.{
  ◌≤◌, String, ◌==◌, eq_iff, ◌≡◌, refl, sym, ap, true, false, some, arith, Bool-cases, Option-cases,
  inl, inr, ok,
}
use mathlib.Core.Path.{subst}
use text.Mathlib.TextPositions.{eq_refl}
use model_forge.Storage.Schema.Rows.{Hub, RunRow, next_sequence, rowcount}
use model_forge.Storage.Schema.Tables.{
  rowcount-update, find?-update, find?-test, rowcount_one, map_found,
}
use model_forge.Storage.Runs.Swap.{
  RunTransition, Swap, select_run, is_target, swapped, swap_event, cas_run, unchanged,
}
use model_forge.Storage.Runs.Swap.Outcome.{IsMiscounted, after_swap, cas_run-ok}
use model_forge.Storage.Runs.Journal.{newest_event, next_event, event_count, Agrees, IsJournaled}

pub is_target-run_id :
    (q : Swap) (row : RunRow) → is_target q row ≡ true → (row.run_id == q.run_id) ≡ true
is_target-run_id q row h = ground arith

-- With one row for each run id the `UPDATE` changes exactly the row that was read.
pub not-IsMiscounted :
    (q : Swap) (extra : RunRow → RunRow) (h : Hub) → IsJournaled h → IsMiscounted q extra h → ⊥
not-IsMiscounted q extra h j m =
    let hit : is_target q m.run ≡ true = ground (
      arith,
      find?-test (λ row. row.run_id == q.run_id) h.runs m.run m.found,
      eq_iff m.run.status q.expected_status,
      m.status,
      m.sequence,
    ) in
    let one =
      rowcount_one (is_target q) (λ row. row.run_id == q.run_id) h.runs m.run (is_target-run_id q)
        (j.unique q.run_id) m.found hit in
    ground (arith, m.other, one)

-- The extra assignments of an `UPDATE runs` leave the identity and the head of the run alone.
pub record KeepsHead (extra : RunRow → RunRow) : Type 0 where
  pub run_id : (row : RunRow) → (extra row).run_id ≡ row.run_id
  pub status : (row : RunRow) → (extra row).status ≡ row.status
  pub head_sequence : (row : RunRow) → (extra row).head_sequence ≡ row.head_sequence

pub is_target_found :
    (q : Swap) (h : Hub) (run : RunRow)
    → select_run q.run_id h ≡ some run
    → run.status ≡ q.expected_status
    → run.head_sequence ≡ q.expected_sequence
    → is_target q run ≡ true
is_target_found q h run found status sequence = ground (
  arith,
  find?-test (λ row. row.run_id == q.run_id) h.runs run found,
  eq_iff run.status q.expected_status,
)

module _ (q : Swap) (extra : RunRow → RunRow) (kept : KeepsHead extra) (h : Hub)
    (j : IsJournaled h) where
  same_id :
      (key : String) (row : RunRow) → ((swapped q extra row).run_id == key) ≡ (row.run_id == key)
  same_id key row = ap (λ (s : String). s == key) (kept.run_id _)

  pub select_after :
      (key : String)
      → select_run key (after_swap q extra h)
        ≡ map_found (is_target q) (swapped q extra) (select_run key h)
  select_after key =
      find?-update (λ row. row.run_id == key) (is_target q) (swapped q extra) h.runs (same_id key)

  unique_after :
      (key : String) → rowcount (λ row. row.run_id == key) (after_swap q extra h).runs ≤ 1
  unique_after key = omega (
    arith,
    rowcount-update (λ row. row.run_id == key) (is_target q) (swapped q extra) h.runs (same_id key),
    j.unique key,
  )

  pub select_other :
      (key : String)
      → (q.run_id == key) ≡ false
      → map_found (is_target q) (swapped q extra) (select_run key h) ≡ select_run key h
  select_other key other = elim (Option-cases (select_run key h)) [
    | inl absent ↦ rw absent
    | inr (row, there) ↦ rw there (
        ground (
          arith,
          is_target-run_id q row,
          find?-test (λ row. row.run_id == key) h.runs row there,
          eq_iff row.run_id q.run_id,
          eq_iff row.run_id key,
          eq_iff q.run_id key,
        ))
  ]

  module _ (run : RunRow) (found : select_run q.run_id h ≡ some run)
      (status : run.status ≡ q.expected_status)
      (sequence : run.head_sequence ≡ q.expected_sequence) where
    -- The run itself: the row and the new event agree.
    Agrees-self :
        Agrees
          (select_run q.run_id (after_swap q extra h))
          (newest_event q.run_id (after_swap q extra h))
          (next_event q.run_id (after_swap q extra h))
          (event_count q.run_id (after_swap q extra h))
    unfolding next_sequence rowcount
    Agrees-self =
        let (event, newest, number, state, next, count) =
          subst
            (λ o.
              Agrees o (newest_event q.run_id h) (next_event q.run_id h) (event_count q.run_id h))
            found (j.agrees q.run_id) in
        rw
          (
            select_after q.run_id,
            found,
            is_target_found q h run found status sequence,
            eq_refl q.run_id,
          )
          (
            swap_event q,
            refl,
            sym (kept.head_sequence _),
            sym (kept.status _),
            rw (kept.head_sequence) (ground arith),
            rw (kept.head_sequence) (ground arith),
          )

    Agrees-other :
        (key : String)
        → (q.run_id == key) ≡ false
        → Agrees
            (select_run key (after_swap q extra h))
            (newest_event key (after_swap q extra h))
            (next_event key (after_swap q extra h))
            (event_count key (after_swap q extra h))
    unfolding next_sequence rowcount
    Agrees-other key other = rw (select_after key, other, select_other key other) (j.agrees key)

    after_swap-IsJournaled : IsJournaled (after_swap q extra h)
    after_swap-IsJournaled = record {
      unique = unique_after;
      agrees = λ key. elim (Bool-cases (q.run_id == key)) [
        | inl same ↦
            subst
              (λ k.
                Agrees (select_run k (after_swap q extra h)) (newest_event k (after_swap q extra h))
                  (next_event k (after_swap q extra h)) (event_count k (after_swap q extra h)))
              ((eq_iff q.run_id key).0 same) Agrees-self
        | inr other ↦ Agrees-other key other
      ];
    }

-- A `_cas_run` that returned keeps the journal.
pub cas_run-IsJournaled :
    (q : Swap) (extra : RunRow → RunRow) (h : Hub) {r : RunTransition}
    → KeepsHead extra
    → IsJournaled h
    → (cas_run q extra h).0 ≡ ok r
    → IsJournaled (cas_run q extra h).1
cas_run-IsJournaled q extra h kept j e = elim (cas_run-ok q extra h e) [
  | inl (_, same) ↦ rw same j
  | inr (inl (_, a)) ↦
      rw a.state (after_swap-IsJournaled q extra kept h j a.run a.found a.status a.sequence)
  | inr (inr (_, m)) ↦ absurd (not-IsMiscounted q extra h j m)
]

pub unchanged-KeepsHead : KeepsHead unchanged
unchanged-KeepsHead = record {
  run_id = λ row. refl;
  status = λ row. refl;
  head_sequence = λ row. refl;
}
