-- ===== src/Storage/Runs/Fence.antt =====
-- The cancellation fence and the submission of a run exclude one another: `request_cancellation`
-- and `seal_submission`, in whatever order they come, never both take effect.
pub mod Methods
use mathlib.Core.Path.{subst}
use mathlib.Core.Option.{some-injective}
use model_forge.Prelude.{
  String, ◌==◌, eq_iff, ◌≡◌, sym, ap, ◌∙◌, ◌⊎◌, inl, inr, Bool, true, none, some, ok, arith,
  Bool-cases, Option-cases, if◌then◌else◌,
}
use model_forge.Storage.Schema.Rows.{Hub, RunRow}
use model_forge.Storage.Schema.Tables.{find?-test}
use model_forge.Storage.Runs.Swap.{
  RunTransition, Swap, select_run, select_submission, is_target, swapped, cas_run,
}
use model_forge.Storage.Runs.Swap.Outcome.{after_swap, cas_run-ok}
use model_forge.Storage.Runs.Journal.{IsJournaled}
use model_forge.Storage.Runs.Journal.Swapping.{
  KeepsHead, is_target-run_id, select_after, cas_run-IsJournaled, not-IsMiscounted,
}

-- A run whose cancellation fence is up has no sealed submission.
pub record IsExclusive (h : Hub) : Type 0 where
  pub journaled : IsJournaled h
  pub exclusive :
      (key : String) (run : RunRow)
      → select_run key h ≡ some run
      → run.cancellation_fenced ≡ true
      → select_submission key h ≡ none

module _ (q : Swap) (extra : RunRow → RunRow) (kept : KeepsHead extra) (h : Hub)
    (x : IsExclusive h) where
  -- Where a row after the swap comes from.
  row_before :
      (key : String) (run : RunRow)
      → select_run key (after_swap q extra h) ≡ some run
      → (row : RunRow) × (select_run key h ≡ some row)
        × (run ≡ (if is_target q row then swapped q extra row else row))
  row_before key run e = elim (Option-cases (select_run key h)) [
    | inl absent ↦ cc (rw (select_after q extra kept h x.journaled key, absent) at e)
    | inr (row, there) ↦ (
      row,
      there,
      sym (some-injective _ _ (rw (select_after q extra kept h x.journaled key, there) at e)),
    )
  ]

  abbrev pub IsSafe : Type 0
  IsSafe =
      ((row : RunRow) → (swapped q extra row).cancellation_fenced ≡ row.cancellation_fenced)
      ⊎ (select_submission q.run_id h ≡ none)

  -- The row that the `UPDATE` reached is the run of the swap.
  key_of_target :
      (key : String) (row : RunRow)
      → select_run key h ≡ some row
      → is_target q row ≡ true
      → q.run_id ≡ key
  key_of_target key row there hit =
      sym ((eq_iff row.run_id q.run_id).0 (is_target-run_id q row hit))
      ∙ (eq_iff row.run_id key).0 (find?-test (λ row. row.run_id == key) h.runs row there)

  exclusive_after :
      IsSafe
      → (key : String) (run : RunRow) → select_run key (after_swap q extra h) ≡ some run
      → run.cancellation_fenced ≡ true
      → select_submission key h ≡ none
  exclusive_after safe key run e fenced =
      let (row, there, origin) = row_before key run e in
      let flag : RunRow → Bool = λ r. r.cancellation_fenced in
      elim (Bool-cases (is_target q row)) [
        | inl hit ↦
            let back = sym (ap flag (rw hit at origin)) ∙ fenced in
            elim safe [
              | inl same ↦ x.exclusive key row there (sym (same row) ∙ back)
              | inr clear ↦
                  subst (λ k. select_submission k h ≡ none) (key_of_target key row there hit) clear
            ]
        | inr miss ↦ x.exclusive key row there (sym (ap flag (rw miss at origin)) ∙ fenced)
      ]

  -- A `_cas_run` that returned keeps the exclusion, if it raises no fence or the run has no
  -- submission.
  pub cas_run-IsExclusive :
      {r : RunTransition}
      → IsSafe
      → (cas_run q extra h).0 ≡ ok r
      → IsExclusive (cas_run q extra h).1
  cas_run-IsExclusive safe e = elim (cas_run-ok q extra h e) [
    | inl (_, same) ↦ rw same x
    | inr (inl (_, a)) ↦ record {
      journaled = cas_run-IsJournaled q extra h kept x.journaled e;
      exclusive = rw a.state (exclusive_after safe);
    }
    | inr (inr (_, m)) ↦ absurd (not-IsMiscounted q extra h x.journaled m)
  ]
