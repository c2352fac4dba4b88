-- ===== src/Storage/Runs/Listing/Complete.antt =====
-- `list_incomplete_runs` lists every run that is not finished, as domain/runs.py says it, once.
use model_forge.Prelude.{
  String, ◌==◌, eq_iff, sym, ap, ◌∙◌, Bool-cases, Option-cases, inl, inr, ◌+◌, ◌≡◌, refl, Bool,
  true, false, not, ◌&&◌, none, some, List, [], ◌∷◌, arith, ok, if◌then◌else◌,
}
use model_forge.Domain.RunStatus.{
  RunStatus, created, value, of_value, terminal, contains, status_eq,
}
use model_forge.Domain.RunStatus.Transitions.{of_value-value}
use model_forge.Domain.RunStatus.Reading.{value-of_value}
use model_forge.Storage.Schema.Rows.{Hub, RunRow, rowcount}
use model_forge.Storage.Runs.Listing.{
  is_incomplete, insert_ordered, select_incomplete, list_incomplete_runs,
}
use model_forge.Storage.Runs.Listing.Ordering.{IsSorted, select_incomplete-IsSorted}

-- The text is not that of a status that is terminal in the domain.
abbrev pub is_unfinished : String → Bool
is_unfinished text = elim (of_value text) [ none ↦ true | some s ↦ not (terminal s) ]

is_incomplete-value : (s : RunStatus) → is_incomplete (value s) ≡ not (terminal s)
unfolding is_incomplete value terminal contains status_eq
is_incomplete-value created = refl
is_incomplete-value _ = refl

-- The text of a status is not one that is no status.
other_text : (text : String) (s : RunStatus) → of_value text ≡ none → (value s == text) ≡ false
other_text text s unknown = elim (Bool-cases (value s == text)) [
  | inr apart ↦ apart
  | inl same ↦ cc (of_value-value s, ap (λ t. of_value t) ((eq_iff (value s) text).0 same), unknown)
]

-- The statuses that the query leaves out are those that are terminal in the domain.
is_incomplete-is_unfinished : (text : String) → is_incomplete text ≡ is_unfinished text
unfolding is_incomplete value
is_incomplete-is_unfinished text = elim (Option-cases (of_value text)) [
  | inr (s, read) ↦
      ap (λ t. is_incomplete t) (sym (value-of_value text s read))
      ∙ is_incomplete-value s
      ∙ rw (is_unfinished, read) refl
  | inl unknown ↦
      rw (is_unfinished, unknown)
        (ground (
          arith,
          other_text text RunStatus.cancelled unknown,
          other_text text RunStatus.published unknown,
          other_text text RunStatus.failed unknown,
          other_text text RunStatus.rejected unknown,
          other_text text RunStatus.conflicted unknown,
          other_text text RunStatus.correction_exhausted unknown,
        ))
]

rowcount-insert_ordered :
    (p : RunRow → Bool) (new : RunRow) (rows : List RunRow)
    → rowcount p (insert_ordered new rows) ≡ (if p new then 1 else 0) + rowcount p rows
unfolding rowcount insert_ordered
rowcount-insert_ordered p new [] = ground arith
rowcount-insert_ordered p new (row ∷ rows) = ground (arith, rowcount-insert_ordered p new rows)

rowcount-select_incomplete :
    (p : RunRow → Bool) (rows : List RunRow)
    → rowcount p (select_incomplete rows) ≡ rowcount (λ row. is_unfinished row.status && p row) rows
unfolding rowcount select_incomplete
rowcount-select_incomplete p [] = refl
rowcount-select_incomplete p (row ∷ rows) = ground (
  arith,
  rowcount-select_incomplete p rows,
  is_incomplete-is_unfinished row.status,
  rowcount-insert_ordered p row (select_incomplete rows),
)

-- A call of `list_incomplete_runs` changes nothing and returns rows of which as many pass any test as
-- there are rows of `runs` that pass it and whose status is not the text of a terminal one; each was
-- created before the next, or at the same time with a run id that is not greater.
pub list_incomplete_runs_lists :
    (p : RunRow → Bool) (h : Hub)
    → (rows : List RunRow) × (list_incomplete_runs h ≡ (ok rows, h))
      × (rowcount p rows ≡ rowcount (λ row. is_unfinished row.status && p row) h.runs)
      × IsSorted rows
unfolding list_incomplete_runs
list_incomplete_runs_lists p h = (
  select_incomplete h.runs,
  refl,
  rowcount-select_incomplete p h.runs,
  select_incomplete-IsSorted h.runs,
)
