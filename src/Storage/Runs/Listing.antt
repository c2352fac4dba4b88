-- ===== src/Storage/Runs/Listing.antt =====
-- `list_incomplete_runs` of src/model_forge/storage/repository.py: the runs that are not finished, the
-- oldest first.
pub mod Ordering
pub mod Complete
use model_forge.Prelude.{
  ℕ, String, ◌==◌, Bool, true, false, not, ◌&&◌, ◌||◌, List, [], ◌∷◌, ltb, nat_eq, any, ok,
  if◌then◌else◌,
}
use model_forge.Storage.Text.{codes}
use model_forge.Storage.Database.{Tx, gets}
use model_forge.Storage.Schema.Rows.{Hub, RunRow}

-- The texts of `terminal`, which the query lists itself.
abbrev pub terminal_texts : List String
terminal_texts =
    "cancelled" ∷ "published" ∷ "failed" ∷ "rejected" ∷ "conflicted" ∷ "correction_exhausted" ∷ []

-- `status NOT IN (…)`
unfoldable pub is_incomplete : String → Bool
is_incomplete status = not (any (λ known. known == status) terminal_texts)

-- The order of texts, by code points.
abbrev pub codes_le : List ℕ → List ℕ → Bool
codes_le [] ds = true
codes_le (c ∷ cs) [] = false
codes_le (c ∷ cs) (d ∷ ds) = ltb c d || nat_eq c d && codes_le cs ds

-- `ORDER BY created_at, run_id`
unfoldable pub run_le : RunRow → RunRow → Bool
run_le a b =
    if a.created_at == b.created_at
    then codes_le (codes a.run_id) (codes b.run_id)
    else codes_le (codes a.created_at) (codes b.created_at)

unfoldable pub insert_ordered : RunRow → List RunRow → List RunRow
insert_ordered new [] = new ∷ []
insert_ordered new (row ∷ rows) =
    let rest = insert_ordered new rows in if run_le new row then new ∷ row ∷ rows else row ∷ rest

unfoldable pub select_incomplete : List RunRow → List RunRow
select_incomplete [] = []
select_incomplete (row ∷ rows) =
    let rest = select_incomplete rows in
    if is_incomplete row.status then insert_ordered row rest else rest

unfoldable pub list_incomplete_runs : Tx Hub (List RunRow)
list_incomplete_runs = gets (λ h. select_incomplete h.runs)
