-- ===== src/Examples/Indexing.antt =====
-- The theorems on indexes, at a ledger of review issues.
use model_forge.Prelude.{String, ◌≡◌, refl, true, none, List, [], ◌∷◌, ◌++◌, ok}
use model_forge.Storage.Text.{codes}
use model_forge.Digests.Json.{Value, Members}
use model_forge.Digests.Utf16.{bytes_le}
use model_forge.Harness.Indexes.{Builtins, get, prior_items, review_issue_key}
use model_forge.Harness.Indexes.Reducers.{
  IndexItem, set_item, collect, insert_entry, sort_entries, merge, with_field, text_value,
  documents, headed, count, ledger_format, review_issue_ledger, reducer,
}
use model_forge.Harness.Indexes.Sorted.{IsIncreasing, IsKeyed}
use model_forge.Harness.Indexes.Rebuilding.{rebuild_in_steps}
use model_forge.Harness.Indexes.Latest.{item_at, latest, merge_keeps_latest}

-- Builtins that are right on texts in lower case, with the bytes themselves for their digest.
abbrev builtins : Builtins
builtins = record {
  casefold = λ text. text;
  str = λ value. elim value [ Value.str text ↦ text | _ ↦ [] ];
  truth = λ value. true;
  sha256 = λ bytes. bytes;
}

abbrev issue : String → String → Members
issue issue_id state =
    with_field "issue_id" (text_value issue_id)
      (with_field "state" (text_value state) Members.no_members)

abbrev issues : List Members
issues = issue "b" "open" ∷ issue "a" "open" ∷ issue "b" "closed" ∷ []

-- What stands in the ledger after them.
abbrev entries : List IndexItem
entries =
    record { key = codes "a"; item = issue "a" "open" }
    ∷ record { key = codes "b"; item = issue "b" "closed" }
    ∷ []

abbrev index : Members
index = headed ledger_format "review_issue_ledger" (
    with_field "issue_count" (count 2)
      (with_field "issues" (Value.list (documents entries)) Members.no_members))

found : reducer builtins "p5.replace_review_issue_ledger" ≡ ok (review_issue_ledger builtins)
unfolding reducer
found = refl

merged :
    merge (review_issue_key builtins) (codes "issues") (codes ledger_format) Value.null issues
    ≡ ok entries
unfolding merge prior_items collect set_item insert_entry sort_entries review_issue_key get bytes_le
merged = refl

written : review_issue_ledger builtins Value.null issues ≡ ok index
unfolding review_issue_ledger merge prior_items collect set_item insert_entry sort_entries
    review_issue_key get bytes_le
written = refl

rebuild_in_steps_example :
    review_issue_ledger builtins (Value.dict index) (issue "a" "closed" ∷ [])
    ≡ review_issue_ledger builtins Value.null (issues ++ issue "a" "closed" ∷ [])
rebuild_in_steps_example =
    rebuild_in_steps builtins "p5.replace_review_issue_ledger" (review_issue_ledger builtins)
      Value.null issues (issue "a" "closed" ∷ []) index found written

merge_keeps_latest_example :
    (items : List Members) × (prior_items Value.null (codes "issues") (codes ledger_format)
      ≡ ok items)
    × IsIncreasing entries
    × IsKeyed (review_issue_key builtins) entries
    × (item_at (codes "b") entries
        ≡ latest (review_issue_key builtins) (codes "b") (items ++ issues) none)
merge_keeps_latest_example =
    merge_keeps_latest (review_issue_key builtins) (codes "issues") (codes ledger_format) Value.null
      issues entries (codes "b") merged
