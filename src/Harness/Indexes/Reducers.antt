-- ===== src/Harness/Indexes/Reducers.antt =====
-- How the reducers of src/model_forge/harness/index_reducers.py merge items by key and write an index.
use model_forge.Prelude.{
  ℕ, suc, String, ◌==◌, none, some, List, [], ◌∷◌, length, map, Result, ok, err, bind,
  if◌then◌else◌,
}
use model_forge.Storage.Text.{codes}
use model_forge.Digests.Json.{Text, ℤ, Value, Items, Members}
use model_forge.Digests.Utf16.{bytes_le}
use model_forge.Harness.Indexes.{
  Builtins, text_eq, get, is_text, value_error, prior_items, list_of, literature_key, stable_id,
  method_key, review_issue_key,
}

-- An item of the dict `merged`.
pub record IndexItem : Type 0 where
  pub key : Text
  pub item : Members

-- `merged[key] = item`
unfoldable pub set_item : IndexItem → List IndexItem → List IndexItem
set_item new [] = new ∷ []
set_item new (entry ∷ rest) =
    let after = set_item new rest in if text_eq entry.key new.key then new ∷ rest else entry ∷ after

-- `merged[_key(item)] = item` for the items in turn.
unfoldable pub collect :
    (Members → Result Text) → List Members → List IndexItem → Result (List IndexItem)
collect key_of [] merged = ok merged
collect key_of (item ∷ items) merged =
    bind (key_of item)
      (λ key. collect key_of items (set_item (record { key = key; item = item }) merged))

-- `sorted(merged)`, each key with its item.
unfoldable pub insert_entry : IndexItem → List IndexItem → List IndexItem
insert_entry new [] = new ∷ []
insert_entry new (entry ∷ rest) =
    let after = insert_entry new rest in
    if bytes_le new.key entry.key then new ∷ entry ∷ rest else entry ∷ after

unfoldable pub sort_entries : List IndexItem → List IndexItem
sort_entries [] = []
sort_entries (entry ∷ rest) = insert_entry entry (sort_entries rest)

-- What the three reducers share, up to the sorted items.
unfoldable pub merge :
    (Members → Result Text)
    → (field expected_format : Text) → (prior : Value) → (changes : List Members)
    → Result (List IndexItem)
merge key_of field expected_format prior changes =
    bind (prior_items prior field expected_format) (λ items.
      bind (collect key_of items [])
        (λ before. bind (collect key_of changes before) (λ merged. ok (sort_entries merged))))

abbrev pub documents : List IndexItem → Items
documents [] = Items.no_items
documents (entry ∷ rest) = Items.item (Value.dict entry.item) (documents rest)

-- A member of a dict display.
abbrev pub with_field : (name : String) → Value → Members → Members
with_field name value rest = Members.member (some (codes name)) value rest

abbrev pub text_value : String → Value
text_value text = Value.str (codes text)

abbrev pub count : ℕ → Value
count n = Value.int (ℤ.pos n)

-- The three first members of an index.
abbrev pub headed : (format record_type : String) → Members → Members
headed format record_type rest = with_field "format" (text_value format) (
    with_field "format_version" (text_value "1.0.0")
      (with_field "record_type" (text_value record_type) rest))

abbrev pub library_format : String
library_format = "model-forge.literature-library-index"

abbrev pub catalog_format : String
catalog_format = "model-forge.method-catalog-index"

abbrev pub ledger_format : String
ledger_format = "model-forge.review-issue-ledger"

abbrev pub write_library : List IndexItem → Result Members
write_library entries = ok (
    headed library_format "literature_library" (
      with_field "source_count" (count (length entries)) (
        with_field "source_keys" (Value.list (list_of (map (λ entry. entry.key) entries)))
          (with_field "sources" (Value.list (documents entries)) Members.no_members))))

-- `item.get(field, default)`
abbrev pub get_or : Text → Value → Members → Value
get_or field default document = elim (get field document) [ none ↦ default | some value ↦ value ]

-- `sum(item.get("lifecycle_state", "proposed") != "retired" for item in methods)`
unfoldable pub active_methods : List IndexItem → ℕ
active_methods [] = 0
active_methods (entry ∷ rest) =
    let others = active_methods rest in
    if is_text (some (get_or (codes "lifecycle_state") (text_value "proposed") entry.item))
      (codes "retired")
    then others
    else suc others

-- `item["identity"]`
abbrev pub identity_of : Members → Result Value
identity_of document = elim (get (codes "identity") document) [
  | none ↦ err "KeyError"
  | some value ↦ ok value
]

-- One projection; what `stable_id` raises was raised when the key of the item was taken.
unfoldable pub projection : Members → Result Members
projection document = bind (identity_of document) (λ identity. bind (stable_id document) (λ id. ok (
    with_field "identity" identity (
      with_field "title" (get_or (codes "title") (Value.str id) document) (
        with_field "summary" (get_or (codes "summary") (text_value "") document) (
          with_field "lifecycle_state"
            (get_or (codes "lifecycle_state") (text_value "proposed") document)
            Members.no_members))))))

unfoldable pub projections : List IndexItem → Result Items
projections [] = ok Items.no_items
projections (entry ∷ rest) =
    bind (projection entry.item)
      (λ first. bind (projections rest) (λ others. ok (Items.item (Value.dict first) others)))

abbrev pub write_catalog : List IndexItem → Result Members
write_catalog entries = bind (projections entries) (λ projected. ok (
    headed catalog_format "method_catalog" (
      with_field "method_count" (count (length entries)) (
        with_field "active_method_count" (count (active_methods entries)) (
          with_field "methods" (Value.list (documents entries))
            (with_field "projections" (Value.list projected) Members.no_members))))))

abbrev pub write_ledger : List IndexItem → Result Members
write_ledger entries = ok (
    headed ledger_format "review_issue_ledger" (
      with_field "issue_count" (count (length entries))
        (with_field "issues" (Value.list (documents entries)) Members.no_members)))

module _ (py : Builtins) where
  -- `_literature_library`
  unfoldable pub literature_library : (prior : Value) → (changes : List Members) → Result Members
  literature_library prior changes =
      bind (merge (literature_key py) (codes "sources") (codes library_format) prior changes)
        write_library

  -- `_method_catalog`
  unfoldable pub method_catalog : (prior : Value) → (changes : List Members) → Result Members
  method_catalog prior changes =
      bind (merge method_key (codes "methods") (codes catalog_format) prior changes) write_catalog

  -- `_review_issue_ledger`
  unfoldable pub review_issue_ledger : (prior : Value) → (changes : List Members) → Result Members
  review_issue_ledger prior changes =
      bind (merge (review_issue_key py) (codes "issues") (codes ledger_format) prior changes)
        write_ledger

  -- `_reducer`
  unfoldable pub reducer :
      (binding_id : String) → Result ((prior : Value) → (changes : List Members) → Result Members)
  reducer binding_id =
      if binding_id == "p1.rebuild_literature_library"
      then ok literature_library
      else if binding_id == "p2.rebuild_method_catalog"
      then ok method_catalog
      else if binding_id == "p5.replace_review_issue_ledger"
      then ok review_issue_ledger
      else err value_error
