-- ===== src/Harness/Indexes.antt =====
-- The reducers of src/model_forge/harness/index_reducers.py, which rebuild the current indexes of a
-- project from the one before and what a run made. A JSON object is the list of its members.
pub mod Reducers
pub mod Merging
pub mod Sorted
pub mod Rebuilding
pub mod Latest
use model_forge.Prelude.{
  ℕ, suc, String, Bool, true, false, not, ◌&&◌, ◌||◌, Option, none, some, List, [], ◌∷◌, ◌++◌,
  nat_eq, length, map, Result, ok, err, bind, if◌then◌else◌,
}
use model_forge.Storage.Text.{codes}
use model_forge.Digests.Json.{Text, ℤ, Value, Items, Members}
use model_forge.Digests.Utf16.{bytes_le}
use model_forge.Digests.Canonical.{serialize, canonicalize}

-- The texts of the program are written as they stand in its source.
abbrev pub text_eq : Text → Text → Bool
text_eq [] [] = true
text_eq (c ∷ text) (d ∷ other) = nat_eq c d && text_eq text other
text_eq _ _ = false

-- `document.get(field)`
unfoldable pub get : Text → Members → Option Value
get field Members.no_members = none
get field (Members.member none value rest) = get field rest
get field (Members.member (some key) value rest) =
    let after = get field rest in if text_eq key field then some value else after

-- `value == text`
abbrev pub is_text : Option Value → Text → Bool
is_text (some (Value.str text)) expected = text_eq text expected
is_text _ expected = false

-- What Python's builtins make of texts, JSON values and bytes.
pub record Builtins : Type 0 where
  pub casefold : Text → Text
  pub str : Value → Text
  pub truth : Value → Bool
  pub sha256 : List ℕ → Text

abbrev pub value_error : String
value_error = "ValueError"

-- The loop over the items of the prior index.
unfoldable pub objects : Items → Result (List Members)
objects Items.no_items = ok []
objects (Items.item (Value.dict members) rest) =
    bind (objects rest) (λ others. ok (members ∷ others))
objects (Items.item _ rest) = err value_error

-- `_prior_items`, where `null` is Python's None
unfoldable pub prior_items :
    (prior : Value) → (field expected_format : Text) → Result (List Members)
prior_items Value.null field expected_format = ok []
prior_items (Value.dict prior) field expected_format =
    if is_text (get (codes "format") prior) expected_format
      && is_text (get (codes "format_version") prior) (codes "1.0.0")
    then listed (get field prior)
    else err value_error
  where
    listed : Option Value → Result (List Members)
    listed (some (Value.list items)) = objects items
    listed _ = err value_error
prior_items _ field expected_format = err value_error

-- `f"{str(item.get('kind', '')).casefold()}:{str(item.get('value', '')).casefold()}"`
abbrev identifier : Builtins → (kind value : Value) → Text
identifier py kind value = py.casefold (py.str kind) ++ b':' ∷ py.casefold (py.str value)

abbrev with_identifier : Builtins → Members → List Text → List Text
with_identifier py members rest = elim (get (codes "kind") members) [
  | none ↦ rest
  | some kind ↦ elim (get (codes "value") members) [
    | none ↦ rest
    | some value ↦ if py.truth kind && py.truth value then identifier py kind value ∷ rest else rest
  ]
]

-- The identifiers that have a kind and a value.
unfoldable pub identifiers : Builtins → Items → List Text
identifiers py Items.no_items = []
identifiers py (Items.item (Value.dict members) rest) =
    with_identifier py members (identifiers py rest)
identifiers py (Items.item _ rest) = identifiers py rest

-- `sorted` of texts, by code points
unfoldable pub insert_text : Text → List Text → List Text
insert_text new [] = new ∷ []
insert_text new (text ∷ rest) =
    let after = insert_text new rest in
    if bytes_le new text then new ∷ text ∷ rest else text ∷ after

unfoldable pub sort_texts : List Text → List Text
sort_texts [] = []
sort_texts (text ∷ rest) = insert_text text (sort_texts rest)

abbrev pub list_of : List Text → Items
list_of [] = Items.no_items
list_of (text ∷ rest) = Items.item (Value.str text) (list_of rest)

-- `document_sha256` of src/model_forge/harness/execution_records.py
unfoldable pub document_sha256 : Builtins → Members → Result Text
document_sha256 py document =
    bind (canonicalize (Value.dict document)) (λ bytes. ok (py.sha256 bytes))

-- The text of a field, where it is one and has a character.
abbrev pub text_field : Text → Members → Option Text
text_field field document = elim (get field document) [ some value ↦ nonempty value | none ↦ none ]
  where
    nonempty : Value → Option Text
    nonempty (Value.str (c ∷ text)) = some (c ∷ text)
    nonempty _ = none

-- The loop over two fields, and the digest where it ends.
abbrev pub keyed_by : Builtins → (first second : Text) → (Text → Text) → Members → Result Text
keyed_by py first second fold document = elim (text_field first document) [
  | some text ↦ ok (fold text)
  | none ↦ elim (text_field second document) [
    | some text ↦ ok (fold text)
    | none ↦ document_sha256 py document
  ]
]

abbrev literature_identifiers : Builtins → Option Value → List Text
literature_identifiers py (some (Value.list items)) = sort_texts (identifiers py items)
literature_identifiers py _ = []

-- `_literature_key`; the text of the identifiers is what `canonicalize(values).decode("utf-8")` reads.
unfoldable pub literature_key : Builtins → Members → Result Text
literature_key py document = elim (literature_identifiers py (get (codes "identifiers") document)) [
  | [] ↦ keyed_by py (codes "source_id") (codes "record_id") py.casefold document
  | value ∷ values ↦ serialize (Value.list (list_of (value ∷ values)))
]

-- `identity["stable_id"]`
unfoldable pub stable_id : Members → Result Text
stable_id document = identity (get (codes "identity") document)
  where
    id : Option Value → Result Text
    id (some (Value.str text)) = ok text
    id _ = err value_error

    identity : Option Value → Result Text
    identity (some (Value.dict members)) = id (get (codes "stable_id") members)
    identity _ = err value_error

-- `_method_key`
abbrev pub method_key : Members → Result Text
method_key document = stable_id document

-- `_review_issue_key`
unfoldable pub review_issue_key : Builtins → Members → Result Text
review_issue_key py document =
    keyed_by py (codes "issue_id") (codes "record_id") (λ text. text) document
