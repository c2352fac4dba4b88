-- ===== src/Harness/Indexes/Rebuilding.antt =====
-- An index that is rebuilt step by step is the one that is built at once.
use mathlib.Core.Path.{subst}
use mathlib.Core.List.{append_assoc}
use model_forge.Prelude.{
  String, ◌==◌, ◌≡◌, refl, sym, ap, ◌∙◌, List, [], ◌∷◌, ◌++◌, map, Result, ok, bind, bind-ok,
  Result-cases, Bool-cases, arith, inl, inr,
}
use model_forge.Storage.Text.{codes}
use model_forge.Digests.Json.{Text, Value, Members}
use model_forge.Harness.Indexes.{
  Builtins, get, objects, prior_items, literature_key, method_key, review_issue_key,
}
use model_forge.Harness.Indexes.Reducers.{
  IndexItem, collect, sort_entries, merge, documents, write_library, write_catalog, write_ledger,
  library_format, catalog_format, ledger_format, projections, literature_library, method_catalog,
  review_issue_ledger, reducer,
}
use model_forge.Harness.Indexes.Merging.{put_all, collect-put_all, collect-IsDistinct}
use model_forge.Harness.Indexes.Sorted.{put_all-IsIncreasing, put_all_again}

-- Merging two lists of items is merging one after the other.
put_all-append :
    (key_of : Members → Result Text) (items others : List Members) (entries : List IndexItem)
    → put_all key_of (items ++ others) entries
      ≡ bind (put_all key_of items entries) (λ merged. put_all key_of others merged)
unfolding put_all
put_all-append key_of [] others entries = refl
put_all-append key_of (item ∷ items) others entries = elim (Result-cases (key_of item)) [
  | inl (key, returned) ↦ rw returned (put_all-append key_of items others _)
  | inr (x, raised) ↦ rw raised refl
]

collect_twice :
    (key_of : Members → Result Text) (items changes : List Members)
    → bind
        (collect key_of items [])
        (λ before. bind (collect key_of changes before) (λ merged. ok (sort_entries merged)))
      ≡ bind (put_all key_of items []) (λ merged. put_all key_of changes merged)
unfolding sort_entries
collect_twice key_of items changes =
    let first : bind (collect key_of items []) (λ merged. ok (sort_entries merged))
        ≡ put_all key_of items [] =
      collect-put_all key_of items [] tt in
    elim (Result-cases (collect key_of items [])) [
      | inl (before, collected) ↦
          rw (collected, sym (rw collected at first))
            (collect-put_all key_of changes before
              (collect-IsDistinct key_of items [] before collected tt))
      | inr (x, raised) ↦ rw (raised, sym (rw raised at first)) refl
    ]

-- What the reducers share is merging the prior items and the changes into a sorted list.
pub merge-put_all :
    (key_of : Members → Result Text) (field format : Text) (prior : Value) (changes : List Members)
    → merge key_of field format prior changes
      ≡ bind (prior_items prior field format) (λ items. put_all key_of (items ++ changes) [])
unfolding merge
merge-put_all key_of field format prior changes =
    elim (Result-cases (prior_items prior field format)) [
      | inr (x, raised) ↦ rw raised refl
      | inl (items, returned) ↦
          rw returned
            (collect_twice key_of items changes ∙ sym (put_all-append key_of items changes []))
    ]

-- The items of an index are read back from it.
objects-documents :
    (entries : List IndexItem)
    → objects (documents entries) ≡ ok (map (λ entry. entry.item) entries)
unfolding objects
objects-documents [] = refl
objects-documents (entry ∷ rest) = rw (objects-documents rest) refl

pub merge_again :
    (key_of : Members → Result Text) (field format : Text) (prior next : Value)
    (changes more : List Members) (entries : List IndexItem)
    → merge key_of field format prior changes ≡ ok entries
    → prior_items next field format ≡ ok (map (λ entry. entry.item) entries)
    → merge key_of field format next more ≡ merge key_of field format prior (changes ++ more)
merge_again key_of field format prior next changes more entries e read =
    let merged = sym (merge-put_all key_of field format prior changes) ∙ e in
    let (items, taken, built) = bind-ok (prior_items prior field format) _ merged in
    let (increasing, keyed) =
      put_all-IsIncreasing key_of (items ++ changes) [] entries built tt tt in
    let left : merge key_of field format next more ≡ put_all key_of more entries =
      merge-put_all key_of field format next more
      ∙ rw
          (
            read,
            put_all-append key_of (map (λ entry. entry.item) entries) more [],
            put_all_again key_of entries keyed increasing,
          )
          refl in
    let right : merge key_of field format prior (changes ++ more) ≡ put_all key_of more entries =
      merge-put_all key_of field format prior (changes ++ more)
      ∙ rw
          (
            taken,
            sym (append_assoc items changes more),
            put_all-append key_of (items ++ changes) more [],
            built,
          )
          refl in
    left ∙ sym right

-- Whether the items of an index that is written are read back from it.
abbrev IsReadable : (List IndexItem → Result Members) → (field format : Text) → Type 0
IsReadable write field format =
    (entries : List IndexItem) (index : Members)
    → write entries ≡ ok index
    → prior_items (Value.dict index) field format ≡ ok (map (λ entry. entry.item) entries)

ok-injective : {A : Type 0} {a b : A} → Result.ok a ≡ ok b → a ≡ b
ok-injective e = cc e

write_library-IsReadable : IsReadable write_library (codes "sources") (codes library_format)
unfolding prior_items get
write_library-IsReadable entries index e =
    subst
      (λ document.
        prior_items (Value.dict document) (codes "sources") (codes library_format)
        ≡ ok (map (λ entry. entry.item) entries))
      (ok-injective e) (objects-documents entries)

write_catalog-IsReadable : IsReadable write_catalog (codes "methods") (codes catalog_format)
unfolding prior_items get
write_catalog-IsReadable entries index e =
    let (projected, _, written) = bind-ok (projections entries) _ e in
    subst
      (λ document.
        prior_items (Value.dict document) (codes "methods") (codes catalog_format)
        ≡ ok (map (λ entry. entry.item) entries))
      (ok-injective written) (objects-documents entries)

write_ledger-IsReadable : IsReadable write_ledger (codes "issues") (codes ledger_format)
unfolding prior_items get
write_ledger-IsReadable entries index e =
    subst
      (λ document.
        prior_items (Value.dict document) (codes "issues") (codes ledger_format)
        ≡ ok (map (λ entry. entry.item) entries))
      (ok-injective e) (objects-documents entries)

rebuilt :
    (key_of : Members → Result Text) (field format : Text) (write : List IndexItem → Result Members)
    (prior : Value) (changes more : List Members) (index : Members)
    → IsReadable write field format
    → bind (merge key_of field format prior changes) write ≡ ok index
    → bind (merge key_of field format (Value.dict index) more) write
      ≡ bind (merge key_of field format prior (changes ++ more)) write
rebuilt key_of field format write prior changes more index readable e =
    let (entries, merged, written) = bind-ok (merge key_of field format prior changes) write e in
    ap (λ r. bind r write)
      (merge_again key_of field format prior (Value.dict index) changes more entries merged
        (readable entries index written))

-- What a reducer is to do when its own index comes back.
abbrev Rebuilds : (Value → List Members → Result Members) → Type 0
Rebuilds reduce =
    (prior : Value) (changes more : List Members) (index : Members)
    → reduce prior changes ≡ ok index
    → reduce (Value.dict index) more ≡ reduce prior (changes ++ more)

literature_library-Rebuilds : (py : Builtins) → Rebuilds (literature_library py)
unfolding literature_library
literature_library-Rebuilds py prior changes more index e =
    rebuilt (literature_key py) (codes "sources") (codes library_format) write_library prior changes
      more index write_library-IsReadable e

method_catalog-Rebuilds : (py : Builtins) → Rebuilds (method_catalog py)
unfolding method_catalog
method_catalog-Rebuilds py prior changes more index e =
    rebuilt method_key (codes "methods") (codes catalog_format) write_catalog prior changes more
      index write_catalog-IsReadable e

review_issue_ledger-Rebuilds : (py : Builtins) → Rebuilds (review_issue_ledger py)
unfolding review_issue_ledger
review_issue_ledger-Rebuilds py prior changes more index e =
    rebuilt (review_issue_key py) (codes "issues") (codes ledger_format) write_ledger prior changes
      more index write_ledger-IsReadable e

-- An index that a reducer rebuilds from one that it wrote is the one that it builds from the prior one
-- and all changes in turn; where the one raises, so does the other.
pub rebuild_in_steps :
    (py : Builtins) (binding_id : String) (reduce : Value → List Members → Result Members)
    (prior : Value) (changes more : List Members) (index : Members)
    → reducer py binding_id ≡ ok reduce
    → reduce prior changes ≡ ok index
    → reduce (Value.dict index) more ≡ reduce prior (changes ++ more)
unfolding reducer
rebuild_in_steps py binding_id reduce prior changes more index found e =
    elim (Bool-cases (binding_id == "p1.rebuild_literature_library")) [
      | inl first ↦
          subst Rebuilds (ok-injective (rw first at found)) (literature_library-Rebuilds py) prior
            changes more index e
      | inr not_first ↦ elim (Bool-cases (binding_id == "p2.rebuild_method_catalog")) [
        | inl second ↦
            subst Rebuilds (ok-injective (rw (not_first, second) at found))
              (method_catalog-Rebuilds py) prior changes more index e
        | inr not_second ↦ elim (Bool-cases (binding_id == "p5.replace_review_issue_ledger")) [
          | inl third ↦
              subst Rebuilds (ok-injective (rw (not_first, not_second, third) at found))
                (review_issue_ledger-Rebuilds py) prior changes more index e
          | inr unknown ↦ absurd (ground (arith, found, not_first, not_second, unknown))
        ]
      ]
    ]
