-- ===== src/Harness/Indexes/Latest.antt =====
-- An index has the last item of each key.
use model_forge.Prelude.{
  ◌≡◌, refl, ap, sym, ◌∙◌, Bool, false, List, [], ◌∷◌, ◌++◌, Option, none, some, Result, ok, err,
  bind-ok, Bool-cases, arith, inl, inr, if◌then◌else◌,
}
use model_forge.Digests.Json.{Text, Value, Members}
use model_forge.Harness.Indexes.{text_eq, prior_items}
use model_forge.Harness.Indexes.Reducers.{IndexItem, merge}
use model_forge.Harness.Indexes.Merging.{put, put_all, text_eq_sound}
use model_forge.Harness.Indexes.Sorted.{IsIncreasing, IsKeyed, put_all-IsIncreasing}
use model_forge.Harness.Indexes.Rebuilding.{merge-put_all}

-- The item that stands under a key.
abbrev pub item_at : Text → List IndexItem → Option Members
item_at key [] = none
item_at key (entry ∷ rest) = if text_eq entry.key key then some entry.item else item_at key rest

abbrev is_under : Text → Result Text → Bool
is_under key (ok own) = text_eq own key
is_under key (err e) = false

-- The last of the items that has the key, or the one that was found before.
abbrev pub latest :
    (Members → Result Text) → Text → List Members → (found : Option Members) → Option Members
latest key_of key [] found = found
latest key_of key (item ∷ items) found =
    latest key_of key items (if is_under key (key_of item) then some item else found)

item_at-put :
    (key : Text) (new : IndexItem) (entries : List IndexItem)
    → item_at key (put new entries)
      ≡ (if text_eq new.key key then some new.item else item_at key entries)
unfolding put
item_at-put key new [] = refl
item_at-put key new (entry ∷ rest) = elim (Bool-cases (text_eq entry.key new.key)) [
  | inl same ↦
      ground (arith, same, ap (λ own. text_eq own key) (text_eq_sound entry.key new.key same))
  | inr other ↦ elim (Bool-cases (text_eq new.key key)) [
    | inl hit ↦ ground (
      arith,
      other,
      hit,
      ap (text_eq entry.key) (text_eq_sound new.key key hit),
      item_at-put key new rest,
    )
    | inr miss ↦ ground (arith, other, miss, item_at-put key new rest)
  ]
]

item_at-put_all :
    (key_of : Members → Result Text) (key : Text) (items : List Members)
    (entries merged : List IndexItem)
    → put_all key_of items entries ≡ ok merged
    → item_at key merged ≡ latest key_of key items (item_at key entries)
unfolding put_all
item_at-put_all key_of key [] entries merged e =
    let same : entries ≡ merged = cc e in ap (item_at key) (sym same)
item_at-put_all key_of key (item ∷ items) entries merged e =
    let (own, returned, rest) = bind-ok (key_of item) _ e in
    let new : IndexItem = record { key = own; item = item } in
    item_at-put_all key_of key items (put new entries) merged rest
    ∙ rw (returned, item_at-put key new entries) refl

-- What a reducer merges: the keys increase, each is its item's, and under every key stands the last of
-- the prior items and the changes, in turn, that has it.
pub merge_keeps_latest :
    (key_of : Members → Result Text) (field format : Text) (prior : Value) (changes : List Members)
    (entries : List IndexItem) (key : Text)
    → merge key_of field format prior changes ≡ ok entries
    → (items : List Members) × (prior_items prior field format ≡ ok items)
      × IsIncreasing entries
      × IsKeyed key_of entries
      × (item_at key entries ≡ latest key_of key (items ++ changes) none)
merge_keeps_latest key_of field format prior changes entries key e =
    let (items, taken, built) =
      bind-ok (prior_items prior field format) _
        (sym (merge-put_all key_of field format prior changes) ∙ e) in
    let (increasing, keyed) =
      put_all-IsIncreasing key_of (items ++ changes) [] entries built tt tt in
    (
      items,
      taken,
      increasing,
      keyed,
      item_at-put_all key_of key (items ++ changes) [] entries built,
    )
