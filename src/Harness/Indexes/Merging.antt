-- ===== src/Harness/Indexes/Merging.antt =====
-- Merging items by key into a list that is kept sorted, and that the reducers do just this.
use model_forge.Prelude.{
  ◌≡◌, refl, sym, ap, ◌∙◌, true, false, ◌&&◌, List, [], ◌∷◌, All, Result, ok, bind, bind-ok,
  Result-cases, Bool-cases, arith, inl, inr, if◌then◌else◌,
}
use model_forge.Digests.Json.{Text, Members}
use model_forge.Digests.Utf16.{bytes_le}
use model_forge.Digests.Utf16.Order.{bytes_le_total, bytes_le_trans, bytes_le_antisym}
use model_forge.Harness.Indexes.{text_eq}
use model_forge.Harness.Indexes.Reducers.{IndexItem, set_item, collect, insert_entry, sort_entries}

pub text_eq_sound : (text other : Text) → text_eq text other ≡ true → text ≡ other
text_eq_sound [] [] e = refl
text_eq_sound [] (d ∷ other) e = cc
text_eq_sound (c ∷ text) [] e = cc
text_eq_sound (c ∷ text) (d ∷ other) e = ground (arith, e, text_eq_sound text other)

pub text_eq_refl : (text : Text) → text_eq text text ≡ true
text_eq_refl [] = refl
text_eq_refl (c ∷ text) = ground (arith, text_eq_refl text)

-- An entry in its place, or in the place of the one with its key.
unfoldable pub put : IndexItem → List IndexItem → List IndexItem
put new [] = new ∷ []
put new (entry ∷ rest) =
    let after = put new rest in
    if text_eq entry.key new.key
    then new ∷ rest
    else if bytes_le new.key entry.key
    then new ∷ entry ∷ rest
    else entry ∷ after

abbrev pub IsAbsent : Text → List IndexItem → Type 0
IsAbsent key entries = All (λ entry. text_eq entry.key key ≡ false) entries

-- The keys of a dict are all different.
abbrev pub IsDistinct : List IndexItem → Type 0
IsDistinct [] = Unit
IsDistinct (entry ∷ rest) = IsAbsent entry.key rest × IsDistinct rest

-- Texts that are not the same come one before the other.
pub apart_le : (a b : Text) → text_eq a b ≡ false → (bytes_le a b && bytes_le b a) ≡ false
apart_le a b apart = elim (Bool-cases (bytes_le a b)) [
  | inr after ↦ rw after refl
  | inl before ↦ elim (Bool-cases (bytes_le b a)) [
    | inr after ↦ rw (before, after) refl
    | inl both ↦ cc (apart, text_eq_refl a, ap (text_eq a) (bytes_le_antisym a b before both))
  ]
]

insert_entry-put :
    (old new : IndexItem) (entries : List IndexItem)
    → text_eq old.key new.key ≡ false
    → insert_entry old (put new entries) ≡ put new (insert_entry old entries)
unfolding insert_entry put
insert_entry-put old new [] apart =
    ground (arith, apart, apart_le old.key new.key apart, bytes_le_total old.key new.key)
insert_entry-put old new (entry ∷ rest) apart = elim (Bool-cases (text_eq entry.key new.key)) [
  | inl same ↦ ground (
    arith,
    apart,
    same,
    apart_le old.key new.key apart,
    bytes_le_total old.key new.key,
    ap (bytes_le old.key) (text_eq_sound entry.key new.key same),
  )
  | inr other ↦ ground (
    arith,
    apart,
    other,
    apart_le old.key new.key apart,
    bytes_le_total old.key new.key,
    bytes_le_total old.key entry.key,
    bytes_le_total new.key entry.key,
    bytes_le_trans old.key new.key entry.key,
    bytes_le_trans new.key old.key entry.key,
    insert_entry-put old new rest apart,
  )
]

put-insert_entry :
    (old new : IndexItem) (entries : List IndexItem)
    → text_eq old.key new.key ≡ true
    → IsAbsent new.key entries
    → put new (insert_entry old entries) ≡ insert_entry new entries
unfolding insert_entry put
put-insert_entry old new [] same absent = ground (arith, same)
put-insert_entry old new (entry ∷ rest) same (this, absent) = ground (
  arith,
  same,
  this,
  ap (λ key. bytes_le key entry.key) (text_eq_sound old.key new.key same),
  put-insert_entry old new rest same absent,
)

insert_entry-IsAbsent :
    (key : Text) (new : IndexItem) (entries : List IndexItem)
    → text_eq new.key key ≡ false
    → IsAbsent key entries
    → IsAbsent key (insert_entry new entries)
unfolding insert_entry
insert_entry-IsAbsent key new [] apart absent = (apart, tt)
insert_entry-IsAbsent key new (entry ∷ rest) apart (this, absent) =
    elim (Bool-cases (bytes_le new.key entry.key)) [
      | inl before ↦ rw before (apart, (this, absent))
      | inr after ↦ rw after (this, insert_entry-IsAbsent key new rest apart absent)
    ]

sort_entries-IsAbsent :
    (key : Text) (entries : List IndexItem)
    → IsAbsent key entries
    → IsAbsent key (sort_entries entries)
unfolding sort_entries
sort_entries-IsAbsent key [] absent = tt
sort_entries-IsAbsent key (entry ∷ rest) (this, absent) =
    insert_entry-IsAbsent key entry (sort_entries rest) this (sort_entries-IsAbsent key rest absent)

set_item-IsAbsent :
    (key : Text) (new : IndexItem) (entries : List IndexItem)
    → text_eq new.key key ≡ false
    → IsAbsent key entries
    → IsAbsent key (set_item new entries)
unfolding set_item
set_item-IsAbsent key new [] apart absent = (apart, tt)
set_item-IsAbsent key new (entry ∷ rest) apart (this, absent) =
    elim (Bool-cases (text_eq entry.key new.key)) [
      | inl same ↦ rw same (apart, absent)
      | inr other ↦ rw other (this, set_item-IsAbsent key new rest apart absent)
    ]

text_eq_comm : (a b : Text) → text_eq a b ≡ text_eq b a
text_eq_comm [] [] = refl
text_eq_comm [] (d ∷ b) = refl
text_eq_comm (c ∷ a) [] = refl
text_eq_comm (c ∷ a) (d ∷ b) = ground (arith, text_eq_comm a b)

set_item-IsDistinct :
    (new : IndexItem) (entries : List IndexItem)
    → IsDistinct entries
    → IsDistinct (set_item new entries)
unfolding set_item
set_item-IsDistinct new [] distinct = (tt, tt)
set_item-IsDistinct new (entry ∷ rest) (absent, distinct) =
    elim (Bool-cases (text_eq entry.key new.key)) [
      | inl same ↦ rw same (rw (text_eq_sound entry.key new.key same) at absent, distinct)
      | inr other ↦ rw other (
        set_item-IsAbsent entry.key new rest (text_eq_comm new.key entry.key ∙ other) absent,
        set_item-IsDistinct new rest distinct,
      )
    ]

pub collect-IsDistinct :
    (key_of : Members → Result Text) (items : List Members) (entries merged : List IndexItem)
    → collect key_of items entries ≡ ok merged
    → IsDistinct entries
    → IsDistinct merged
unfolding collect
collect-IsDistinct key_of [] entries merged e distinct =
    let same : entries ≡ merged = cc e in rw same at distinct
collect-IsDistinct key_of (item ∷ items) entries merged e distinct =
    let (key, returned, rest) = bind-ok (key_of item) _ e in
    collect-IsDistinct key_of items (set_item (record { key = key; item = item }) entries) merged
      rest (set_item-IsDistinct (record { key = key; item = item }) entries distinct)

-- Sorting after an assignment is merging into the sorted list.
sort_entries-set_item :
    (new : IndexItem) (entries : List IndexItem)
    → IsDistinct entries
    → sort_entries (set_item new entries) ≡ put new (sort_entries entries)
unfolding sort_entries set_item put insert_entry
sort_entries-set_item new [] distinct = refl
sort_entries-set_item new (entry ∷ rest) (absent, distinct) =
    elim (Bool-cases (text_eq entry.key new.key)) [
      | inl same ↦ rw same (
          sym (
            put-insert_entry entry new (sort_entries rest) same (
              sort_entries-IsAbsent new.key rest
                (rw (text_eq_sound entry.key new.key same) at absent))))
      | inr other ↦
          rw (other, sort_entries-set_item new rest distinct)
            (insert_entry-put entry new (sort_entries rest) other)
    ]

-- The items in turn, each under its key.
unfoldable pub put_all :
    (Members → Result Text) → List Members → List IndexItem → Result (List IndexItem)
put_all key_of [] entries = ok entries
put_all key_of (item ∷ items) entries =
    bind (key_of item)
      (λ key. put_all key_of items (put (record { key = key; item = item }) entries))

-- Collecting items in a dict and sorting it is merging them into a sorted list.
pub collect-put_all :
    (key_of : Members → Result Text) (items : List Members) (entries : List IndexItem)
    → IsDistinct entries
    → bind (collect key_of items entries) (λ merged. ok (sort_entries merged))
      ≡ put_all key_of items (sort_entries entries)
unfolding collect put_all
collect-put_all key_of [] entries distinct = refl
collect-put_all key_of (item ∷ items) entries distinct = elim (Result-cases (key_of item)) [
  | inr (x, raised) ↦ rw raised refl
  | inl (key, returned) ↦
      let new : IndexItem = record { key = key; item = item } in
      let rest =
        collect-put_all key_of items (set_item new entries)
          (set_item-IsDistinct new entries distinct) in
      rw (returned, rest, sort_entries-set_item new entries distinct) refl
]
