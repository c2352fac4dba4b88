-- ===== src/Harness/Indexes/Sorted.antt =====
-- What merging items into a sorted list keeps, and that a list which has it is merged again to itself.
use mathlib.Core.List.{append-nil, append_assoc}
use model_forge.Prelude.{
  ◌≡◌, refl, sym, ap, ◌∙◌, true, false, List, [], ◌∷◌, ◌++◌, map, All, Result, ok, bind-ok,
  Bool-cases, arith, inl, inr,
}
use model_forge.Digests.Json.{Text, Members}
use model_forge.Digests.Utf16.{bytes_le}
use model_forge.Digests.Utf16.Order.{bytes_le_total, bytes_le_trans}
use model_forge.Harness.Indexes.{text_eq}
use model_forge.Harness.Indexes.Reducers.{IndexItem}
use model_forge.Harness.Indexes.Merging.{put, put_all, apart_le, text_eq_sound}

-- All these keys come after the text.
abbrev pub IsAfter : Text → List IndexItem → Type 0
IsAfter key entries = All (λ entry. bytes_le entry.key key ≡ false) entries

-- The keys increase.
abbrev pub IsIncreasing : List IndexItem → Type 0
IsIncreasing [] = Unit
IsIncreasing (entry ∷ rest) = IsAfter entry.key rest × IsIncreasing rest

-- Each key is its item's.
abbrev pub IsKeyed : (Members → Result Text) → List IndexItem → Type 0
IsKeyed key_of entries = All (λ entry. key_of entry.item ≡ ok entry.key) entries

All-put :
    (P : IndexItem → Type 0) (new : IndexItem) (entries : List IndexItem)
    → P new
    → All P entries
    → All P (put new entries)
unfolding put
All-put P new [] here all = (here, tt)
All-put P new (entry ∷ rest) here (this, all) = elim (Bool-cases (text_eq entry.key new.key)) [
  | inl same ↦ rw same (here, all)
  | inr other ↦ rw other (elim (Bool-cases (bytes_le new.key entry.key)) [
    | inl before ↦ rw before (here, (this, all))
    | inr after ↦ rw after (this, All-put P new rest here all)
  ])
]

-- What comes after a text comes after one before it.
IsAfter-trans :
    (key other : Text) (entries : List IndexItem)
    → bytes_le key other ≡ true
    → IsAfter other entries
    → IsAfter key entries
IsAfter-trans key other [] before after = tt
IsAfter-trans key other (entry ∷ rest) before (this, after) = (
  ground (arith, this, before, bytes_le_trans entry.key key other),
  IsAfter-trans key other rest before after,
)

put-IsIncreasing :
    (new : IndexItem) (entries : List IndexItem)
    → IsIncreasing entries
    → IsIncreasing (put new entries)
unfolding put
put-IsIncreasing new [] increasing = (tt, tt)
put-IsIncreasing new (entry ∷ rest) (after, increasing) =
    elim (Bool-cases (text_eq entry.key new.key)) [
      | inl same ↦ rw same (rw (text_eq_sound entry.key new.key same) at after, increasing)
      | inr other ↦ rw other (elim (Bool-cases (bytes_le new.key entry.key)) [
        | inl before ↦
            let next : bytes_le entry.key new.key ≡ false =
              ground (arith, before, apart_le entry.key new.key other) in
            rw before
              ((next, IsAfter-trans new.key entry.key rest before after), (after, increasing))
        | inr behind ↦ rw behind (
          All-put (λ e. bytes_le e.key entry.key ≡ false) new rest behind after,
          put-IsIncreasing new rest increasing,
        )
      ])
    ]

All-append :
    (P : IndexItem → Type 0) (xs ys : List IndexItem) → All P xs → All P ys → All P (xs ++ ys)
All-append P [] ys p q = q
All-append P (x ∷ xs) ys (here, p) q = (here, All-append P xs ys p q)

module _ (key_of : Members → Result Text) where
  -- Merging keeps the keys increasing and each its item's.
  pub put_all-IsIncreasing :
      (items : List Members) (entries merged : List IndexItem)
      → put_all key_of items entries ≡ ok merged
      → IsIncreasing entries
      → IsKeyed key_of entries
      → IsIncreasing merged × IsKeyed key_of merged
  unfolding put_all
  put_all-IsIncreasing [] entries merged e increasing keyed =
      let same : entries ≡ merged = cc e in (rw same at increasing, rw same at keyed)
  put_all-IsIncreasing (item ∷ items) entries merged e increasing keyed =
      let (key, returned, rest) = bind-ok (key_of item) _ e in
      let new : IndexItem = record { key = key; item = item } in
      put_all-IsIncreasing items (put new entries) merged rest
        (put-IsIncreasing new entries increasing)
        (All-put (λ x. key_of x.item ≡ ok x.key) new entries returned keyed)

  -- These entries all come after those.
  abbrev IsBelow : List IndexItem → List IndexItem → Type 0
  IsBelow before entries =
      All (λ entry. All (λ old. bytes_le entry.key old.key ≡ false) before) entries

  put_last :
      (new : IndexItem) (before : List IndexItem)
      → All (λ old. bytes_le new.key old.key ≡ false) before
      → put new before ≡ before ++ new ∷ []
  unfolding put
  put_last new [] below = refl
  put_last new (old ∷ before) (this, below) =
      let apart : text_eq old.key new.key ≡ false = elim (Bool-cases (text_eq old.key new.key)) [
        | inr apart ↦ apart
        | inl same ↦
            let equal = ap (bytes_le new.key) (text_eq_sound old.key new.key same) in
            cc (bytes_le_total new.key new.key (sym equal ∙ this), equal, this)
      ] in
      rw (apart, this, put_last new before below) refl

  IsBelow-next :
      (before : List IndexItem) (next : IndexItem) (entries : List IndexItem)
      → IsBelow before entries
      → IsAfter next.key entries
      → IsBelow (before ++ next ∷ []) entries
  IsBelow-next before next [] below after = tt
  IsBelow-next before next (entry ∷ rest) (this, below) (this', after) = (
    All-append (λ old. bytes_le entry.key old.key ≡ false) before (next ∷ []) this (this', tt),
    IsBelow-next before next rest below after,
  )

  again :
      (before entries : List IndexItem)
      → IsKeyed key_of entries
      → IsIncreasing entries
      → IsBelow before entries
      → put_all key_of (map (λ entry. entry.item) entries) before ≡ ok (before ++ entries)
  unfolding put_all
  again before [] keyed increasing below = ap ok (sym (append-nil before))
  again before (entry ∷ rest) (here, keyed) (after, increasing) (this, below) =
      rw (here, put_last entry before this)
        (again (before ++ entry ∷ []) rest keyed increasing
            (IsBelow-next before entry rest below after)
          ∙ ap ok (append_assoc before (entry ∷ []) rest))

  IsBelow-empty : (entries : List IndexItem) → IsBelow [] entries
  IsBelow-empty [] = tt
  IsBelow-empty (entry ∷ rest) = (tt, IsBelow-empty rest)

  -- The items of a sorted list, merged from the start, give that list.
  pub put_all_again :
      (entries : List IndexItem)
      → IsKeyed key_of entries
      → IsIncreasing entries
      → put_all key_of (map (λ entry. entry.item) entries) [] ≡ ok entries
  put_all_again entries keyed increasing = again [] entries keyed increasing (IsBelow-empty entries)
