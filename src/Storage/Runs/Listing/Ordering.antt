-- ===== src/Storage/Runs/Listing/Ordering.antt =====
-- The order in which `list_incomplete_runs` lists the runs: that of their creation times, and of their
-- run ids where these are the same.
use Prim.Native.Char.{code}
use text.Mathlib.TextEquality.{Char-path}
use model_forge.Prelude.{
  ℕ, String, ◌==◌, eq_iff, sym, Bool-cases, inl, inr, ◌⊎◌, ◌<◌, ◌≡◌, refl, true, false, List, [],
  ◌∷◌, arith, ltb,
}
use model_forge.Storage.Text.{codes}
use model_forge.Storage.Schema.Rows.{RunRow}
use model_forge.Storage.Runs.Listing.{
  codes_le, is_incomplete, run_le, insert_ordered, select_incomplete,
}

-- The code points of a text that comes before another in a dictionary.
pub data IsLess : List ℕ → List ℕ → Type 0 where
  ends : {d : ℕ} {ds : List ℕ} → IsLess [] (d ∷ ds)
  first : {c d : ℕ} {cs ds : List ℕ} → c < d → IsLess (c ∷ cs) (d ∷ ds)
  later : {c : ℕ} {cs ds : List ℕ} → IsLess cs ds → IsLess (c ∷ cs) (c ∷ ds)

-- A run was created before another, or at the same time and has the smaller run id or the same.
abbrev pub IsBefore : RunRow → RunRow → Type 0
IsBefore a b =
    IsLess (codes a.created_at) (codes b.created_at)
    ⊎ (a.created_at ≡ b.created_at)
      × (IsLess (codes a.run_id) (codes b.run_id) ⊎ (a.run_id ≡ b.run_id))

-- Each run comes before the one after it.
abbrev pub IsSorted : List RunRow → Type 0
IsSorted [] = Unit
IsSorted (a ∷ []) = Unit
IsSorted (a ∷ b ∷ rows) = IsBefore a b × IsSorted (b ∷ rows)

codes_injective : (s t : String) → codes s ≡ codes t → s ≡ t
codes_injective String.[] String.[] e = refl
codes_injective String.[] (String.◌∷◌ d t) e = cc
codes_injective (String.◌∷◌ c s) String.[] e = cc
codes_injective (String.◌∷◌ c s) (String.◌∷◌ d t) e =
    let head : code c ≡ code d = cc e in
    let tail : codes s ≡ codes t = cc e in cc (Char-path c d head, codes_injective s t tail)

codes_le-IsLess : (cs ds : List ℕ) → codes_le cs ds ≡ true → IsLess cs ds ⊎ (cs ≡ ds)
codes_le-IsLess [] [] e = inr refl
codes_le-IsLess [] (d ∷ ds) e = inl ends
codes_le-IsLess (c ∷ cs) [] e = cc
codes_le-IsLess (c ∷ cs) (d ∷ ds) e = elim (Bool-cases (ltb c d)) [
  | inl less ↦ inl (first (ground (arith, less)))
  | inr other ↦
      let same : c ≡ d = ground (arith, other) in
      let rest : codes_le cs ds ≡ true = ground (arith, other) in
      elim (codes_le-IsLess cs ds rest) [
        | inl less ↦ inl (rw same (later less))
        | inr equal ↦ inr (cc (same, equal))
      ]
]

text_order :
    (s t : String) → codes_le (codes s) (codes t) ≡ true → IsLess (codes s) (codes t) ⊎ (s ≡ t)
text_order s t e = elim (codes_le-IsLess (codes s) (codes t) e) [
  | inl less ↦ inl less
  | inr same ↦ inr (codes_injective s t same)
]

run_le-IsBefore : (a b : RunRow) → run_le a b ≡ true → IsBefore a b
unfolding run_le
run_le-IsBefore a b e = elim (Bool-cases (a.created_at == b.created_at)) [
  | inl same ↦
      inr ((eq_iff a.created_at b.created_at).0 same, text_order a.run_id b.run_id (rw same at e))
  | inr other ↦ elim (text_order a.created_at b.created_at (rw other at e)) [
    | inl less ↦ inl less
    | inr same ↦ cc ((eq_iff a.created_at b.created_at).1 same, other)
  ]
]

codes_le_total : (cs ds : List ℕ) → codes_le cs ds ≡ false → codes_le ds cs ≡ true
codes_le_total [] ds h = cc
codes_le_total (c ∷ cs) [] h = refl
codes_le_total (c ∷ cs) (d ∷ ds) h = ground (arith, codes_le_total cs ds)

run_le_total : (a b : RunRow) → run_le a b ≡ false → run_le b a ≡ true
unfolding run_le
run_le_total a b h = elim (Bool-cases (a.created_at == b.created_at)) [
  | inl same ↦
      rw ((eq_iff b.created_at a.created_at).1 (sym ((eq_iff a.created_at b.created_at).0 same)))
        (codes_le_total (codes a.run_id) (codes b.run_id) (rw same at h))
  | inr other ↦ elim (Bool-cases (b.created_at == a.created_at)) [
    | inl same ↦ cc (
      (eq_iff a.created_at b.created_at).1 (sym ((eq_iff b.created_at a.created_at).0 same)),
      other,
    )
    | inr differ ↦
        rw differ (codes_le_total (codes a.created_at) (codes b.created_at) (rw other at h))
  ]
]

-- Each row is at most the one after it.
abbrev IsOrdered : List RunRow → Type 0
IsOrdered [] = Unit
IsOrdered (a ∷ []) = Unit
IsOrdered (a ∷ b ∷ rows) = (run_le a b ≡ true) × IsOrdered (b ∷ rows)

insert_ordered-IsOrdered :
    (new : RunRow) (rows : List RunRow) → IsOrdered rows → IsOrdered (insert_ordered new rows)
unfolding insert_ordered
insert_ordered-IsOrdered new [] h = tt
insert_ordered-IsOrdered new (a ∷ []) h = ground (arith, run_le_total new a)
insert_ordered-IsOrdered new (a ∷ b ∷ rows) h =
    ground (arith, run_le_total new a, insert_ordered-IsOrdered new (b ∷ rows) h.1)

select_incomplete-IsOrdered : (rows : List RunRow) → IsOrdered (select_incomplete rows)
unfolding select_incomplete
select_incomplete-IsOrdered [] = tt
select_incomplete-IsOrdered (row ∷ rows) = elim (Bool-cases (is_incomplete row.status)) [
  | inl here ↦
      rw here
        (insert_ordered-IsOrdered row (select_incomplete rows) (select_incomplete-IsOrdered rows))
  | inr finished ↦ rw finished (select_incomplete-IsOrdered rows)
]

IsOrdered-IsSorted : (rows : List RunRow) → IsOrdered rows → IsSorted rows
IsOrdered-IsSorted [] h = tt
IsOrdered-IsSorted (a ∷ []) h = tt
IsOrdered-IsSorted (a ∷ b ∷ rows) (le, rest) =
    (run_le-IsBefore a b le, IsOrdered-IsSorted (b ∷ rows) rest)

pub select_incomplete-IsSorted : (rows : List RunRow) → IsSorted (select_incomplete rows)
select_incomplete-IsSorted rows =
    IsOrdered-IsSorted (select_incomplete rows) (select_incomplete-IsOrdered rows)
