-- ===== src/Orchestration/Sequential/Order.antt =====
-- The stage numbers that the sequential adapter accepts.
use mathlib.Core.Path.{subst}
use model_forge.Prelude.{ℕ, ◌<◌, ◌≡◌, refl, sym, ap, ◌∙◌, ◌↔◌, true, List, [], ◌∷◌, arith}
use model_forge.Orchestration.Sequential.{insert_value, sorted_set, values_eq, is_ordered}

-- There is a first number, and each number is less than the one after it.
abbrev pub IsIncreasing : List ℕ → Type 0
IsIncreasing [] = ⊥
IsIncreasing (n ∷ []) = Unit
IsIncreasing (n ∷ m ∷ ms) = (n < m) × IsIncreasing (m ∷ ms)

values_eq_refl : (ns : List ℕ) → values_eq ns ns ≡ true
values_eq_refl [] = refl
values_eq_refl (n ∷ ns) = ground (arith, values_eq_refl ns)

values_eq-eq : (ns ms : List ℕ) → values_eq ns ms ≡ true → ns ≡ ms
values_eq-eq [] [] h = refl
values_eq-eq [] (m ∷ ms) h = cc
values_eq-eq (n ∷ ns) [] h = cc
values_eq-eq (n ∷ ns) (m ∷ ms) h = ground (arith, values_eq-eq ns ms)

-- Inserting leaves a number in front that is the new one or the old first one.
insert-IsIncreasing : (n : ℕ) (ns : List ℕ) → IsIncreasing ns → IsIncreasing (insert_value n ns)
insert-IsIncreasing n [] h = tt
insert-IsIncreasing n (m ∷ []) h = ground arith
insert-IsIncreasing n (m ∷ k ∷ ks) h = ground (arith, insert-IsIncreasing n (k ∷ ks) h.1)

insert-front : (n m : ℕ) (ms : List ℕ) → n < m → insert_value n (m ∷ ms) ≡ n ∷ m ∷ ms
insert-front n m ms h = ground arith

sorted_set-IsIncreasing : (n : ℕ) (ns : List ℕ) → IsIncreasing (sorted_set (n ∷ ns))
sorted_set-IsIncreasing n [] = tt
sorted_set-IsIncreasing n (m ∷ ms) =
    insert-IsIncreasing n (sorted_set (m ∷ ms)) (sorted_set-IsIncreasing m ms)

sorted_set-fixed : (ns : List ℕ) → IsIncreasing ns → sorted_set ns ≡ ns
sorted_set-fixed [] h = refl
sorted_set-fixed (n ∷ []) h = refl
sorted_set-fixed (n ∷ m ∷ ms) h = rw (sorted_set-fixed (m ∷ ms) h.1) (insert-front n m ms h.0)

-- The check of `_require_ordered_stages`, `sequences == tuple(sorted(set(sequences)))` on a plan
-- with a stage, accepts exactly the plans that have a stage and whose numbers increase strictly.
pub is_ordered-IsIncreasing : (ns : List ℕ) → (is_ordered ns ≡ true) ↔ IsIncreasing ns
unfolding is_ordered
is_ordered-IsIncreasing [] = (λ h. cc, λ h. absurd h)
is_ordered-IsIncreasing (n ∷ ns) = (
  λ h.
      subst (λ ms. IsIncreasing ms)
        (sym (values_eq-eq (n ∷ ns) (sorted_set (n ∷ ns)) (ground arith)))
        (sorted_set-IsIncreasing n ns),
  λ h.
      ground
        (arith, ap (values_eq (n ∷ ns)) (sorted_set-fixed (n ∷ ns) h) ∙ values_eq_refl (n ∷ ns)),
)
