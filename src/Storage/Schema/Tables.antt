-- ===== src/Storage/Schema/Tables.antt =====
-- Laws of the generic statements of `Rows`, for every table.
use model_forge.Prelude.{
  ℕ, ◌&&◌, nat_eq, ◌≤◌, ◌≡◌, refl, Bool, true, false, any, inl, inr, Bool-cases, List, [], ◌∷◌,
  Option, none, some, find?, arith, if◌then◌else◌,
}
use model_forge.Storage.Schema.Rows.{update, rowcount, next_sequence}

module _ {A : Type 0} where
  -- Fewer rows pass a narrower test.
  pub rowcount-le :
      (p q : A → Bool) (rows : List A)
      → ((row : A) → p row ≡ true → q row ≡ true)
      → rowcount p rows ≤ rowcount q rows
  unfolding rowcount
  rowcount-le p q [] h = omega arith
  rowcount-le p q (row ∷ rows) h = ground (arith, h row, rowcount-le p q rows h)

  -- A test that the change does not affect counts the same rows after an update.
  pub rowcount-update :
      (q p : A → Bool) (change : A → A) (rows : List A)
      → ((row : A) → q (change row) ≡ q row)
      → rowcount q (update p change rows) ≡ rowcount q rows
  unfolding rowcount update
  rowcount-update q p change [] h = refl
  rowcount-update q p change (row ∷ rows) h =
      ground (arith, h row, rowcount-update q p change rows h)

  abbrev pub map_found : (A → Bool) → (A → A) → Option A → Option A
  map_found p change none = none
  map_found p change (some row) = some (if p row then change row else row)

  -- A search by such a test finds the same row, changed if the update reached it.
  pub find?-update :
      (q p : A → Bool) (change : A → A) (rows : List A)
      → ((row : A) → q (change row) ≡ q row)
      → find? q (update p change rows) ≡ map_found p change (find? q rows)
  unfolding update
  find?-update q p change [] h = refl
  find?-update q p change (row ∷ rows) h = ground (arith, h row, find?-update q p change rows h)

  -- What a search finds passes its test.
  pub find?-test : (q : A → Bool) (rows : List A) (x : A) → find? q rows ≡ some x → q x ≡ true
  find?-test q [] x e = cc
  find?-test q (row ∷ rows) x e = ground (arith, find?-test q rows x)

  -- Where at most one row passes `q`, the one found decides how many pass a narrower test.
  pub rowcount_one :
      (p q : A → Bool) (rows : List A) (x : A)
      → ((row : A) → p row ≡ true → q row ≡ true)
      → rowcount q rows ≤ 1
      → find? q rows ≡ some x
      → p x ≡ true
      → rowcount p rows ≡ 1
  unfolding rowcount
  rowcount_one p q [] x h unique e hit = cc
  rowcount_one p q (row ∷ rows) x h unique e hit =
      ground (arith, h row, rowcount-le p q rows h, rowcount_one p q rows x h)

  -- Where one row passes a narrower test, it is the one found.
  pub rowcount_found :
      (p q : A → Bool) (rows : List A) (x : A)
      → ((row : A) → p row ≡ true → q row ≡ true)
      → rowcount q rows ≤ 1
      → find? q rows ≡ some x
      → rowcount p rows ≡ 1
      → p x ≡ true
  unfolding rowcount
  rowcount_found p q [] x h unique e one = cc
  rowcount_found p q (row ∷ rows) x h unique e one =
      ground (arith, h row, rowcount-le p q rows h, rowcount_found p q rows x h)

module _ {A : Type 0} where
  -- A row that passes the search and the narrower test of an update is found changed.
  pub find?-update_hit :
      (q p : A → Bool) (change : A → A) (rows : List A) (x : A)
      → ((row : A) → q (change row) ≡ q row)
      → find? q rows ≡ some x
      → p x ≡ true
      → find? q (update p change rows) ≡ some (change x)
  unfolding update
  find?-update_hit q p change [] x h e hit = cc
  find?-update_hit q p change (row ∷ rows) x h e hit =
      ground (arith, h row, e, hit, find?-update_hit q p change rows x h)

  -- A search for rows that the update does not reach finds what it found.
  pub find?-update_miss :
      (q p : A → Bool) (change : A → A) (rows : List A)
      → ((row : A) → q (change row) ≡ q row)
      → ((row : A) → p row ≡ true → q row ≡ false)
      → find? q (update p change rows) ≡ find? q rows
  unfolding update
  find?-update_miss q p change [] h apart = refl
  find?-update_miss q p change (row ∷ rows) h apart =
      ground (arith, h row, apart row, find?-update_miss q p change rows h apart)

  -- What is found shows that a row passes every test that it passes.
  pub any-find? :
      (q p : A → Bool) (rows : List A) (x : A)
      → find? q rows ≡ some x
      → p x ≡ true
      → any p rows ≡ true
  any-find? q p [] x e hit = cc
  any-find? q p (row ∷ rows) x e hit = ground (arith, e, hit, any-find? q p rows x)

  -- Where a row passes a test, a row is found by it.
  pub find?-any :
      (q : A → Bool) (rows : List A) → any q rows ≡ true → (x : A) × (find? q rows ≡ some x)
  find?-any q [] e = cc
  find?-any q (row ∷ rows) e = elim (Bool-cases (q row)) [
    | inl hit ↦ (row, rw hit refl)
    | inr miss ↦ let (x, found) = find?-any q rows (rw miss at e) in (x, rw miss found)
  ]

module _ {A : Type 0} where
  pub any-none : (p : A → Bool) (rows : List A) → find? p rows ≡ none → any p rows ≡ false
  any-none p [] e = refl
  any-none p (row ∷ rows) e = ground (arith, any-none p rows)

  pub any-some : (p : A → Bool) (rows : List A) {x : A} → find? p rows ≡ some x → any p rows ≡ true
  any-some p [] e = cc
  any-some p (row ∷ rows) {x = x} e = ground (arith, any-some p rows {x = x})

  -- No row has the next number or a later one.
  pub any_next :
      (p : A → Bool) (number : A → ℕ) (rows : List A) (n : ℕ)
      → next_sequence p number rows ≤ n
      → any (λ row. p row && nat_eq (number row) n) rows ≡ false
  unfolding next_sequence
  any_next p number [] n h = refl
  any_next p number (row ∷ rows) n h = ground (arith, any_next p number rows n)
