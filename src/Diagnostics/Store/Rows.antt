-- ===== src/Diagnostics/Store/Rows.antt =====
-- Laws of the statements of the store, for every table.
use model_forge.Prelude.{
  String, ◌==◌, sym, ◌∙◌, eq_iff, inl, inr, Bool-cases, ◌≡◌, refl, Bool, true, false, none, some,
  find?, any, all, List, [], ◌∷◌, arith,
}
use model_forge.Storage.Schema.Rows.{update}
use model_forge.Storage.Schema.Tables.{find?-test, any-find?}
use model_forge.Diagnostics.Store.{delete}

module _ {A : Type 0} where
  -- A row that passes a test is left if no row is deleted that passes it.
  pub any-delete :
      (test p q : A → Bool) (rows : List A)
      → ((row : A) → test row ≡ true → q row ≡ true → p row ≡ false)
      → all q rows ≡ true
      → any p rows ≡ true
      → any p (delete test rows) ≡ true
  unfolding delete
  any-delete test p q [] apart h e = e
  any-delete test p q (row ∷ rows) apart h e =
      ground (arith, e, h, apart row, any-delete test p q rows apart)

  pub all-delete :
      (test p : A → Bool) (rows : List A) → all p rows ≡ true → all p (delete test rows) ≡ true
  unfolding delete
  all-delete test p [] e = e
  all-delete test p (row ∷ rows) e = ground (arith, e, all-delete test p rows)

  pub any-update :
      (test p : A → Bool) (change : A → A) (rows : List A)
      → ((row : A) → p (change row) ≡ p row)
      → any p rows ≡ true
      → any p (update test change rows) ≡ true
  unfolding update
  any-update test p change [] h e = e
  any-update test p change (row ∷ rows) h e =
      ground (arith, e, h row, any-update test p change rows h)

  -- An update makes all rows pass a test that the changed rows and the others pass.
  pub all-update :
      (test p : A → Bool) (change : A → A) (rows : List A)
      → ((row : A) → test row ≡ true → p (change row) ≡ true)
      → ((row : A) → test row ≡ false → p row ≡ true)
      → all p (update test change rows) ≡ true
  unfolding update
  all-update test p change [] h k = refl
  all-update test p change (row ∷ rows) h k =
      ground (arith, h row, k row, all-update test p change rows h k)

  -- An update keeps a test that the changed rows pass.
  pub all-update_frame :
      (test p : A → Bool) (change : A → A) (rows : List A)
      → ((row : A) → test row ≡ true → p (change row) ≡ true)
      → all p rows ≡ true
      → all p (update test change rows) ≡ true
  unfolding update
  all-update_frame test p change [] h e = e
  all-update_frame test p change (row ∷ rows) h e =
      ground (arith, h row, e, all-update_frame test p change rows h)

  pub all-find? :
      (q p : A → Bool) (rows : List A) (x : A)
      → all p rows ≡ true
      → find? q rows ≡ some x
      → p x ≡ true
  all-find? q p [] x e found = cc
  all-find? q p (row ∷ rows) x e found = ground (arith, e, found, all-find? q p rows x)

  pub all-none :
      (q p : A → Bool) (rows : List A)
      → find? q rows ≡ none
      → ((row : A) → q row ≡ false → p row ≡ true)
      → all p rows ≡ true
  all-none q p [] e h = refl
  all-none q p (row ∷ rows) e h = ground (arith, e, h row, all-none q p rows)

  -- A value that a refused test looks for is not the key of a row that is there.
  pub unused_key :
      (field : A → String) (is_used : A → Bool) (value key : String) (rows : List A) (row : A)
      → ((r : A) → (field r == value) ≡ true → is_used r ≡ true)
      → any is_used rows ≡ false
      → find? (λ r. field r == key) rows ≡ some row
      → (value == key) ≡ false
  unused_key field is_used value key rows row covers unused found =
      elim (Bool-cases (value == key)) [
        | inr apart ↦ apart
        | inl same ↦
            let named =
              (eq_iff (field row) key).0 (find?-test (λ r. field r == key) rows row found) in
            let hit = (eq_iff (field row) value).1 (named ∙ sym ((eq_iff value key).0 same)) in
            cc (unused, any-find? (λ r. field r == key) is_used rows row found (covers row hit))
      ]
