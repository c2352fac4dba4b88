-- ===== src/Storage/Settings/Revising.antt =====
-- What `_set_revisioned` does to the row that it sets and to the others, for every table that keeps
-- the laws of its record.
use text.Mathlib.TextPositions.{eq_refl}
use model_forge.Prelude.{
  ℕ, ◌+◌, ◌≡◌, refl, sym, ap, ◌∙◌, String, ◌==◌, true, false, ◌&&◌, Option, none, some, List, ◌∷◌,
  nat_eq, find?, ok, arith,
}
use model_forge.Storage.Database.{Tx}
use model_forge.Storage.Schema.Rows.{Hub}
use model_forge.Storage.Schema.Tables.{find?-test, find?-update_hit, find?-update_miss}
use model_forge.Storage.Settings.{
  Revisioned, select, current_revision, insert_revisioned, update_revisioned, write_revisioned,
  revise,
}

-- What a table must keep for `_set_revisioned` to work on it.
pub record IsRevisioned {Row Values : Type 0} (T : Revisioned Row Values) (values_of : Row → Values)
    : Type 0 where
  pub rows-store : (rows : List Row) (h : Hub) → T.rows (T.store rows h) ≡ rows
  pub is_key-row_of :
      (project_id key project_id' key' : String) (values : Values) (revision : ℕ) (at : String)
      → T.is_key project_id key (T.row_of project_id' key' values revision at)
        ≡ (project_id' == project_id && key' == key)
  pub is_key-assign :
      (project_id key : String) (values : Values) (revision : ℕ) (at : String) (row : Row)
      → T.is_key project_id key (T.assign values revision at row) ≡ T.is_key project_id key row
  pub is_key-eq :
      (project_id key project_id' key' : String) (row : Row)
      → T.is_key project_id key row ≡ true
      → T.is_key project_id' key' row ≡ (project_id == project_id' && key == key')
  pub revision-row_of :
      (project_id key : String) (values : Values) (revision : ℕ) (at : String)
      → T.revision (T.row_of project_id key values revision at) ≡ revision
  pub revision-assign :
      (values : Values) (revision : ℕ) (at : String) (row : Row)
      → T.revision (T.assign values revision at row) ≡ revision
  pub values-row_of :
      (project_id key : String) (values : Values) (revision : ℕ) (at : String)
      → values_of (T.row_of project_id key values revision at) ≡ values
  pub values-assign :
      (values : Values) (revision : ℕ) (at : String) (row : Row)
      → values_of (T.assign values revision at row) ≡ values

module _ {Row Values : Type 0} (T : Revisioned Row Values) (values_of : Row → Values)
    (laws : IsRevisioned T values_of) where
  -- A row as `_set_revisioned` leaves it.
  abbrev pub IsWritten : (project_id key : String) → Values → (expected : ℕ) → Row → Hub → Type 0
  IsWritten project_id key values expected new h =
      (select T project_id key h ≡ some new)
      × (T.revision new ≡ expected + 1)
      × (values_of new ≡ values)

  abbrev write_of :
      (project_id key : String)
      → Values
      → (expected : ℕ) → (at : String) → Option Row
      → Tx Hub (Unit {0})
  write_of project_id key values expected at (some old) =
      update_revisioned T project_id key values expected (expected + 1) at
  write_of project_id key values expected at none =
      insert_revisioned T project_id key values (expected + 1) at

  update_revisioned-writes :
      (project_id key : String) (values : Values) (expected : ℕ) (at : String) (old : Row) (h : Hub)
      → select T project_id key h ≡ some old
      → T.revision old ≡ expected
      → select T project_id key
          (update_revisioned T project_id key values expected (expected + 1) at h).1
        ≡ some (T.assign values (expected + 1) at old)
  unfolding update_revisioned
  update_revisioned-writes project_id key values expected at old h there fresh =
      ap (find? (T.is_key project_id key)) (laws.rows-store _ h)
      ∙ find?-update_hit (T.is_key project_id key)
          (λ row. T.is_key project_id key row && nat_eq (T.revision row) expected)
          (T.assign values (expected + 1) at) (T.rows h) old
          (laws.is_key-assign project_id key values (expected + 1) at) there
          (ground (arith, fresh, find?-test (T.is_key project_id key) (T.rows h) old there))

  insert_revisioned-writes :
      (project_id key : String) (values : Values) (revision : ℕ) (at : String) (h : Hub)
      → (insert_revisioned T project_id key values revision at h).0 ≡ ok tt
      → select T project_id key (insert_revisioned T project_id key values revision at h).1
        ≡ some (T.row_of project_id key values revision at)
  unfolding insert_revisioned
  insert_revisioned-writes project_id key values revision at h e = ground (
    arith,
    e,
    laws.rows-store (T.row_of project_id key values revision at ∷ T.rows h) h,
    laws.is_key-row_of project_id key project_id key values revision at,
    eq_refl project_id,
    eq_refl key,
  )

  -- A write that returned has written the values of the row that it read again.
  read_again :
      (project_id key : String) (values : Values) (expected : ℕ) (at : String) (row : Option Row)
      → (h : Hub) → {new : Row}
      → (write_revisioned T project_id key values expected at row h).0 ≡ ok new
      → ((write_of project_id key values expected at row h).0 ≡ ok tt)
        × (select T project_id key (write_of project_id key values expected at row h).1 ≡ some new)
        × ((write_revisioned T project_id key values expected at row h).1
            ≡ (write_of project_id key values expected at row h).1)
  unfolding write_revisioned
  read_again project_id key values expected at (some old) h e =
      (ground (arith, e), ground (arith, e), ground (arith, e))
  read_again project_id key values expected at none h e =
      (ground (arith, e), ground (arith, e), ground (arith, e))

  pub IsWritten-write_revisioned :
      (project_id key : String) (values : Values) (expected : ℕ) (at : String) (row : Option Row)
      → (h : Hub) → {new : Row} → select T project_id key h ≡ row
      → current_revision T row ≡ expected
      → (write_revisioned T project_id key values expected at row h).0 ≡ ok new
      → IsWritten project_id key values expected new
          (write_revisioned T project_id key values expected at row h).1
  IsWritten-write_revisioned project_id key values expected at (some old) h there fresh e =
      let (_, found, same) = read_again project_id key values expected at (some old) h e in
      let wrote = update_revisioned-writes project_id key values expected at old h there fresh in
      (
        rw same found,
        ground (arith, wrote, found, laws.revision-assign values (expected + 1) at old),
        ground (arith, wrote, found, laws.values-assign values (expected + 1) at old),
      )
  IsWritten-write_revisioned project_id key values expected at none h there fresh e =
      let (passed, found, same) = read_again project_id key values expected at none h e in
      let wrote = insert_revisioned-writes project_id key values (expected + 1) at h passed in
      (
        rw same found,
        ground (arith, wrote, found, laws.revision-row_of project_id key values (expected + 1) at),
        ground (arith, wrote, found, laws.values-row_of project_id key values (expected + 1) at),
      )

  same_state :
      (project_id key : String) (values : Values) (expected : ℕ) (at : String) (row : Option Row)
      → (h : Hub)
      → (write_revisioned T project_id key values expected at row h).1
        ≡ (write_of project_id key values expected at row h).1
  unfolding write_revisioned
  same_state project_id key values expected at (some old) h = ground arith
  same_state project_id key values expected at none h = ground arith

  write_of_frame :
      (project_id key : String) (values : Values) (expected : ℕ) (at : String) (row : Option Row)
      → (h : Hub) → (other_project other_key : String)
      → (project_id == other_project && key == other_key) ≡ false
      → select T other_project other_key (write_of project_id key values expected at row h).1
        ≡ select T other_project other_key h
  unfolding insert_revisioned update_revisioned
  write_of_frame project_id key values expected at (some old) h other_project other_key apart =
      ap (find? (T.is_key other_project other_key)) (laws.rows-store _ h)
      ∙ find?-update_miss (T.is_key other_project other_key)
          (λ row. T.is_key project_id key row && nat_eq (T.revision row) expected)
          (T.assign values (expected + 1) at) (T.rows h)
          (laws.is_key-assign other_project other_key values (expected + 1) at)
          (λ row hit.
            ground (arith, hit, apart, laws.is_key-eq project_id key other_project other_key row))
  write_of_frame project_id key values expected at none h other_project other_key apart = ground (
    arith,
    apart,
    laws.rows-store (T.row_of project_id key values (expected + 1) at ∷ T.rows h) h,
    laws.is_key-row_of other_project other_key project_id key values (expected + 1) at,
  )

  -- The rows of other keys are found as they were.
  pub write_revisioned_frame :
      (project_id key : String) (values : Values) (expected : ℕ) (at : String) (row : Option Row)
      → (h : Hub) → (other_project other_key : String)
      → (project_id == other_project && key == other_key) ≡ false
      → select T other_project other_key
          (write_revisioned T project_id key values expected at row h).1
        ≡ select T other_project other_key h
  write_revisioned_frame project_id key values expected at row h other_project other_key apart =
      ap (select T other_project other_key) (same_state project_id key values expected at row h)
      ∙ write_of_frame project_id key values expected at row h other_project other_key apart

  revise_writes :
      (project_id key : String) (values : Values) (expected : ℕ) (at : String) (h : Hub) {new : Row}
      → (revise T project_id key values expected at h).0 ≡ ok new
      → (current_revision T (select T project_id key h) ≡ expected)
        × (revise T project_id key values expected at h
            ≡ write_revisioned T project_id key values expected at (select T project_id key h) h)
  unfolding revise
  revise_writes project_id key values expected at h e = (ground (arith, e), ground (arith, e))

  -- The body of the transaction of `_set_revisioned`, where it returns: the revision was the expected
  -- one, and the row that it returns is there, with the values and the next revision.
  pub revise_effect :
      (project_id key : String) (values : Values) (expected : ℕ) (at : String) (h : Hub) {new : Row}
      → (revise T project_id key values expected at h).0 ≡ ok new
      → (current_revision T (select T project_id key h) ≡ expected)
        × IsWritten project_id key values expected new
            (revise T project_id key values expected at h).1
  unfolding revise
  revise_effect project_id key values expected at h e =
      let (fresh, same) = revise_writes project_id key values expected at h e in
      (
        fresh,
        rw same (
            IsWritten-write_revisioned project_id key values expected at (select T project_id key h)
              h refl fresh (rw (sym same) e)),
      )
