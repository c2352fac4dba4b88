-- ===== src/Storage/Settings/Comparing.antt =====
-- What `compare_and_set_profile_mapping` has found where it returns, and which of two calls is refused.
use mathlib.Core.Path.{subst}
use model_forge.Prelude.{
  ℕ, ◌≡◌, refl, sym, ◌∙◌, eq_iff, String, ◌==◌, true, false, Option, none, some, List, [], ◌∷◌, All,
  ok, inl, inr, Option-cases, Bool-cases, arith,
}
use model_forge.Storage.Text.{Payload, text, json, time}
use model_forge.Storage.Database.{lift}
use model_forge.Storage.Database.Rules.{>>=-ok, transaction_cases}
use model_forge.Storage.Schema.Rows.{Hub, MappingRow}
use model_forge.Storage.Settings.{nonnegative, select, current_revision, write_revisioned}
use model_forge.Storage.Settings.Tables.{Profile, profile_mappings}
use model_forge.Storage.Settings.Mapping.{
  Entry, Comparison, checked_entries, has_role, lookup, covers, other_profile, compare_role,
  compare_roles, compare_and_set, set_covered, set_compared,
}

-- The mapping of a role is the expected one: the revision that was given for it, zero where there is
-- no row, and the profile name where there is one.
abbrev pub IsExpected : (project_id : String) → List (Entry ℕ) → Hub → Entry String → Type 0
IsExpected project_id revisions h entry =
    (lookup entry.role revisions
      ≡ some (current_revision profile_mappings (select profile_mappings project_id entry.role h)))
    × (other_profile (select profile_mappings project_id entry.role h) entry.value ≡ false)

compare_role-IsExpected :
    (project_id : String) (revisions : List (Entry ℕ)) (entry : Entry String) (h : Hub)
    → (compare_role project_id revisions entry h).0 ≡ ok tt
    → IsExpected project_id revisions h entry
unfolding compare_role
compare_role-IsExpected project_id revisions entry h e =
    elim (Option-cases (lookup entry.role revisions)) [
      | inl absent ↦ ground (arith, e, absent)
      | inr (expected, given) ↦ (ground (arith, e, given), ground (arith, e, given))
    ]

compare_role_reads :
    (project_id : String) (revisions : List (Entry ℕ)) (entry : Entry String) (h : Hub)
    → (compare_role project_id revisions entry h).1 ≡ h
unfolding compare_role
compare_role_reads project_id revisions entry h = ground arith

compare_roles-All :
    (project_id : String) (revisions : List (Entry ℕ)) (entries : List (Entry String)) (h : Hub)
    → (compare_roles project_id revisions entries h).0 ≡ ok tt
    → All (IsExpected project_id revisions h) entries
unfolding compare_roles
compare_roles-All project_id revisions [] h e = tt
compare_roles-All project_id revisions (entry ∷ entries) h e = (
  compare_role-IsExpected project_id revisions entry h (ground (arith, e)),
  compare_roles-All project_id revisions entries h
      (ground (arith, e, compare_role_reads project_id revisions entry h)),
)

compare_roles_reads :
    (project_id : String) (revisions : List (Entry ℕ)) (entries : List (Entry String)) (h : Hub)
    → (compare_roles project_id revisions entries h).1 ≡ h
unfolding compare_roles
compare_roles_reads project_id revisions [] h = refl
compare_roles_reads project_id revisions (entry ∷ entries) h = ground (
  arith,
  compare_role_reads project_id revisions entry h,
  compare_roles_reads project_id revisions entries h,
)

pub expected_role :
    (project_id role : String) (revisions : List (Entry ℕ)) (entries : List (Entry String))
    (h : Hub)
    → All (IsExpected project_id revisions h) entries
    → has_role entries role ≡ true
    → lookup role revisions
      ≡ some (current_revision profile_mappings (select profile_mappings project_id role h))
expected_role project_id role revisions [] h all found = cc
expected_role project_id role revisions (entry ∷ entries) h (this, rest) found =
    elim (Bool-cases (entry.role == role)) [
      | inl same ↦
          subst
            (λ name.
              lookup name revisions
              ≡ some
                  (current_revision profile_mappings (select profile_mappings project_id name h)))
            ((eq_iff entry.role role).0 same) this.0
      | inr other ↦
          expected_role project_id role revisions entries h rest (ground (arith, found, other))
    ]

json-ok : (payload : Payload) {value : String} → json payload ≡ ok value → payload ≡ some value
unfolding json
json-ok none e = cc
json-ok (some text) e = cc

-- The body of the transaction, where it returns.
pub compare_and_set_runs :
    (project_id role_key : String) (profile : Profile) (profiles : List (Entry String))
    → (revisions : List (Entry ℕ)) → (at : String) → (h : Hub) → {new : MappingRow}
    → has_role profiles role_key ≡ true
    → (compare_and_set project_id role_key profile profiles revisions at h).0 ≡ ok new
    → (expected : ℕ) × (lookup role_key revisions ≡ some expected)
      × (current_revision profile_mappings (select profile_mappings project_id role_key h)
          ≡ expected)
      × All (IsExpected project_id revisions h) profiles
      × (compare_and_set project_id role_key profile profiles revisions at h
          ≡ write_revisioned profile_mappings project_id role_key profile expected at
              (select profile_mappings project_id role_key h)
              h)
unfolding compare_and_set
compare_and_set_runs project_id role_key profile profiles revisions at h covered e =
    let unchanged = compare_roles_reads project_id revisions profiles h in
    let every = compare_roles-All project_id revisions profiles h (ground (arith, e)) in
    let given = expected_role project_id role_key revisions profiles h every covered in
    (
      current_revision profile_mappings (select profile_mappings project_id role_key h),
      given,
      refl,
      every,
      ground (arith, e, unchanged, given),
    )

pub set_covered_runs :
    (c : Comparison) (profiles : List (Entry String)) (revisions : List (Entry ℕ)) (h : Hub)
    → {new : MappingRow} → (set_covered c profiles revisions h).0 ≡ ok new
    → (settings_json at : String) × (c.settings ≡ some settings_json)
      × (set_covered c profiles revisions h
          ≡ compare_and_set c.project_id c.role_key
              (record { profile_name = c.profile_name; settings_json = settings_json })
              profiles
              revisions
              at
              h)
unfolding set_covered
set_covered_runs c profiles revisions h e =
    let (settings_json, given, first) = >>=-ok (lift (json c.settings)) _ h e in
    let e1 = rw first at e in
    let (at, _, second) = >>=-ok (lift (time c.updated_at)) _ h e1 in
    let e2 = rw second at e1 in
    let body =
      compare_and_set c.project_id c.role_key
        (record { profile_name = c.profile_name; settings_json = settings_json }) profiles revisions
        at in
    elim (transaction_cases body h) [
      | inr (_, _, failed) ↦ cc (rw failed at e2)
      | inl (_, returned, same) ↦ (
        settings_json,
        at,
        json-ok c.settings given,
        first ∙ second ∙ same ∙ (λ i. (sym returned i, (body h).1)),
      )
    ]

pub set_compared_runs :
    (c : Comparison) (expected_profiles : List (Entry String))
    → (expected_revisions : List (Entry (Option ℕ))) → (h : Hub) → {new : MappingRow}
    → (set_compared c expected_profiles expected_revisions h).0 ≡ ok new
    → (profiles : List (Entry String)) × (revisions : List (Entry ℕ)) × (checked_entries text
          expected_profiles
        ≡ ok profiles)
      × (checked_entries nonnegative expected_revisions ≡ ok revisions)
      × (has_role profiles c.role_key ≡ true)
      × (set_compared c expected_profiles expected_revisions h ≡ set_covered c profiles revisions h)
unfolding set_compared covers
set_compared_runs c expected_profiles expected_revisions h e =
    let (profiles, named, first) = >>=-ok (lift (checked_entries text expected_profiles)) _ h e in
    let e1 = rw first at e in
    let (revisions, counted, second) =
      >>=-ok (lift (checked_entries nonnegative expected_revisions)) _ h e1 in
    let e2 = rw second at e1 in
    (
      profiles,
      revisions,
      named,
      counted,
      ground (arith, e2),
      rw (first, second) (ground (arith, e2)),
    )
