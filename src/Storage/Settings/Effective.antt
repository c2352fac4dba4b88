-- ===== src/Storage/Settings/Effective.antt =====
-- The calls of `compare_and_set_profile_mapping`: what they have found and written, and which of two
-- calls is refused.
use model_forge.Prelude.{
  ℕ, ◌+◌, ◌≡◌, refl, sym, ap, ◌∙◌, String, ◌==◌, true, false, ◌&&◌, Option, none, some, List, All,
  ok, err, inl, inr, Option-cases, arith,
}
use model_forge.Storage.Text.{text}
use model_forge.Storage.Database.{lift}
use model_forge.Storage.Database.Rules.{>>=-ok}
use model_forge.Storage.Database.Atomic.{IsAtomic, IsAtomic-raise, atomic_rules, outcomes}
use model_forge.Storage.Schema.Rows.{Hub, MappingRow}
use model_forge.Storage.Settings.{nonnegative, select, current_revision, write_revisioned}
use model_forge.Storage.Settings.Revising.{IsWritten-write_revisioned, write_revisioned_frame}
use model_forge.Storage.Settings.Tables.{Profile, profile_mappings}
use model_forge.Storage.Settings.Setting.{profile_of, IsRevisioned-profile_mappings}
use model_forge.Storage.Settings.Mapping.{
  Entry, Comparison, checked_entries, has_role, lookup, set_covered, set_compared, with_mappings,
  compare_and_set_profile_mapping,
}
use model_forge.Storage.Settings.Comparing.{
  IsExpected, compare_and_set_runs, set_covered_runs, set_compared_runs, expected_role,
}

-- The expected state as the call gave it, and as it was checked.
abbrev pub IsGiven : Comparison → List (Entry String) → List (Entry ℕ) → Type 0
IsGiven c profiles revisions =
    (given_profiles : List (Entry String)) × (given_revisions : List (Entry (Option ℕ)))
    × (c.expected_profiles ≡ some given_profiles)
    × (c.expected_revisions ≡ some given_revisions)
    × (checked_entries text given_profiles ≡ ok profiles)
    × (checked_entries nonnegative given_revisions ≡ ok revisions)

call_runs :
    (c : Comparison) (h : Hub) {new : MappingRow}
    → (compare_and_set_profile_mapping c h).0 ≡ ok new
    → (profiles : List (Entry String)) × (revisions : List (Entry ℕ)) × IsGiven c profiles revisions
      × (has_role profiles c.role_key ≡ true)
      × (compare_and_set_profile_mapping c h ≡ set_covered c profiles revisions h)
unfolding compare_and_set_profile_mapping
call_runs c h {new = new} e =
    let (_, _, first) = >>=-ok (lift (text c.project_id)) _ h e in
    let e1 = rw first at e in
    let (_, _, second) = >>=-ok (lift (text c.role_key)) _ h e1 in
    let e2 = rw second at e1 in
    let (_, _, third) = >>=-ok (lift (text c.profile_name)) _ h e2 in
    let e3 = rw third at e2 in
    elim (Option-cases c.expected_profiles) [
      | inl absent ↦ ground (arith, e3, absent)
      | inr (given_profiles, named) ↦ elim (Option-cases c.expected_revisions) [
        | inl absent ↦ ground (arith, e3, named, absent)
        | inr (given_revisions, counted) ↦
            let (profiles, revisions, checked, numbered, covered, same) =
              set_compared_runs c given_profiles given_revisions h {new = new}
                (ground (arith, e3, named, counted)) in
            (
              profiles,
              revisions,
              (given_profiles, given_revisions, named, counted, checked, numbered),
              covered,
              first ∙ second ∙ third ∙ ground (arith, named, counted) ∙ same,
            )
      ]
    ]

IsAtomic-set_compared :
    (c : Comparison) (profiles : Option (List (Entry String)))
    → (revisions : Option (List (Entry (Option ℕ))))
    → IsAtomic (with_mappings profiles revisions (set_compared c))
unfolding set_compared set_covered
IsAtomic-set_compared c none revisions = IsAtomic-raise "repository.invalid_profile_state"
IsAtomic-set_compared c (some profiles) none = IsAtomic-raise "repository.invalid_profile_state"
IsAtomic-set_compared c (some profiles) (some revisions) = search atomic_rules depth 20

IsAtomic-compare_and_set_profile_mapping :
    (c : Comparison) → IsAtomic (compare_and_set_profile_mapping c)
unfolding compare_and_set_profile_mapping
IsAtomic-compare_and_set_profile_mapping c = search (atomic_rules, IsAtomic-set_compared) depth 20

written_runs :
    (c : Comparison) (h : Hub) {new : MappingRow}
    → (compare_and_set_profile_mapping c h).0 ≡ ok new
    → (profiles : List (Entry String)) × (revisions : List (Entry ℕ)) × (expected : ℕ)
      × (settings_json at : String) × IsGiven c profiles revisions
      × (has_role profiles c.role_key ≡ true)
      × (c.settings ≡ some settings_json)
      × (lookup c.role_key revisions ≡ some expected)
      × (current_revision profile_mappings (select profile_mappings c.project_id c.role_key h)
          ≡ expected)
      × All (IsExpected c.project_id revisions h) profiles
      × (compare_and_set_profile_mapping c h
          ≡ write_revisioned profile_mappings c.project_id c.role_key
              (record { profile_name = c.profile_name; settings_json = settings_json })
              expected
              at
              (select profile_mappings c.project_id c.role_key h)
              h)
written_runs c h e =
    let (profiles, revisions, given, covered, first) = call_runs c h e in
    let e1 = rw first at e in
    let (settings_json, at, stored, second) = set_covered_runs c profiles revisions h e1 in
    let e2 = rw second at e1 in
    let profile : Profile = record {
      profile_name = c.profile_name;
      settings_json = settings_json;
    } in
    let (expected, found, fresh, every, third) =
      compare_and_set_runs c.project_id c.role_key profile profiles revisions at h covered e2 in
    (
      profiles,
      revisions,
      expected,
      settings_json,
      at,
      given,
      covered,
      stored,
      found,
      fresh,
      every,
      first ∙ second ∙ third,
    )

-- A call that returns: every role of the expected state had its mapping in that state, and the target
-- is one of them; the mapping of the target is then the row that is returned, with the profile name and
-- the settings of the call and the revision after the expected one.
pub compare_and_set_profile_mapping_effect :
    (c : Comparison) (h : Hub) {new : MappingRow}
    → (compare_and_set_profile_mapping c h).0 ≡ ok new
    → (profiles : List (Entry String)) × (revisions : List (Entry ℕ)) × (expected : ℕ) × IsGiven c
        profiles revisions
      × All (IsExpected c.project_id revisions h) profiles
      × (has_role profiles c.role_key ≡ true)
      × (lookup c.role_key revisions ≡ some expected)
      × (select profile_mappings c.project_id c.role_key (compare_and_set_profile_mapping c h).1
          ≡ some new)
      × (new.revision ≡ expected + 1)
      × (new.profile_name ≡ c.profile_name)
      × (c.settings ≡ some new.settings_json)
compare_and_set_profile_mapping_effect c h e =
    let (
      profiles, revisions, expected, settings_json, at, given, covered, stored, known, fresh, every,
      same,
    ) =
      written_runs c h e in
    let (found, next, values) =
      IsWritten-write_revisioned profile_mappings profile_of IsRevisioned-profile_mappings
        c.project_id c.role_key
        (record { profile_name = c.profile_name; settings_json = settings_json }) expected at
        (select profile_mappings c.project_id c.role_key h) h refl fresh (rw (sym same) e) in
    (
      profiles,
      revisions,
      expected,
      given,
      every,
      covered,
      known,
      rw same found,
      next,
      ap (λ profile. profile.profile_name) values,
      stored ∙ ap (λ profile. some profile.settings_json) (sym values),
    )

-- A call that returns leaves the mapping of every other role, and of every role of another project, as
-- it was.
pub compare_and_set_profile_mapping_frame :
    (c : Comparison) (h : Hub) (project_id role_key : String) {new : MappingRow}
    → (compare_and_set_profile_mapping c h).0 ≡ ok new
    → (c.project_id == project_id && c.role_key == role_key) ≡ false
    → select profile_mappings project_id role_key (compare_and_set_profile_mapping c h).1
      ≡ select profile_mappings project_id role_key h
compare_and_set_profile_mapping_frame c h project_id role_key e apart =
    let (
      profiles, revisions, expected, settings_json, at, given, covered, stored, known, fresh, every,
      same,
    ) =
      written_runs c h e in
    ap (λ result. select profile_mappings project_id role_key result.1) same
    ∙ write_revisioned_frame profile_mappings profile_of IsRevisioned-profile_mappings c.project_id
        c.role_key (record { profile_name = c.profile_name; settings_json = settings_json })
        expected at (select profile_mappings c.project_id c.role_key h) h project_id role_key apart

-- Calls that give the same expected state have it checked to the same one.
IsGiven-same :
    (c d : Comparison)
    → {profiles profiles' : List (Entry String)} → {revisions revisions' : List (Entry ℕ)}
    → IsGiven c profiles revisions
    → IsGiven d profiles' revisions'
    → d.expected_profiles ≡ c.expected_profiles
    → d.expected_revisions ≡ c.expected_revisions
    → (profiles' ≡ profiles) × (revisions' ≡ revisions)
IsGiven-same c d (ps, rs, named, counted, checked, numbered)
      (ps', rs', named', counted', checked', numbered') same_profiles same_revisions =
    (cc, cc)

-- Once a call returned, every other one for the same project that expects the same profiles and
-- revisions raises and changes nothing, whichever of the roles it would set.
pub second_comparison_refused :
    (c d : Comparison) (h : Hub) {new : MappingRow}
    → (compare_and_set_profile_mapping c h).0 ≡ ok new
    → d.project_id ≡ c.project_id
    → d.expected_profiles ≡ c.expected_profiles
    → d.expected_revisions ≡ c.expected_revisions
    → (x : String) × (compare_and_set_profile_mapping d (compare_and_set_profile_mapping c h).1
        ≡ (err x, (compare_and_set_profile_mapping c h).1))
second_comparison_refused c d h {new = new} e same_project same_profiles same_revisions =
    let h' = (compare_and_set_profile_mapping c h).1 in
    elim (outcomes (compare_and_set_profile_mapping d) h'
      (IsAtomic-compare_and_set_profile_mapping d)) [
        | inr failed ↦ failed
        | inl (_, passed) ↦
            let (profiles, revisions, expected, given, _, covered, known, found, next, _, _) =
              compare_and_set_profile_mapping_effect c h e in
            let (profiles', revisions', _, given', every, _, _, _, _, _, _) =
              compare_and_set_profile_mapping_effect d h' passed in
            let (named, counted) = IsGiven-same c d given given' same_profiles same_revisions in
            let now =
              expected_role d.project_id c.role_key revisions' profiles' h' every
                (rw named covered) in
            let there : select profile_mappings d.project_id c.role_key h' ≡ some new =
              rw same_project found in
            ground (arith, known, now, counted, there, next)
      ]
