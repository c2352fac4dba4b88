-- ===== src/Storage/Settings/Setting.antt =====
-- What the calls of `set_profile_mapping` and `set_project_setting` do, and which of two calls is
-- refused.
use model_forge.Prelude.{
  ℕ, ◌+◌, ◌≡◌, refl, sym, ap, ◌∙◌, eq_iff, String, Option, none, some, ok, err, inl, inr, arith,
  Result-cases,
}
use model_forge.Storage.Text.{Payload, Timestamp, text, json, time}
use model_forge.Storage.Database.Rules.{transaction_cases}
use model_forge.Storage.Database.Atomic.{IsAtomic, atomic_rules, outcomes}
use model_forge.Storage.Schema.Rows.{Hub, MappingRow, SettingRow}
use model_forge.Storage.Settings.{
  Revisioned, nonnegative, select, current_revision, revise, set_revisioned,
}
use model_forge.Storage.Settings.Revising.{IsRevisioned, IsWritten, revise_effect}
use model_forge.Storage.Settings.Tables.{
  Profile, profile_mappings, project_settings, set_profile_mapping, set_project_setting,
}

module _ {Row Values : Type 0} (T : Revisioned Row Values) (values_of : Row → Values)
    (laws : IsRevisioned T values_of) where
  -- What `_set_revisioned` has done where it returns.
  abbrev pub IsRevisedTo :
      (project_id key : String) → Values → Option ℕ → (old : Hub) → Row → Hub → Type 0
  IsRevisedTo project_id key values expected_revision old new h =
      (expected : ℕ) × (expected_revision ≡ some expected)
      × (current_revision T (select T project_id key old) ≡ expected)
      × IsWritten T values_of laws project_id key values expected new h

  set_revisioned_runs :
      (project_id key : String) (values : Values) (expected_revision : Option ℕ) (at : String)
      (h : Hub)
      → {new : Row} → (set_revisioned T project_id key values expected_revision at h).0 ≡ ok new
      → (expected : ℕ) × (expected_revision ≡ some expected)
        × (set_revisioned T project_id key values expected_revision at h
            ≡ revise T project_id key values expected at h)
  unfolding set_revisioned nonnegative
  set_revisioned_runs project_id key values (some expected) at h e =
      elim (transaction_cases (revise T project_id key values expected at) h) [
        | inl (_, returned, same) ↦ (expected, refl, ground (arith, e, same, returned))
        | inr (_, _, failed) ↦ ground (arith, e, failed)
      ]
  set_revisioned_runs project_id key values none at h e = ground (arith, e)

  IsRevisedTo-set_revisioned :
      (project_id key : String) (values : Values) (expected_revision : Option ℕ) (at : String)
      (h : Hub)
      → {new : Row} → (set_revisioned T project_id key values expected_revision at h).0 ≡ ok new
      → IsRevisedTo project_id key values expected_revision h new
          (set_revisioned T project_id key values expected_revision at h).1
  IsRevisedTo-set_revisioned project_id key values expected_revision at h e =
      let (expected, given, same) =
        set_revisioned_runs project_id key values expected_revision at h e in
      let (fresh, wrote) =
        revise_effect T values_of laws project_id key values expected at h (rw (sym same) e) in
      (expected, given, fresh, rw same wrote)

  -- Once a row is set, no call that expects the revision of before returns.
  not_set_again :
      (project_id key : String) (values values' : Values) (expected_revision : Option ℕ)
      → (old h h' : Hub) {new new' : Row}
      → IsRevisedTo project_id key values expected_revision old new h
      → IsRevisedTo project_id key values' expected_revision h new' h'
      → ⊥
  not_set_again project_id key values values' expected_revision old h h' first second =
      let (expected, given, _, (found, next, _)) = first in
      let (expected', given', fresh, _) = second in
      ground (arith, given, given', found, next, fresh)

-- The tables of the schema keep the laws.
abbrev pub profile_of : MappingRow → Profile
profile_of row = record { profile_name = row.profile_name; settings_json = row.settings_json }

pub IsRevisioned-profile_mappings : IsRevisioned profile_mappings profile_of
IsRevisioned-profile_mappings = record {
  rows-store = λ rows h. refl;
  is_key-row_of = λ project_id key project_id' key' profile revision at. refl;
  is_key-assign = λ project_id key profile revision at row. refl;
  is_key-eq = λ project_id key project_id' key' row e.
      ground (arith, e, (eq_iff row.project_id project_id).0, (eq_iff row.role_key key).0);
  revision-row_of = λ project_id key profile revision at. refl;
  revision-assign = λ profile revision at row. refl;
  values-row_of = λ project_id key profile revision at. refl;
  values-assign = λ profile revision at row. refl;
}

abbrev pub value_json_of : SettingRow → String
value_json_of row = row.value_json

pub IsRevisioned-project_settings : IsRevisioned project_settings value_json_of
IsRevisioned-project_settings = record {
  rows-store = λ rows h. refl;
  is_key-row_of = λ project_id key project_id' key' value revision at. refl;
  is_key-assign = λ project_id key value revision at row. refl;
  is_key-eq = λ project_id key project_id' key' row e.
      ground (arith, e, (eq_iff row.project_id project_id).0, (eq_iff row.setting_key key).0);
  revision-row_of = λ project_id key value revision at. refl;
  revision-assign = λ value revision at row. refl;
  values-row_of = λ project_id key value revision at. refl;
  values-assign = λ value revision at row. refl;
}

set_profile_mapping_runs :
    (project_id role_key profile_name : String) (settings : Payload) (expected_revision : Option ℕ)
    → (updated_at : Timestamp) → (h : Hub) → {new : MappingRow}
    → (set_profile_mapping project_id role_key profile_name settings expected_revision updated_at
        h).0
      ≡ ok new
    → (settings_json at : String) × (settings ≡ some settings_json)
      × (set_profile_mapping project_id role_key profile_name settings expected_revision updated_at
            h
          ≡ set_revisioned profile_mappings project_id role_key
              (record { profile_name = profile_name; settings_json = settings_json })
              expected_revision
              at
              h)
unfolding set_profile_mapping text json
set_profile_mapping_runs project_id role_key profile_name (some settings_json) expected_revision
      updated_at h e =
    elim (Result-cases (time updated_at)) [
      | inl (at, stamped) ↦ (settings_json, at, refl, ground (arith, e, stamped))
      | inr (x, raised) ↦ ground (arith, e, raised)
    ]
set_profile_mapping_runs project_id role_key profile_name none expected_revision updated_at h e =
    ground (arith, e)

set_project_setting_runs :
    (project_id setting_key : String) (value : Payload) (expected_revision : Option ℕ)
    → (updated_at : Timestamp) → (h : Hub) → {new : SettingRow}
    → (set_project_setting project_id setting_key value expected_revision updated_at h).0 ≡ ok new
    → (value_json at : String) × (value ≡ some value_json)
      × (set_project_setting project_id setting_key value expected_revision updated_at h
          ≡ set_revisioned project_settings project_id setting_key value_json expected_revision at
              h)
unfolding set_project_setting json
set_project_setting_runs project_id setting_key (some value_json) expected_revision updated_at h e =
    elim (Result-cases (time updated_at)) [
      | inl (at, stamped) ↦ (value_json, at, refl, ground (arith, e, stamped))
      | inr (x, raised) ↦ ground (arith, e, raised)
    ]
set_project_setting_runs project_id setting_key none expected_revision updated_at h e =
    ground (arith, e)

IsRevisedTo-set_project_setting :
    (project_id setting_key : String) (value : Payload) (expected_revision : Option ℕ)
    → (updated_at : Timestamp) → (h : Hub) → {new : SettingRow}
    → (set_project_setting project_id setting_key value expected_revision updated_at h).0 ≡ ok new
    → (value_json : String) × IsRevisedTo project_settings value_json_of
        IsRevisioned-project_settings project_id setting_key value_json expected_revision h new
        (set_project_setting project_id setting_key value expected_revision updated_at h).1
IsRevisedTo-set_project_setting project_id setting_key value expected_revision updated_at h e =
    let (value_json, at, _, same) =
      set_project_setting_runs project_id setting_key value expected_revision updated_at h e in
    (
      value_json,
      rw same (
          IsRevisedTo-set_revisioned project_settings value_json_of IsRevisioned-project_settings
            project_id setting_key value_json expected_revision at h (rw (sym same) e)),
    )

IsAtomic-set_project_setting :
    (project_id setting_key : String) (value : Payload) (expected_revision : Option ℕ)
    → (updated_at : Timestamp)
    → IsAtomic (set_project_setting project_id setting_key value expected_revision updated_at)
unfolding set_project_setting set_revisioned
IsAtomic-set_project_setting project_id setting_key value expected_revision updated_at =
    search atomic_rules depth 20

-- A call of `set_profile_mapping` that returns: the expected revision was that of the mapping, or zero
-- where there was none; the mapping of the role is then the row that is returned, with the next
-- revision and the profile name and the settings of the call.
set_profile_mapping_effect :
    (project_id role_key profile_name : String) (settings : Payload) (expected_revision : Option ℕ)
    → (updated_at : Timestamp) → (h : Hub) → {new : MappingRow}
    → (set_profile_mapping project_id role_key profile_name settings expected_revision updated_at
        h).0
      ≡ ok new
    → (expected : ℕ) × (expected_revision ≡ some expected)
      × (current_revision profile_mappings (select profile_mappings project_id role_key h)
          ≡ expected)
      × (select profile_mappings project_id role_key
            (set_profile_mapping project_id role_key profile_name settings expected_revision
              updated_at h).1
          ≡ some new)
      × (new.revision ≡ expected + 1)
      × (new.profile_name ≡ profile_name)
      × (settings ≡ some new.settings_json)
set_profile_mapping_effect project_id role_key profile_name settings expected_revision updated_at h
      e =
    let (settings_json, at, given, same) =
      set_profile_mapping_runs project_id role_key profile_name settings expected_revision
        updated_at h e in
    let (expected, asked, fresh, (found, next, values)) =
      IsRevisedTo-set_revisioned profile_mappings profile_of IsRevisioned-profile_mappings
        project_id role_key (record { profile_name = profile_name; settings_json = settings_json })
        expected_revision at h (rw (sym same) e) in
    (
      expected,
      asked,
      fresh,
      rw same found,
      next,
      ap (λ profile. profile.profile_name) values,
      given ∙ ap (λ profile. some profile.settings_json) (sym values),
    )

-- Once a call of `set_project_setting` returned, every call for the same project and key that expects
-- the same revision raises and changes nothing.
pub second_setting_refused :
    (project_id setting_key : String) (value value' : Payload) (expected_revision : Option ℕ)
    → (updated_at updated_at' : Timestamp) → (h : Hub) → {new : SettingRow}
    → (set_project_setting project_id setting_key value expected_revision updated_at h).0 ≡ ok new
    → (x : String) × (set_project_setting project_id setting_key value' expected_revision
          updated_at'
          (set_project_setting project_id setting_key value expected_revision updated_at h).1
        ≡ (
          err x,
          (set_project_setting project_id setting_key value expected_revision updated_at h).1,
        ))
second_setting_refused project_id setting_key value value' expected_revision updated_at updated_at'
      h e =
    let h' = (set_project_setting project_id setting_key value expected_revision updated_at h).1 in
    let again = set_project_setting project_id setting_key value' expected_revision updated_at' in
    elim (outcomes again h'
      (IsAtomic-set_project_setting project_id setting_key value' expected_revision updated_at')) [
        | inr failed ↦ failed
        | inl (new', passed) ↦
            elim (not_set_again project_settings value_json_of IsRevisioned-project_settings
              project_id setting_key _ _ expected_revision h h' (again h').1
              (IsRevisedTo-set_project_setting project_id setting_key value expected_revision
                updated_at h e).1
              (IsRevisedTo-set_project_setting project_id setting_key value' expected_revision
                updated_at' h' passed).1) [ ]
      ]
