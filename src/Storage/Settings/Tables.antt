-- ===== src/Storage/Settings/Tables.antt =====
-- `profile_mappings` and `project_settings` as tables with revisions, and the two methods of
-- `HubRepository` that set a row of them: `set_profile_mapping` and `set_project_setting`.
use model_forge.Prelude.{ℕ, String, ◌==◌, ◌&&◌, Option}
use model_forge.Storage.Text.{Payload, Timestamp, text, json, time}
use model_forge.Storage.Database.{Tx, lift, ◌>>=◌}
use model_forge.Storage.Schema.Rows.{Hub, MappingRow, SettingRow}
use model_forge.Storage.Settings.{Revisioned, set_revisioned}

-- The value columns `profile_name` and `settings_json`.
pub record Profile : Type 0 where
  pub profile_name : String
  pub settings_json : String

abbrev pub profile_mappings : Revisioned MappingRow Profile
profile_mappings = record {
  rows = λ h. h.profile_mappings;
  store = λ rows h. record h { profile_mappings = rows };
  is_key = λ project_id role_key row. row.project_id == project_id && row.role_key == role_key;
  revision = λ row. row.revision;
  row_of = λ project_id role_key profile revision at. record {
    project_id = project_id;
    role_key = role_key;
    profile_name = profile.profile_name;
    settings_json = profile.settings_json;
    revision = revision;
    updated_at = at;
  };
  assign = λ profile revision at row. record row {
    profile_name = profile.profile_name;
    settings_json = profile.settings_json;
    revision = revision;
    updated_at = at;
  };
}

abbrev pub project_settings : Revisioned SettingRow String
project_settings = record {
  rows = λ h. h.project_settings;
  store = λ rows h. record h { project_settings = rows };
  is_key =
      λ project_id setting_key row. row.project_id == project_id && row.setting_key == setting_key;
  revision = λ row. row.revision;
  row_of = λ project_id setting_key value_json revision at. record {
    project_id = project_id;
    setting_key = setting_key;
    value_json = value_json;
    revision = revision;
    updated_at = at;
  };
  assign = λ value_json revision at row. record row {
    value_json = value_json;
    revision = revision;
    updated_at = at;
  };
}

unfoldable pub set_profile_mapping :
    (project_id role_key profile_name : String)
    → (settings : Payload) → (expected_revision : Option ℕ) → (updated_at : Timestamp)
    → Tx Hub MappingRow
set_profile_mapping project_id role_key profile_name settings expected_revision updated_at = do
  name ← lift (text profile_name)
  settings_json ← lift (json settings)
  at ← lift (time updated_at)
  set_revisioned profile_mappings project_id role_key
      (record { profile_name = name; settings_json = settings_json }) expected_revision at

unfoldable pub set_project_setting :
    (project_id setting_key : String)
    → (value : Payload) → (expected_revision : Option ℕ) → (updated_at : Timestamp)
    → Tx Hub SettingRow
set_project_setting project_id setting_key value expected_revision updated_at = do
  value_json ← lift (json value)
  at ← lift (time updated_at)
  set_revisioned project_settings project_id setting_key value_json expected_revision at
