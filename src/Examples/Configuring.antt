-- ===== src/Examples/Configuring.antt =====
-- The theorems on settings and profile mappings, at a project with one mapping.
use model_forge.Prelude.{ℕ, ◌+◌, String, ◌≡◌, refl, true, some, List, [], ◌∷◌, All, ok, err}
use model_forge.Storage.Text.{Timestamp, text, json, time, is_nonblank}
use model_forge.Storage.Database.{immediate_transaction}
use model_forge.Storage.Schema.Rows.{Hub, MappingRow, empty_hub, update}
use model_forge.Storage.Schema.Publication.{zero_sha256}
use model_forge.Storage.Settings.{
  nonnegative, select, insert_revisioned, update_revisioned, write_revisioned,
}
use model_forge.Storage.Settings.Tables.{profile_mappings}
use model_forge.Storage.Settings.Mapping.{
  Entry, Comparison, checked_entries, has_role, lookup, covers, compare_role, compare_roles,
  compare_and_set, set_covered, set_compared, compare_and_set_profile_mapping,
}
use model_forge.Storage.Settings.Comparing.{IsExpected}
use model_forge.Storage.Settings.Effective.{
  IsGiven, compare_and_set_profile_mapping_effect, second_comparison_refused,
}

abbrev at : Timestamp
at = Timestamp.stamp "2025-01-01T00:00:00Z"

abbrev analyst : MappingRow
analyst = record {
  project_id = "project-1";
  role_key = "analyst";
  profile_name = "fast";
  settings_json = "{}";
  revision = 1;
  updated_at = "2025-01-01T00:00:00Z";
}

abbrev hub : Hub
hub = record empty_hub {
  projects =
      record {
        project_id = "project-1";
        payload_json = "{}";
        revision = 1;
        authority_sequence = 0;
        authority_root_sha256 = zero_sha256;
        current_revision = 0;
        created_at = "2025-01-01T00:00:00Z";
        updated_at = "2025-01-01T00:00:00Z";
      }
      ∷ [];
  profile_mappings = analyst ∷ [];
}

abbrev reviewer : MappingRow
reviewer = record analyst { role_key = "reviewer"; profile_name = "careful" }

abbrev comparison : (role_key profile_name : String) → Comparison
comparison role_key profile_name = record {
  project_id = "project-1";
  role_key = role_key;
  profile_name = profile_name;
  settings = some "{}";
  expected_profiles = some (
      record { role = "analyst"; value = "fast" }
      ∷ record { role = "reviewer"; value = "default" }
      ∷ []);
  expected_revisions = some (
      record { role = "reviewer"; value = some 0 }
      ∷ record { role = "analyst"; value = some 1 }
      ∷ []);
  updated_at = at;
}

compared : (compare_and_set_profile_mapping (comparison "reviewer" "careful") hub).0 ≡ ok reviewer
unfolding text json time is_nonblank immediate_transaction update nonnegative insert_revisioned
    update_revisioned write_revisioned checked_entries covers compare_role compare_roles
    compare_and_set set_covered set_compared compare_and_set_profile_mapping
compared = refl

compare_and_set_profile_mapping_effect_example :
    (profiles : List (Entry String)) × (revisions : List (Entry ℕ)) × (expected : ℕ) × IsGiven
      (comparison "reviewer" "careful")
      profiles
      revisions
    × All (IsExpected "project-1" revisions hub) profiles
    × (has_role profiles "reviewer" ≡ true)
    × (lookup "reviewer" revisions ≡ some expected)
    × (select profile_mappings "project-1" "reviewer"
          (compare_and_set_profile_mapping (comparison "reviewer" "careful") hub).1
        ≡ some reviewer)
    × (reviewer.revision ≡ expected + 1)
    × (reviewer.profile_name ≡ "careful")
    × (some "{}" ≡ some reviewer.settings_json)
compare_and_set_profile_mapping_effect_example =
    compare_and_set_profile_mapping_effect (comparison "reviewer" "careful") hub compared

second_comparison_refused_example :
    (x : String) × (compare_and_set_profile_mapping
        (comparison "analyst" "slow")
        (compare_and_set_profile_mapping (comparison "reviewer" "careful") hub).1
      ≡ (err x, (compare_and_set_profile_mapping (comparison "reviewer" "careful") hub).1))
second_comparison_refused_example =
    second_comparison_refused (comparison "reviewer" "careful") (comparison "analyst" "slow") hub
      compared refl refl refl
