-- ===== src/Storage/Settings/Mapping.antt =====
-- `HubRepository.compare_and_set_profile_mapping` of src/model_forge/storage/repository.py.
use model_forge.Prelude.{
  ℕ, String, ◌==◌, Bool, true, not, ◌&&◌, Option, none, some, List, [], ◌∷◌, nat_eq, any, all,
  Result, ok, bind, if◌then◌else◌,
}
use model_forge.Storage.Text.{Payload, Timestamp, text, json, time}
use model_forge.Storage.Database.{
  Tx, pure, raise, lift, gets, or_raise, immediate_transaction, ◌>>=◌, ◌>>◌,
}
use model_forge.Storage.Schema.Rows.{Hub, MappingRow}
use model_forge.Storage.Commands.{require_project}
use model_forge.Storage.Settings.{nonnegative, select, current_revision, write_revisioned}
use model_forge.Storage.Settings.Tables.{Profile, profile_mappings}

-- An item of a mapping from roles.
pub record Entry (Value : Type 0) : Type 0 where
  pub role : String
  pub value : Value

module _ {Given Value : Type 0} where
  -- A dict made of the items of a mapping, with a check of each role and each value.
  unfoldable pub checked_entries :
      (Given → Result Value) → List (Entry Given) → Result (List (Entry Value))
  checked_entries check [] = ok []
  checked_entries check (entry ∷ entries) =
      let rest = checked_entries check entries in
      bind (text entry.role) (λ role.
        bind (check entry.value)
          (λ value. bind rest (λ more. ok (record { role = role; value = value } ∷ more))))

module _ {Value : Type 0} where
  abbrev pub has_role : List (Entry Value) → String → Bool
  has_role entries role = any (λ entry. entry.role == role) entries

  abbrev pub lookup : String → List (Entry Value) → Option Value
  lookup role [] = none
  lookup role (entry ∷ entries) =
      if entry.role == role then some entry.value else lookup role entries

  abbrev pub is_nonempty : List (Entry Value) → Bool
  is_nonempty [] = Bool.false
  is_nonempty (entry ∷ entries) = true

-- `not profiles or set(profiles) != set(revisions) or role_key not in profiles`, negated
unfoldable pub covers : (role_key : String) → List (Entry String) → List (Entry ℕ) → Bool
covers role_key profiles revisions =
    is_nonempty profiles
    && (all (λ entry. has_role revisions entry.role) profiles
        && all (λ entry. has_role profiles entry.role) revisions)
    && has_role profiles role_key

abbrev pub state_conflict : String
state_conflict = "repository.profile_mapping_state_conflict"

-- `str(row["profile_name"]) != profiles[expected_role]`, where there is a row
abbrev pub other_profile : Option MappingRow → String → Bool
other_profile none profile = Bool.false
other_profile (some row) profile = not (row.profile_name == profile)

-- One round of the loop over the expected profiles.
unfoldable pub compare_role :
    (project_id : String) → List (Entry ℕ) → Entry String → Tx Hub (Unit {0})
compare_role project_id revisions entry = do
  row ← gets (select profile_mappings project_id entry.role)
  expected ← or_raise "KeyError" (lookup entry.role revisions)
  if not (nat_eq (current_revision profile_mappings row) expected)
      then raise state_conflict
      else if other_profile row entry.value
      then raise state_conflict
      else pure tt

unfoldable pub compare_roles :
    (project_id : String) → List (Entry ℕ) → List (Entry String) → Tx Hub (Unit {0})
compare_roles project_id revisions [] = pure tt
compare_roles project_id revisions (entry ∷ entries) = do
  compare_role project_id revisions entry
  compare_roles project_id revisions entries

-- The body of the transaction.
unfoldable pub compare_and_set :
    (project_id role_key : String)
    → Profile
    → (profiles : List (Entry String)) → (revisions : List (Entry ℕ)) → (at : String)
    → Tx Hub MappingRow
compare_and_set project_id role_key profile profiles revisions at = do
  require_project project_id
  compare_roles project_id revisions profiles
  target ← gets (select profile_mappings project_id role_key)
  expected ← or_raise "KeyError" (lookup role_key revisions)
  write_revisioned profile_mappings project_id role_key profile expected at target

-- The arguments; an expected mapping is `none` where it is not a `Mapping`.
pub record Comparison : Type 0 where
  pub project_id : String
  pub role_key : String
  pub profile_name : String
  pub settings : Payload
  pub expected_profiles : Option (List (Entry String))
  pub expected_revisions : Option (List (Entry (Option ℕ)))
  pub updated_at : Timestamp

-- The end of the method, with the expected state as it was checked.
unfoldable pub set_covered : Comparison → List (Entry String) → List (Entry ℕ) → Tx Hub MappingRow
set_covered c profiles revisions = do
  settings_json ← lift (json c.settings)
  at ← lift (time c.updated_at)
  immediate_transaction (
      compare_and_set c.project_id c.role_key
        (record { profile_name = c.profile_name; settings_json = settings_json }) profiles revisions
        at)

-- What is done with the arguments once the expected state is known to be two mappings.
unfoldable pub set_compared :
    Comparison → List (Entry String) → List (Entry (Option ℕ)) → Tx Hub MappingRow
set_compared c expected_profiles expected_revisions = do
  profiles ← lift (checked_entries text expected_profiles)
  revisions ← lift (checked_entries nonnegative expected_revisions)
  if not (covers c.role_key profiles revisions)
      then raise "repository.invalid_profile_state"
      else set_covered c profiles revisions

abbrev pub with_mappings : {A B C : Type 0} → Option A → Option B → (A → B → Tx Hub C) → Tx Hub C
with_mappings (some a) (some b) body = body a b
with_mappings _ _ body = raise "repository.invalid_profile_state"

unfoldable pub compare_and_set_profile_mapping : Comparison → Tx Hub MappingRow
compare_and_set_profile_mapping c = do
  lift (text c.project_id)
  lift (text c.role_key)
  lift (text c.profile_name)
  with_mappings c.expected_profiles c.expected_revisions (set_compared c)
