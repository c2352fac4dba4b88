-- ===== src/Diagnostics/Store/Locks.antt =====
-- The mutex of profiles in `DiagnosticStore` of src/model_forge/diagnostics/store.py.
use model_forge.Prelude.{
  ℕ, ◌+◌, String, ◌==◌, Bool, not, ◌&&◌, ◌||◌, Option, none, some, List, [], ◌∷◌, ltb, leb, nat_eq,
  any, ok, err, if◌then◌else◌,
}
use model_forge.Storage.Database.{
  Tx, pure, raise, gets, or_raise, on_row, immediate_transaction, ◌>>=◌, ◌>>◌,
}
use model_forge.Storage.Schema.Rows.{update, integrity_error}
use model_forge.Diagnostics.Store.{LockRow, Lane, select_lock, has_invocation, delete, seconds}

abbrev pub lock_held : String
lock_held = "ProfileLockHeld"

-- The arguments of `acquire_profile_lock`.
pub record Acquisition : Type 0 where
  pub profile_name : String
  pub invocation_id : String
  pub token : ℕ
  pub lease_seconds : ℕ
  pub now : ℕ

abbrev pub new_lock : Acquisition → LockRow
new_lock a = record {
  profile_name = a.profile_name;
  invocation_id = a.invocation_id;
  token = a.token;
  acquired_at = a.now;
  lease_expires_at = a.now + seconds a.lease_seconds;
}

-- The `UPDATE` and the `INSERT`, with the foreign key.
unfoldable pub overwrite_lock : Acquisition → Tx Lane (Unit {0})
overwrite_lock a lane =
    if has_invocation lane a.invocation_id
    then (
      ok tt,
      record lane {
        locks =
            update (λ row. row.profile_name == a.profile_name)
              (λ row. record row {
                invocation_id = a.invocation_id;
                token = a.token;
                acquired_at = a.now;
                lease_expires_at = a.now + seconds a.lease_seconds;
              })
              lane.locks;
      },
    )
    else (err integrity_error, lane)

unfoldable pub insert_lock : LockRow → Tx Lane (Unit {0})
insert_lock new lane =
    if any (λ row. row.profile_name == new.profile_name) lane.locks
      || not (has_invocation lane new.invocation_id)
    then (err integrity_error, lane)
    else (ok tt, record lane { locks = new ∷ lane.locks })

-- The body of the transaction.
unfoldable pub take_lock : Acquisition → Tx Lane (Unit {0})
take_lock a = do
  row ← gets (select_lock a.profile_name)
  on_row row
      (λ held.
        if ltb a.now held.lease_expires_at && not (held.invocation_id == a.invocation_id)
        then raise lock_held
        else overwrite_lock a)
      (insert_lock (new_lock a))

unfoldable pub acquire_profile_lock : Acquisition → Tx Lane (Unit {0})
acquire_profile_lock a = immediate_transaction (take_lock a)

-- Which row a release deletes.
abbrev pub is_released :
    (profile_name : String) → (expected_invocation_id : Option String) → Option ℕ → LockRow → Bool
is_released profile_name (some invocation_id) (some token) row =
    row.profile_name == profile_name && row.invocation_id == invocation_id && nat_eq row.token token
is_released profile_name _ _ row = row.profile_name == profile_name

unfoldable pub release_profile_lock :
    (profile_name : String)
    → (expected_invocation_id : Option String) → (expected_token : Option ℕ) → Tx Lane (Unit {0})
release_profile_lock profile_name expected_invocation_id expected_token lane = (
  ok tt,
  record lane {
    locks = delete (is_released profile_name expected_invocation_id expected_token) lane.locks;
  },
)

unfoldable pub profile_is_locked : (profile_name : String) → (now : ℕ) → Lane → Option String
profile_is_locked profile_name now lane = elim (select_lock profile_name lane) [
  | none ↦ none
  | some row ↦ if leb row.lease_expires_at now then none else some row.invocation_id
]

-- The loop of `reconcile_locks` over the rows that it selected.
unfoldable pub free_expired : (now : ℕ) → List LockRow → Tx Lane (List String)
free_expired now [] = pure []
free_expired now (row ∷ rows) =
    if leb row.lease_expires_at now
    then (do
      release_profile_lock row.profile_name none none
      freed ← free_expired now rows
      pure (row.profile_name ∷ freed))
    else free_expired now rows

unfoldable pub reconcile_locks : (now : ℕ) → Tx Lane (List String)
reconcile_locks now = do rows ← gets (λ lane. lane.locks); free_expired now rows

-- The `UPDATE` of `renew_profile_lease`.
unfoldable pub set_lease : (profile_name : String) → (lease_expires_at : ℕ) → Tx Lane (Unit {0})
set_lease profile_name lease_expires_at lane = (
  ok tt,
  record lane {
    locks =
        update (λ lock. lock.profile_name == profile_name)
          (λ lock. record lock { lease_expires_at = lease_expires_at }) lane.locks;
  },
)

-- The body of the transaction of `renew_profile_lease`.
unfoldable pub extend_lease :
    (profile_name invocation_id : String)
    → (expected_token extension_seconds now : ℕ) → Tx Lane (Unit {0})
extend_lease profile_name invocation_id expected_token extension_seconds now = do
  row ← gets (select_lock profile_name)
  held ← or_raise lock_held row
  if not (held.invocation_id == invocation_id) || not (nat_eq held.token expected_token)
      then raise "FencingError"
      else set_lease profile_name (now + seconds extension_seconds)

unfoldable pub renew_profile_lease :
    (profile_name invocation_id : String)
    → (expected_token extension_seconds now : ℕ) → Tx Lane (Unit {0})
renew_profile_lease profile_name invocation_id expected_token extension_seconds now =
    immediate_transaction
      (extend_lease profile_name invocation_id expected_token extension_seconds now)
