-- ===== src/Diagnostics/Store/Leases/Acquiring.antt =====
-- The acquisitions of src/model_forge/diagnostics/store.py under a lease.
use model_forge.Prelude.{
  ℕ, ◌<◌, String, ◌==◌, true, false, not, ◌&&◌, ◌||◌, ◌≡◌, refl, ap, sym, ◌∙◌, inl, inr, Bool-cases,
  some, err, ltb, any, arith, eq_iff,
}
use model_forge.Storage.Database.{gets, immediate_transaction}
use model_forge.Storage.Database.Stays.{
  Stays, Stays-bind, Stays-gets, Stays-raise, Stays-if, Stays-on_row, Stays-transaction,
}
use model_forge.Storage.Schema.Tables.{find?-test, find?-any}
use model_forge.Diagnostics.Store.{LockRow, Lane, select_lock, has_invocation}
use model_forge.Diagnostics.Store.Locks.{
  Acquisition, lock_held, new_lock, overwrite_lock, insert_lock, take_lock, acquire_profile_lock,
}
use model_forge.Diagnostics.Store.Rows.{any-update, all-update_frame, all-find?}
use model_forge.Diagnostics.Store.Calls.{Call}
use model_forge.Diagnostics.Store.Leases.{is_ours, IsHeld, respects_lease}

module _ (profile holder : String) (expiry : ℕ) where
  -- The row that a look-up finds.
  pub held_row :
      (lane : Lane)
      → IsHeld profile holder expiry lane
      → (row : LockRow) × (select_lock profile lane ≡ some row)
        × (row.invocation_id ≡ holder)
        × (row.lease_expires_at ≡ expiry)
  held_row lane (there, ours) =
      let (row, found) = find?-any (λ r. r.profile_name == profile) lane.locks there in
      let named = find?-test (λ r. r.profile_name == profile) lane.locks row found in
      let kept =
        all-find? (λ r. r.profile_name == profile) (is_ours profile holder expiry) lane.locks row
          ours found in
      (
        row,
        found,
        (eq_iff row.invocation_id holder).0 (ground (arith, named, kept)),
        ground (arith, named, kept),
      )

  Stays-overwrite_lock :
      (a : Acquisition)
      → (a.profile_name == profile) ≡ false
      → Stays (IsHeld profile holder expiry) (overwrite_lock a)
  unfolding overwrite_lock
  Stays-overwrite_lock a apart = record {
    after = λ lane (there, ours). elim (Bool-cases (has_invocation lane a.invocation_id)) [
      | inr unmet ↦ rw unmet (there, ours)
      | inl met ↦ rw met (
        any-update (λ row. row.profile_name == a.profile_name) (λ row. row.profile_name == profile)
            _ lane.locks (λ row. refl) there,
        all-update_frame (λ row. row.profile_name == a.profile_name) (is_ours profile holder expiry)
            _ lane.locks
            (λ row hit. ground (
              arith,
              ap (λ k. k == profile) ((eq_iff row.profile_name a.profile_name).0 hit) ∙ apart,
            ))
            ours,
      )
    ];
  }

  Stays-insert_lock :
      (a : Acquisition)
      → (a.profile_name == profile) ≡ false
      → Stays (IsHeld profile holder expiry) (insert_lock (new_lock a))
  unfolding insert_lock
  Stays-insert_lock a apart = record {
    after = λ lane (there, ours).
        elim (Bool-cases (
          any (λ row. row.profile_name == a.profile_name) lane.locks
          || not (has_invocation lane a.invocation_id))) [
            | inl unmet ↦ rw unmet (there, ours)
            | inr met ↦ rw met (ground (arith, there, apart), ground (arith, ours, apart))
          ];
  }

  Stays-take_lock :
      (a : Acquisition)
      → (a.profile_name == profile) ≡ false
      → Stays (IsHeld profile holder expiry) (take_lock a)
  unfolding take_lock
  Stays-take_lock a apart = Stays-bind (gets (select_lock a.profile_name)) _ (Stays-gets _) (λ row.
      Stays-on_row row _ _
        (λ held.
          Stays-if (ltb a.now held.lease_expires_at && not (held.invocation_id == a.invocation_id))
            _ _ (Stays-raise lock_held) (Stays-overwrite_lock a apart))
        (Stays-insert_lock a apart))

  -- The holder's row is not another's.
  pub differs :
      (row : LockRow) (key : String)
      → row.invocation_id ≡ holder
      → (key == holder) ≡ false
      → (row.invocation_id == key) ≡ false
  differs row key named other = elim (Bool-cases (row.invocation_id == key)) [
    | inr apart ↦ apart
    | inl hit ↦
        cc (other, (eq_iff key holder).1 (sym ((eq_iff row.invocation_id key).0 hit) ∙ named))
  ]

  -- Another that asks for the profile before the expiry is turned away.
  pub turned_away :
      (a : Acquisition) (lane : Lane)
      → a.profile_name ≡ profile
      → (a.invocation_id == holder) ≡ false
      → a.now < expiry
      → IsHeld profile holder expiry lane
      → acquire_profile_lock a lane ≡ (err lock_held, lane)
  unfolding acquire_profile_lock take_lock immediate_transaction
  turned_away a lane same other early held =
      let (row, found, named, until) = held_row lane held in
      let read : select_lock a.profile_name lane ≡ some row = rw same found in
      let differ : (row.invocation_id == a.invocation_id) ≡ false =
        differs row a.invocation_id named other in
      let soon : ltb a.now row.lease_expires_at ≡ true = ground (arith, early, until) in
      rw (read, soon, differ) refl

  pub acquired_by_another :
      (a : Acquisition) (lane : Lane)
      → respects_lease profile holder expiry (Call.acquire a) ≡ true
      → IsHeld profile holder expiry lane
      → IsHeld profile holder expiry (acquire_profile_lock a lane).1
  unfolding acquire_profile_lock
  acquired_by_another a lane e held = elim (Bool-cases (a.profile_name == profile)) [
    | inr apart ↦ (Stays-transaction (take_lock a) (Stays-take_lock a apart)).after lane held
    | inl same ↦
        rw
          (turned_away a lane ((eq_iff a.profile_name profile).0 same) (ground (arith, e, same))
            (ground (arith, e, same)) held)
          held
  ]
