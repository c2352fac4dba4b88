-- ===== src/Diagnostics/Store/Leases/Releasing.antt =====
-- The releases, reconciliations and renewals of src/model_forge/diagnostics/store.py under a lease.
use model_forge.Prelude.{
  Bool, find?, ℕ, ◌+◌, ◌<◌, String, ◌==◌, true, false, not, ◌||◌, ◌≡◌, refl, ap, ◌∙◌, inl, inr,
  Bool-cases, Option, none, some, err, nat_eq, leb, all, List, [], ◌∷◌, arith, eq_iff,
}
use model_forge.Storage.Database.{gets, or_raise, immediate_transaction}
use model_forge.Storage.Database.Stays.{
  Stays, Stays-bind, Stays-gets, Stays-raise, Stays-if, Stays-pure, Stays-or_raise,
  Stays-transaction,
}
use model_forge.Diagnostics.Store.{LockRow, Lane, select_lock, delete, seconds}
use model_forge.Diagnostics.Store.Locks.{
  lock_held, is_released, release_profile_lock, free_expired, reconcile_locks, set_lease,
  extend_lease, renew_profile_lease, profile_is_locked,
}
use model_forge.Diagnostics.Store.Rows.{any-delete, all-delete, any-update, all-update_frame}
use model_forge.Diagnostics.Store.Calls.{Call}
use model_forge.Diagnostics.Store.Leases.{is_ours, IsHeld, respects_lease}
use model_forge.Diagnostics.Store.Leases.Acquiring.{held_row, differs}

module _ (profile holder : String) (expiry : ℕ) where
  -- A release that respects the lease deletes no row of the profile that is the holder's.
  spared :
      (name : String) (key : Option String) (token : Option ℕ) (row : LockRow)
      → respects_lease profile holder expiry (Call.release name key token) ≡ true
      → is_released name key token row ≡ true
      → is_ours profile holder expiry row ≡ true
      → (row.profile_name == profile) ≡ false
  spared name none token row e hit ours =
      ap (λ k. k == profile) ((eq_iff row.profile_name name).0 hit) ∙ ground (arith, e)
  spared name (some key) none row e hit ours =
      ap (λ k. k == profile) ((eq_iff row.profile_name name).0 hit) ∙ ground (arith, e)
  spared name (some key) (some token) row e hit ours = elim (Bool-cases (name == profile)) [
    | inr apart ↦
        ap (λ k. k == profile) ((eq_iff row.profile_name name).0 (ground (arith, hit))) ∙ apart
    | inl same ↦
        let other : (row.invocation_id == holder) ≡ false =
          ap (λ k. k == holder) ((eq_iff row.invocation_id key).0 (ground (arith, hit)))
          ∙ ground (arith, e, same) in
        ground (arith, ours, other)
  ]

  pub released_by_another :
      (name : String) (key : Option String) (token : Option ℕ)
      → respects_lease profile holder expiry (Call.release name key token) ≡ true
      → Stays (IsHeld profile holder expiry) (release_profile_lock name key token)
  unfolding release_profile_lock
  released_by_another name key token e = record {
    after = λ lane (there, ours). (
      any-delete (is_released name key token) (λ row. row.profile_name == profile)
          (is_ours profile holder expiry) lane.locks (λ row. spared name key token row e) ours
          there,
      all-delete (is_released name key token) (is_ours profile holder expiry) lane.locks ours,
    );
  }

  Stays-free_expired :
      (now : ℕ) (rows : List LockRow)
      → now < expiry
      → all (is_ours profile holder expiry) rows ≡ true
      → Stays (IsHeld profile holder expiry) (free_expired now rows)
  unfolding free_expired
  Stays-free_expired now [] early ours = Stays-pure []
  Stays-free_expired now (row ∷ rows) early ours =
      let rest = Stays-free_expired now rows early (ground (arith, ours)) in
      elim (Bool-cases (leb row.lease_expires_at now)) [
        | inr still ↦ rw still rest
        | inl expired ↦ rw expired (
            Stays-bind (release_profile_lock row.profile_name none none) _
              (released_by_another row.profile_name none none
                (ground (arith, ours, expired, early)))
              (λ _.
                Stays-bind (free_expired now rows) _ rest
                  (λ freed. Stays-pure (row.profile_name ∷ freed))))
      ]

  pub freed_by_another :
      (now : ℕ) (lane : Lane)
      → respects_lease profile holder expiry (Call.free now) ≡ true
      → IsHeld profile holder expiry lane
      → IsHeld profile holder expiry (reconcile_locks now lane).1
  unfolding reconcile_locks
  freed_by_another now lane e held =
      (Stays-free_expired now lane.locks (ground (arith, e)) held.1).after lane held

  Stays-set_lease :
      (name : String) (until : ℕ)
      → (name == profile) ≡ false
      → Stays (IsHeld profile holder expiry) (set_lease name until)
  unfolding set_lease
  Stays-set_lease name until apart = record {
    after = λ lane (there, ours). (
      any-update (λ row. row.profile_name == name) (λ row. row.profile_name == profile) _ lane.locks
          (λ row. refl) there,
      all-update_frame (λ row. row.profile_name == name) (is_ours profile holder expiry) _
          lane.locks
          (λ row hit.
            ground (arith, ap (λ k. k == profile) ((eq_iff row.profile_name name).0 hit) ∙ apart))
          ours,
    );
  }

  -- Another does not renew the lease.
  renewal_is_refused :
      (key : String) (token extension now : ℕ) (lane : Lane)
      → (key == holder) ≡ false
      → IsHeld profile holder expiry lane
      → renew_profile_lease profile key token extension now lane ≡ (err "FencingError", lane)
  unfolding renew_profile_lease extend_lease immediate_transaction
  renewal_is_refused key token extension now lane other held =
      let (row, found, named, until) = held_row profile holder expiry lane held in
      rw (found, differs profile holder expiry row key named other) refl

  pub renewed_by_another :
      (name key : String) (token extension now : ℕ) (lane : Lane)
      → respects_lease profile holder expiry (Call.renew name key token extension now) ≡ true
      → IsHeld profile holder expiry lane
      → IsHeld profile holder expiry (renew_profile_lease name key token extension now lane).1
  unfolding renew_profile_lease extend_lease
  renewed_by_another name key token extension now lane e held =
      elim (Bool-cases (name == profile)) [
        | inr apart ↦
            (Stays-transaction (extend_lease name key token extension now) (
                Stays-bind (gets (select_lock name)) _ (Stays-gets _) (λ row.
                  Stays-bind (or_raise lock_held row) _ (Stays-or_raise lock_held row) (λ found.
                    Stays-if (not (found.invocation_id == key) || not (nat_eq found.token token)) _
                      _ (Stays-raise "FencingError")
                      (Stays-set_lease name (now + seconds extension) apart))))).after
              lane held
        | inl same ↦
            rw
              (
                (eq_iff name profile).0 same,
                renewal_is_refused key token extension now lane (ground (arith, e, same)) held,
              )
              held
      ]

-- A look-up where there is no lock.
unlocked :
    (profile : String) (now : ℕ) (lane : Lane)
    → select_lock profile lane ≡ none
    → profile_is_locked profile now lane ≡ none
unfolding profile_is_locked
unlocked profile now lane absent = ground (arith, absent)

absent_after_delete : (p : LockRow → Bool) (rows : List LockRow) → find? p (delete p rows) ≡ none
unfolding delete
absent_after_delete p [] = refl
absent_after_delete p (row ∷ rows) = ground (arith, absent_after_delete p rows)

-- The unconditional release leaves no lock of the profile.
pub let_go :
    (profile : String) (now : ℕ) (key : Option String) (lane : Lane)
    → profile_is_locked profile now (release_profile_lock profile key none lane).1 ≡ none
unfolding release_profile_lock
let_go profile now none lane =
    unlocked profile now _ (absent_after_delete (λ row. row.profile_name == profile) lane.locks)
let_go profile now (some key) lane =
    unlocked profile now _ (absent_after_delete (λ row. row.profile_name == profile) lane.locks)
