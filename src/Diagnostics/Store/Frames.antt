-- ===== src/Diagnostics/Store/Frames.antt =====
-- Calls of the store leave the tables alone that are not theirs.
use model_forge.Prelude.{
  ℕ, String, not, ◌==◌, ◌||◌, Option, none, List, [], ◌∷◌, any, leb, Bool-cases, inl, inr,
}
use model_forge.Storage.Text.{Payload}
use model_forge.Storage.Database.Stays.{
  Stays, Stays-bind, Stays-pure, Stays-if, Stays-write, stays_rules,
}
use model_forge.Storage.Schema.Rows.{update, integrity_error}
use model_forge.Diagnostics.Store.{InvocationRow, TokenRow, LockRow, Lane, has_invocation}
use model_forge.Diagnostics.Store.Invocations.{
  Creation, StatusUpdate, insert_invocation, add_invocation, create_invocation, update_invocation,
  update_status, update_process_identity, record_memory_state, record_evidence,
}
use model_forge.Diagnostics.Store.Fencing.{upsert_token, issue_token, issue_fencing_token}
use model_forge.Diagnostics.Store.Locks.{
  Acquisition, overwrite_lock, insert_lock, take_lock, acquire_profile_lock, release_profile_lock,
  free_expired, reconcile_locks, set_lease, extend_lease, renew_profile_lease,
}

-- What does not depend on the tokens.
module _ {P : Lane → Type 0}
    (free : (lane : Lane) (rows : List TokenRow) → P lane → P (record lane { tokens = rows })) where
  Stays-upsert_token : (new : TokenRow) → Stays P (upsert_token new)
  unfolding upsert_token
  Stays-upsert_token new = record {
    after = λ lane holds.
        elim (Bool-cases (any (λ row. row.invocation_id == new.invocation_id) lane.tokens)) [
          | inl found ↦ rw found (
              free lane (update (λ row. row.invocation_id == new.invocation_id) _ lane.tokens)
                holds)
          | inr absent ↦ rw absent (elim (Bool-cases (has_invocation lane new.invocation_id)) [
            | inl met ↦ rw met (free lane (new ∷ lane.tokens) holds)
            | inr unmet ↦ rw unmet holds
          ])
        ];
  }

  pub Stays-issue_fencing_token :
      (invocation_id holder : String) (lease_seconds now : ℕ)
      → Stays P (issue_fencing_token invocation_id holder lease_seconds now)
  unfolding issue_fencing_token issue_token
  Stays-issue_fencing_token invocation_id holder lease_seconds now =
      search (stays_rules, Stays-upsert_token) depth 40

-- What does not depend on the locks.
module _ {P : Lane → Type 0}
    (free : (lane : Lane) (rows : List LockRow) → P lane → P (record lane { locks = rows })) where
  Stays-overwrite_lock : (a : Acquisition) → Stays P (overwrite_lock a)
  unfolding overwrite_lock
  Stays-overwrite_lock a =
      Stays-write (λ lane. has_invocation lane a.invocation_id) _ _ integrity_error
        (λ lane. free lane _)

  Stays-insert_lock : (new : LockRow) → Stays P (insert_lock new)
  unfolding insert_lock
  Stays-insert_lock new = record {
    after = λ lane holds.
        elim (Bool-cases (
          any (λ row. row.profile_name == new.profile_name) lane.locks
          || not (has_invocation lane new.invocation_id))) [
            | inl unmet ↦ rw unmet holds
            | inr met ↦ rw met (free lane (new ∷ lane.locks) holds)
          ];
  }

  pub Stays-acquire_profile_lock : (a : Acquisition) → Stays P (acquire_profile_lock a)
  unfolding acquire_profile_lock take_lock
  Stays-acquire_profile_lock a =
      search (stays_rules, Stays-overwrite_lock, Stays-insert_lock) depth 40

  pub Stays-release_profile_lock :
      (profile : String) (key : Option String) (token : Option ℕ)
      → Stays P (release_profile_lock profile key token)
  unfolding release_profile_lock
  Stays-release_profile_lock profile key token = record { after = λ lane. free lane _ }

  Stays-free_expired : (now : ℕ) (rows : List LockRow) → Stays P (free_expired now rows)
  unfolding free_expired
  Stays-free_expired now [] = Stays-pure []
  Stays-free_expired now (row ∷ rows) =
      let rest = Stays-free_expired now rows in
      Stays-if (leb row.lease_expires_at now) _ _
        (Stays-bind _ _ (Stays-release_profile_lock row.profile_name none none)
          (λ _. Stays-bind _ _ rest (λ freed. Stays-pure (row.profile_name ∷ freed))))
        rest

  pub Stays-reconcile_locks : (now : ℕ) → Stays P (reconcile_locks now)
  unfolding reconcile_locks
  Stays-reconcile_locks now = search (stays_rules, Stays-free_expired) depth 40

  Stays-set_lease : (profile : String) (expiry : ℕ) → Stays P (set_lease profile expiry)
  unfolding set_lease
  Stays-set_lease profile expiry = record { after = λ lane. free lane _ }

  pub Stays-renew_profile_lease :
      (profile key : String) (token extension now : ℕ)
      → Stays P (renew_profile_lease profile key token extension now)
  unfolding renew_profile_lease extend_lease
  Stays-renew_profile_lease profile key token extension now =
      search (stays_rules, Stays-set_lease) depth 40

-- What does not depend on the invocations.
module _ {P : Lane → Type 0}
    (free : (lane : Lane) (rows : List InvocationRow)
      → P lane
      → P (record lane { invocations = rows })) where
  Stays-insert_invocation : (new : InvocationRow) → Stays P (insert_invocation new)
  unfolding insert_invocation
  Stays-insert_invocation new = record {
    after = λ lane holds.
        elim (Bool-cases (
          any
            (λ row.
              row.invocation_id == new.invocation_id || row.idempotency_key == new.idempotency_key)
            lane.invocations)) [
              | inl unmet ↦ rw unmet holds
              | inr met ↦ rw met (free lane (new ∷ lane.invocations) holds)
            ];
  }

  Stays-update_invocation :
      (key : String) (change : InvocationRow → InvocationRow)
      → Stays P (update_invocation key change)
  unfolding update_invocation
  Stays-update_invocation key change = record { after = λ lane. free lane _ }

  pub Stays-create_invocation : (c : Creation) (seen : Lane) → Stays P (create_invocation c seen)
  unfolding create_invocation add_invocation
  Stays-create_invocation c seen = search (stays_rules, Stays-insert_invocation) depth 40

  pub Stays-update_status :
      (u : StatusUpdate) (guarded read : Lane) → Stays P (update_status u guarded read)
  unfolding update_status
  Stays-update_status u guarded read = search (stays_rules, Stays-update_invocation) depth 40

  pub Stays-update_process_identity :
      (key : String) (identity : Payload) (expected : Option ℕ) (now : ℕ) (guarded : Lane)
      → Stays P (update_process_identity key identity expected now guarded)
  unfolding update_process_identity
  Stays-update_process_identity key identity expected now guarded =
      search (stays_rules, Stays-update_invocation) depth 40

  pub Stays-record_memory_state :
      (key : String) (before later : Option Payload) (now : ℕ)
      → Stays P (record_memory_state key before later now)
  unfolding record_memory_state
  Stays-record_memory_state key before later now =
      search (stays_rules, Stays-update_invocation) depth 40

  pub Stays-record_evidence :
      (key : String) (evidence : Payload) (now : ℕ) → Stays P (record_evidence key evidence now)
  unfolding record_evidence
  Stays-record_evidence key evidence now = search (stays_rules, Stays-update_invocation) depth 40
