-- ===== src/Diagnostics/Store/Statuses/Steps.antt =====
-- Each operation moves the status along a valid transition, or leaves it.
use model_forge.Prelude.{
  ℕ, String, ◌==◌, ◌||◌, ◌≡◌, refl, ap, sym, ◌∙◌, inl, inr, Bool-cases, Option-cases, Option, some,
  ok, any, arith, eq_iff,
}
use model_forge.Storage.Database.{lift, ◌>>◌}
use model_forge.Storage.Database.Stays.{
  Stays, Stays-bind, Stays-lift, stays_rules, after_check, after_passed_check,
}
use model_forge.Storage.Text.{Payload}
use model_forge.Storage.Schema.Tables.{find?-test, find?-update_hit, find?-update_miss}
use model_forge.Diagnostics.States.{DiagnosticState, is_valid_transition, state_of}
use model_forge.Diagnostics.States.Termination.{same_state-eq}
use model_forge.Diagnostics.Store.{InvocationRow, Lane, get_invocation}
use model_forge.Diagnostics.Store.Invocations.{
  Creation, StatusUpdate, insert_invocation, add_invocation, create_invocation, check_transition,
  with_status, with_identity, with_memory, with_evidence, update_invocation, update_status,
  update_process_identity, guard_token, record_memory_state, record_evidence, dumps, dumps_given,
}
use model_forge.Diagnostics.Store.Rows.{unused_key}
use model_forge.Diagnostics.Store.Statuses.{Fits, HasStatus}

module _ (key : String) (Q : DiagnosticState → Type 0) where
  Stays-insert_invocation : (new : InvocationRow) → Stays (HasStatus key Q) (insert_invocation new)
  unfolding insert_invocation
  Stays-insert_invocation new = record {
    after = λ lane (row, found, fits).
        elim (Bool-cases (
          any
            (λ r. r.invocation_id == new.invocation_id || r.idempotency_key == new.idempotency_key)
            lane.invocations)) [
              | inl used ↦ (row, ground (arith, used, found), fits)
              | inr unused ↦ (
                row,
                ground (
                  arith,
                  unused,
                  found,
                  unused_key (λ r. r.invocation_id)
                      (λ r.
                        r.invocation_id == new.invocation_id
                        || r.idempotency_key == new.idempotency_key)
                      new.invocation_id key lane.invocations row (λ r hit. ground (arith, hit))
                      unused found,
                ),
                fits,
              )
            ];
  }

  -- An update of one invocation, where its status has the property after the change.
  updated :
      (other : String) (change : InvocationRow → InvocationRow) (lane : Lane)
      → ((row : InvocationRow) → (change row).invocation_id ≡ row.invocation_id)
      → ((row : InvocationRow)
          → get_invocation key lane ≡ some row
          → other ≡ key
          → Q row.status
          → Q (change row).status)
      → HasStatus key Q lane
      → HasStatus key Q (update_invocation other change lane).1
  unfolding update_invocation
  updated other change lane keeps next (row, found, fits) = elim (Bool-cases (other == key)) [
    | inl same ↦ (
      change row,
      find?-update_hit (λ r. r.invocation_id == key) (λ r. r.invocation_id == other) change
          lane.invocations row (λ r. ap (λ k. k == key) (keeps r)) found
          ((eq_iff row.invocation_id other).1 (
            (eq_iff row.invocation_id key).0
              (find?-test (λ r. r.invocation_id == key) lane.invocations row found)
            ∙ sym ((eq_iff other key).0 same))),
      next row found ((eq_iff other key).0 same) fits,
    )
    | inr apart ↦ (
      row,
      rw
          (find?-update_miss (λ r. r.invocation_id == key) (λ r. r.invocation_id == other) change
            lane.invocations (λ r. ap (λ k. k == key) (keeps r))
            (λ r hit. ap (λ k. k == key) ((eq_iff r.invocation_id other).0 hit) ∙ apart))
          found,
      fits,
    )
  ]

  -- The other updates leave the status as it is.
  untouched :
      (other : String) (change : InvocationRow → InvocationRow)
      → ((row : InvocationRow) → (change row).invocation_id ≡ row.invocation_id)
      → ((row : InvocationRow) → (change row).status ≡ row.status)
      → Stays (HasStatus key Q) (update_invocation other change)
  untouched other change keeps same = record {
    after =
        λ lane moved. updated other change lane keeps (λ row _ _ fits. rw (same row) fits) moved;
  }

  pub created : (c : Creation) (seen : Lane) → Stays (HasStatus key Q) (create_invocation c seen)
  unfolding create_invocation add_invocation
  created c seen = search (stays_rules, Stays-insert_invocation) depth 40

  pub identified :
      (other : String) (identity : Payload) (expected : Option ℕ) (now : ℕ) (guarded : Lane)
      → Stays (HasStatus key Q) (update_process_identity other identity expected now guarded)
  unfolding update_process_identity
  identified other identity expected now guarded =
      Stays-bind (lift (guard_token other expected guarded)) _ (Stays-lift _) (λ _.
        Stays-bind (lift (dumps identity)) _ (Stays-lift _)
          (λ text. untouched other (with_identity text now) (λ row. refl) (λ row. refl)))

  pub remembered :
      (other : String) (before later : Option Payload) (now : ℕ)
      → Stays (HasStatus key Q) (record_memory_state other before later now)
  unfolding record_memory_state
  remembered other before later now = Stays-bind (lift (dumps_given before)) _ (Stays-lift _) (λ b.
      Stays-bind (lift (dumps_given later)) _ (Stays-lift _)
        (λ a. untouched other (with_memory b a now) (λ row. refl) (λ row. refl)))

  pub evidenced :
      (other : String) (evidence : Payload) (now : ℕ)
      → Stays (HasStatus key Q) (record_evidence other evidence now)
  unfolding record_evidence
  evidenced other evidence now =
      Stays-bind (lift (dumps evidence)) _ (Stays-lift _)
        (λ text. untouched other (with_evidence text now) (λ row. refl) (λ row. refl))

-- What the check of a transition lets through.
pub checked :
    (current : InvocationRow) (status : DiagnosticState)
    → check_transition (some current) status ≡ ok tt
    → Fits current.status status
unfolding check_transition
checked current status e = elim (Bool-cases (is_valid_transition current.status status)) [
  | inl valid ↦ inr valid
  | inr invalid ↦ inl (sym (same_state-eq current.status status (ground (arith, e, invalid))))
]

-- A status that passed the check is written.
changed :
    (key : String) (Q : DiagnosticState → Type 0) (u : StatusUpdate) (lane : Lane)
    (status : DiagnosticState)
    → ((row : InvocationRow)
        → get_invocation key lane ≡ some row
        → Q row.status
        → check_transition (some row) status ≡ ok tt
        → Q status)
    → HasStatus key Q lane
    → HasStatus key Q
        ((lift (guard_token u.invocation_id u.expected_token lane)
            >> (lift (check_transition (get_invocation u.invocation_id lane) status)
                >> update_invocation u.invocation_id (with_status u status)))
          lane).1
changed key Q u lane status next start =
    after_check (HasStatus key Q) (guard_token u.invocation_id u.expected_token lane) _ lane start
      (λ _.
        after_passed_check (HasStatus key Q)
          (check_transition (get_invocation u.invocation_id lane) status) _ lane start
          (λ _ passed.
            updated key Q u.invocation_id (with_status u status) lane (λ r. refl)
              (λ r found same here. next r found here (rw (same, found) at passed)) start))

pub status_keeps :
    (key : String) (Q : DiagnosticState → Type 0) (u : StatusUpdate) (lane : Lane)
    → ((row : InvocationRow) (status : DiagnosticState)
        → state_of u.status ≡ some status
        → get_invocation key lane ≡ some row
        → Q row.status
        → check_transition (some row) status ≡ ok tt
        → Q status)
    → HasStatus key Q lane
    → HasStatus key Q (update_status u lane lane lane).1
unfolding update_status
status_keeps key Q u lane next start = elim (Option-cases (state_of u.status)) [
  | inl unknown ↦ rw unknown start
  | inr (status, known) ↦
      rw known (changed key Q u lane status (λ row. next row status known) start)
]

pub status_moves :
    (key : String) (u : StatusUpdate) (lane : Lane) (row : InvocationRow)
    → get_invocation key lane ≡ some row
    → HasStatus key (Fits row.status) (update_status u lane lane lane).1
status_moves key u lane row found =
    status_keeps key (Fits row.status) u lane
      (λ r status _ found' _ passed.
        let same : r ≡ row = cc (found, found') in checked row status (rw same at passed))
      (row, found, inl refl)
