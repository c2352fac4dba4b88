-- ===== src/Diagnostics/Store/Restart/Settled.antt =====
-- What a restart does to the status of an invocation.
use mathlib.Core.Path.{subst}
use model_forge.Prelude.{
  ℕ, String, true, false, ◌≡◌, refl, sym, ◌∙◌, ◌⊎◌, inl, inr, some, List, [], ◌∷◌, ok, err,
}
use model_forge.Storage.Database.Stays.{Stays, Stays-bind, Stays-pure, stays_rules}
use model_forge.Diagnostics.States.{
  DiagnosticState, state_value, state_of, is_terminal, allowed_transitions, is_valid_transition,
  same_state,
}
use model_forge.Diagnostics.Store.{InvocationRow, Lane, get_invocation}
use model_forge.Diagnostics.Store.Invocations.{
  check_transition, update_status, guard_token, state_transition_error,
}
use model_forge.Diagnostics.Store.Statuses.{HasStatus}
use model_forge.Diagnostics.Store.Statuses.Steps.{checked, status_keeps}
use model_forge.Diagnostics.Store.Restart.{
  Host, is_running, to_unresolved, mark_unresolved, reconcile_invocation, reconcile_each,
  list_nonterminal_invocations, reconcile_nonterminal_invocations,
}

-- The status that it had, or unresolved if that was terminating.
abbrev IsSettled : DiagnosticState → DiagnosticState → Type 0
IsSettled before status =
    (status ≡ before)
    ⊎ ((before ≡ DiagnosticState.terminating) × (status ≡ DiagnosticState.unresolved))

-- Only a terminating invocation may become unresolved.
from_terminating :
    (state : DiagnosticState)
    → is_valid_transition state DiagnosticState.unresolved ≡ true
    → state ≡ DiagnosticState.terminating
unfolding is_valid_transition is_terminal allowed_transitions same_state state_value
from_terminating DiagnosticState.terminating e = refl
from_terminating DiagnosticState.pending e = cc e
from_terminating _ e = cc e

unresolved_of : state_of "unresolved" ≡ some DiagnosticState.unresolved
unfolding state_of state_value
unresolved_of = refl

module _ (key : String) (before : DiagnosticState) where
  settles :
      (row : InvocationRow)
      → IsSettled before row.status
      → check_transition (some row) DiagnosticState.unresolved ≡ ok tt
      → IsSettled before DiagnosticState.unresolved
  settles row settled passed = elim (checked row DiagnosticState.unresolved passed) [
    | inl same ↦ subst (IsSettled before) (sym same) settled
    | inr valid ↦ elim settled [
      | inl fixed ↦ inr (sym fixed ∙ from_terminating row.status valid, refl)
      | inr (terminating, _) ↦ inr (terminating, refl)
    ]
  ]

  Stays-mark_unresolved :
      (other : String) (now : ℕ)
      → Stays (HasStatus key (IsSettled before)) (mark_unresolved other now)
  unfolding mark_unresolved
  Stays-mark_unresolved other now = record {
    after = λ lane holds.
        status_keeps key (IsSettled before) (to_unresolved other now) lane
          (λ row status known _ settled passed.
            let same : status ≡ DiagnosticState.unresolved = cc (known, unresolved_of) in
            subst (IsSettled before) (sym same) (settles row settled (rw same at passed)))
          holds;
  }

  Stays-reconcile_invocation :
      (host : Host) (clock : String → ℕ) (inv : InvocationRow)
      → Stays (HasStatus key (IsSettled before)) (reconcile_invocation host clock inv)
  unfolding reconcile_invocation
  Stays-reconcile_invocation host clock inv = search (stays_rules, Stays-mark_unresolved) depth 40

  Stays-reconcile_each :
      (host : Host) (clock : String → ℕ) (rows : List InvocationRow)
      → Stays (HasStatus key (IsSettled before)) (reconcile_each host clock rows)
  unfolding reconcile_each
  Stays-reconcile_each host clock [] = Stays-pure []
  Stays-reconcile_each host clock (inv ∷ rest) =
      Stays-bind (reconcile_invocation host clock inv) _ (Stays-reconcile_invocation host clock inv)
        (λ first.
          Stays-bind (reconcile_each host clock rest) _ (Stays-reconcile_each host clock rest)
            (λ others. Stays-pure (first ∷ others)))

-- The reconciliation after a restart, whatever the processes of the host do and whether it returns or
-- raises, leaves every invocation in the database with the status that it had, or with `unresolved`
-- where that was `terminating`.
pub restart_settles :
    (host : Host) (clock : String → ℕ) (key : String) (lane : Lane) (row : InvocationRow)
    → get_invocation key lane ≡ some row
    → (last : InvocationRow) × (get_invocation key
          (reconcile_nonterminal_invocations host clock lane).1
        ≡ some last)
      × ((last.status ≡ row.status)
          ⊎ ((row.status ≡ DiagnosticState.terminating)
              × (last.status ≡ DiagnosticState.unresolved)))
unfolding reconcile_nonterminal_invocations
restart_settles host clock key lane row found =
    (Stays-reconcile_each key row.status host clock (list_nonterminal_invocations lane)).after lane
      (row, found, inl refl)

refused_transition :
    (inv : InvocationRow)
    → same_state inv.status DiagnosticState.unresolved ≡ false
    → is_valid_transition inv.status DiagnosticState.unresolved ≡ false
    → check_transition (some inv) DiagnosticState.unresolved ≡ err state_transition_error
unfolding check_transition
refused_transition inv differs invalid = rw (differs, invalid) refl

-- Where no process of an invocation is found to run and its status cannot become `unresolved`, its round
-- of the reconciliation reports `unresolved` for it all the same, and changes nothing.
pub unresolved_is_reported :
    (host : Host) (clock : String → ℕ) (inv : InvocationRow) (lane : Lane)
    → is_running host inv.external_execution_id ≡ ok false
    → get_invocation inv.invocation_id lane ≡ some inv
    → same_state inv.status DiagnosticState.unresolved ≡ false
    → is_valid_transition inv.status DiagnosticState.unresolved ≡ false
    → reconcile_invocation host clock inv lane
      ≡ (ok (record { invocation = inv; reconciled_status = DiagnosticState.unresolved }), lane)
unfolding reconcile_invocation mark_unresolved update_status guard_token
unresolved_is_reported host clock inv lane gone found differs invalid =
    rw (gone, unresolved_of, found, refused_transition inv differs invalid) refl
