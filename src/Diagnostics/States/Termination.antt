-- ===== src/Diagnostics/States/Termination.antt =====
-- The transitions of an invocation come to an end.
use mathlib.Core.Path.{subst}
use model_forge.Prelude.{
  ℕ, ◌≤◌, ◌<◌, ◌≡◌, refl, All, some, inl, inr, Bool-cases, true, List, [], ◌∷◌, length, any, arith,
  eq_iff,
}
use model_forge.Diagnostics.States.{
  DiagnosticState, state_value, same_state, state_of, allowed_transitions, is_valid_transition,
}

-- The transitions that are left at most.
abbrev pub rank : DiagnosticState → ℕ
rank DiagnosticState.pending = 7
rank DiagnosticState.preflight = 6
rank DiagnosticState.creating = 5
rank DiagnosticState.launch_acknowledged = 4
rank DiagnosticState.running = 3
rank DiagnosticState.timeout_requested = 2
rank DiagnosticState.closing = 1
rank DiagnosticState.cancel_requested = 1
rank DiagnosticState.terminating = 1
rank _ = 0

state_of-state_value : (state : DiagnosticState) → state_of (state_value state) ≡ some state
unfolding state_of state_value
state_of-state_value DiagnosticState.pending = refl
state_of-state_value _ = refl

pub same_state-eq : (a b : DiagnosticState) → same_state a b ≡ true → a ≡ b
unfolding same_state
same_state-eq a b e =
    let values : state_value a ≡ state_value b = (eq_iff (state_value a) (state_value b)).0 e in
    cc (state_of-state_value a, state_of-state_value b, values)

any_falls :
    (n : ℕ) (states : List DiagnosticState) (to_state : DiagnosticState)
    → All (λ state. rank state < n) states
    → any (λ state. same_state state to_state) states ≡ true
    → rank to_state < n
any_falls n [] to_state h e = cc
any_falls n (state ∷ states) to_state (this, rest) e =
    elim (Bool-cases (same_state state to_state)) [
      | inl same ↦ subst (λ s. rank s < n) (same_state-eq state to_state same) this
      | inr other ↦ any_falls n states to_state rest (ground (arith, e, other))
    ]

allowed_fall :
    (state : DiagnosticState) → All (λ next. rank next < rank state) (allowed_transitions state)
unfolding allowed_transitions
allowed_fall DiagnosticState.pending = ground arith
allowed_fall _ = ground arith

-- A transition lowers the rank.
pub rank_falls :
    (from_state to_state : DiagnosticState)
    → is_valid_transition from_state to_state ≡ true
    → rank to_state < rank from_state
unfolding is_valid_transition
rank_falls from_state to_state e =
    any_falls (rank from_state) (allowed_transitions from_state) to_state (allowed_fall from_state)
      (ground (arith, e))

-- States that follow one another by valid transitions, from a first one.
abbrev pub IsRun : DiagnosticState → List DiagnosticState → Type 0
IsRun state [] = Unit
IsRun state (next ∷ rest) = (is_valid_transition state next ≡ true) × IsRun next rest

pub length-rank :
    (state : DiagnosticState) (rest : List DiagnosticState)
    → IsRun state rest
    → length rest ≤ rank state
length-rank state [] h = omega arith
length-rank state (next ∷ rest) (valid, h) =
    omega (arith, rank_falls state next valid, length-rank next rest h)

rank-le : (state : DiagnosticState) → rank state ≤ 7
rank-le DiagnosticState.pending = omega arith
rank-le _ = omega arith

-- Every sequence of valid transitions is finite: it has at most seven, from whatever state it starts.
pub transitions_end :
    (state : DiagnosticState) (rest : List DiagnosticState) → IsRun state rest → length rest ≤ 7
transitions_end state rest h = omega (arith, length-rank state rest h, rank-le state)
