-- ===== src/Domain/RunStatus/Transitions.antt =====
-- Which transitions `require_transition` of domain/runs.py accepts, status by status.
use model_forge.Prelude.{
  ℕ, ◌<◌, ◌≡◌, refl, sym, ◌⊎◌, inl, inr, ◌==◌, eq_iff, Bool-cases, true, some, List, [], ◌∷◌, arith,
  ok,
}
use model_forge.Domain.RunStatus.{
  RunStatus, created, preparing, prepared, running, cancellation_requested, submitted, validating,
  promoting, correction_authorized, correcting, value, of_value, contains, transitions,
  require_transition,
}

abbrev pub Allowed : RunStatus → RunStatus → Type 0
Allowed s t = require_transition s t ≡ ok tt

-- Reading a status back from its text.
pub of_value-value : (s : RunStatus) → of_value (value s) ≡ some s
unfolding of_value value
of_value-value created = refl
of_value-value _ = refl

value_injective : (s t : RunStatus) → value s ≡ value t → s ≡ t
value_injective s t e = cc (of_value-value s, of_value-value t)

-- The members of a list of statuses, as alternatives.
abbrev pub OneOf : RunStatus → List RunStatus → Type 0
OneOf s [] = ⊥
OneOf s (t ∷ ts) = (s ≡ t) ⊎ OneOf s ts

contains-OneOf : (ts : List RunStatus) (s : RunStatus) → contains ts s ≡ true → OneOf s ts
unfolding contains
contains-OneOf [] s h = absurd (ground arith)
contains-OneOf (t ∷ ts) s h = elim (Bool-cases (value t == value s)) [
  | inl same ↦ inl (sym (value_injective t s ((eq_iff (value t) (value s)).0 same)))
  | inr other ↦ inr (contains-OneOf ts s (rw other at h))
]

pub Allowed-OneOf : (s t : RunStatus) → Allowed s t → OneOf t (transitions s)
unfolding require_transition
Allowed-OneOf s t h = contains-OneOf (transitions s) t (ground arith)

-- How far a run has come since it was created or since its last correction was authorised.
abbrev pub stage : RunStatus → ℕ
stage created = 0
stage preparing = 1
stage prepared = 2
stage correction_authorized = 3
stage correcting = 4
stage running = 5
stage submitted = 6
stage validating = 7
stage promoting = 8
stage cancellation_requested = 8
stage _ = 9

pub stage_rises :
    (s t : RunStatus) → Allowed s t → (t ≡ correction_authorized) ⊎ (stage s < stage t)
unfolding transitions
stage_rises created t h = ground (arith, Allowed-OneOf created t h)
stage_rises s t h = ground (arith, Allowed-OneOf s t h)
