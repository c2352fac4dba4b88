-- ===== src/Domain/RunStatus/History.antt =====
-- Histories of a run: what every sequence of transitions accepted by domain/runs.py has in common.
use model_forge.Prelude.{
  ℕ, ◌+◌, ◌*◌, ◌≤◌, ◌≡◌, refl, ◌⊎◌, inl, inr, suc, List, [], ◌∷◌, arith, length, err,
}
use model_forge.Domain.RunStatus.{
  RunStatus, created, running, submitted, validating, promoting, published, correction_authorized,
  correcting, cancelled, cancellation_requested, transitions, require_transition,
}
use model_forge.Domain.RunStatus.Transitions.{Allowed, Allowed-OneOf, OneOf, stage, stage_rises}

-- The statuses of a run, the present one first, each reached from the one after it by an accepted
-- transition.
abbrev pub IsHistory : RunStatus → List RunStatus → Type 0
IsHistory s [] = s ≡ created
IsHistory s (t ∷ earlier) = Allowed t s × IsHistory t earlier

-- How many corrections were authorised along the way.
pub corrections : List RunStatus → ℕ
corrections [] = 0
corrections (correction_authorized ∷ earlier) = suc (corrections earlier)
corrections (s ∷ earlier) = corrections earlier

corrections-authorized :
    (earlier : List RunStatus)
    → corrections (correction_authorized ∷ earlier) ≡ suc (corrections earlier)
unfolding corrections
corrections-authorized earlier = refl

corrections-cons_le :
    (s t : RunStatus) (earlier : List RunStatus)
    → corrections (t ∷ earlier) ≤ corrections (s ∷ t ∷ earlier)
unfolding corrections
corrections-cons_le correction_authorized t earlier = omega arith
corrections-cons_le _ t earlier = omega arith

stage-le : (s : RunStatus) → stage s ≤ 9
stage-le created = omega arith
stage-le _ = omega arith

length-history :
    (s : RunStatus) (earlier : List RunStatus)
    → IsHistory s earlier
    → length earlier ≤ stage s + 10 * corrections (s ∷ earlier)
length-history s [] h = omega arith
length-history s (t ∷ earlier) h = elim (stage_rises t s h.0) [
  | inl corrected ↦ rw corrected (
      omega (arith, corrections-authorized (t ∷ earlier), length-history t earlier h.1, stage-le t))
  | inr rises ↦ omega (arith, length-history t earlier h.1, corrections-cons_le s t earlier, rises)
]

-- A run makes at most 9 transitions, and 10 more for each correction that was authorised.
pub length-history-le :
    (s : RunStatus) (earlier : List RunStatus)
    → IsHistory s earlier
    → length earlier ≤ 9 + 10 * corrections (s ∷ earlier)
length-history-le s earlier h = omega (arith, length-history s earlier h, stage-le s)

-- The only ways into the states of the publication path.
into_published : (s : RunStatus) → Allowed s published → s ≡ promoting
unfolding transitions
into_published created h = ground (arith, Allowed-OneOf created published h)
into_published s h = ground (arith, Allowed-OneOf s published h)

into_promoting : (s : RunStatus) → Allowed s promoting → s ≡ validating
unfolding transitions
into_promoting created h = ground (arith, Allowed-OneOf created promoting h)
into_promoting s h = ground (arith, Allowed-OneOf s promoting h)

into_validating : (s : RunStatus) → Allowed s validating → s ≡ submitted
unfolding transitions
into_validating created h = ground (arith, Allowed-OneOf created validating h)
into_validating s h = ground (arith, Allowed-OneOf s validating h)

into_submitted : (s : RunStatus) → Allowed s submitted → (s ≡ running) ⊎ (s ≡ correcting)
unfolding transitions
into_submitted created h = ground (arith, Allowed-OneOf created submitted h)
into_submitted s h = ground (arith, Allowed-OneOf s submitted h)

-- A published run was promoting just before, validating before that, submitted before that, and
-- running or correcting when it submitted.
pub published_history :
    (earlier : List RunStatus)
    → IsHistory published earlier
    → (t : RunStatus) × (rest : List RunStatus) × (earlier
        ≡ promoting ∷ validating ∷ submitted ∷ t ∷ rest)
      × ((t ≡ running) ⊎ (t ≡ correcting))
published_history [] h = absurd (ground arith)
published_history (a ∷ []) h = absurd (ground (arith, into_published a h.0))
published_history (a ∷ b ∷ []) h = absurd (ground (arith, into_published a h.0, into_promoting b))
published_history (a ∷ b ∷ c ∷ []) h =
    absurd (ground (arith, into_published a h.0, into_promoting b, into_validating c))
published_history (a ∷ b ∷ c ∷ d ∷ rest) h =
    let pa = into_published a h.0 in
    let pb = into_promoting b (rw pa at h.1.0) in
    let pc = into_validating c (rw pb at h.1.1.0) in
    let pd = into_submitted d (rw pc at h.1.1.1.0) in (d, rest, cc, pd)

from_requested : (s : RunStatus) → Allowed cancellation_requested s → s ≡ cancelled
unfolding transitions
from_requested s h = ground (arith, Allowed-OneOf cancellation_requested s h)

cancelled_refuses : (t : RunStatus) → require_transition cancelled t ≡ err "run.invalid_transition"
unfolding require_transition
cancelled_refuses t = refl

once_requested :
    (s : RunStatus) (earlier : List RunStatus)
    → IsHistory s earlier
    → OneOf cancellation_requested earlier
    → s ≡ cancelled
once_requested s [] h m = absurd m
once_requested s (t ∷ earlier) h m = elim m [
  | inl now ↦ from_requested s (rw (← now) at h.0)
  | inr before ↦ cc (once_requested t earlier h.1 before, cancelled_refuses s, h.0)
]

-- A run that had a cancellation requested and has moved since is cancelled, and every further
-- transition is refused.
pub cancellation_is_final :
    (s : RunStatus) (earlier : List RunStatus) (t : RunStatus)
    → IsHistory s earlier
    → OneOf cancellation_requested earlier
    → (s ≡ cancelled) × (require_transition s t ≡ err "run.invalid_transition")
cancellation_is_final s earlier t h m =
    let done = once_requested s earlier h m in (done, rw done (cancelled_refuses t))
