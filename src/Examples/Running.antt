-- ===== src/Examples/Running.antt =====
-- The theorems on run statuses, at histories of a published and of a cancelled run.
use model_forge.Prelude.{◌≡◌, ◌≤◌, ◌⊎◌, ◌+◌, ◌*◌, refl, inl, err, List, [], ◌∷◌, length}
use model_forge.Domain.RunStatus.{
  RunStatus, created, preparing, prepared, running, submitted, validating, promoting, published,
  correcting, cancelled, cancellation_requested, status_eq, contains, transitions,
  require_transition,
}
use model_forge.Domain.RunStatus.History.{
  IsHistory, corrections, length-history-le, published_history, cancellation_is_final,
}

abbrev publishing : List RunStatus
publishing = promoting ∷ validating ∷ submitted ∷ running ∷ prepared ∷ preparing ∷ created ∷ []

publishing-IsHistory : IsHistory published publishing
unfolding status_eq contains transitions require_transition
publishing-IsHistory = (refl, (refl, (refl, (refl, (refl, (refl, (refl, refl)))))))

abbrev cancelling : List RunStatus
cancelling = cancellation_requested ∷ running ∷ prepared ∷ preparing ∷ created ∷ []

cancelling-IsHistory : IsHistory cancelled cancelling
unfolding status_eq contains transitions require_transition
cancelling-IsHistory = (refl, (refl, (refl, (refl, (refl, refl)))))

length-history-le_example : length publishing ≤ 9 + 10 * corrections (published ∷ publishing)
length-history-le_example = length-history-le published publishing publishing-IsHistory

published_history_example :
    (t : RunStatus) × (rest : List RunStatus) × (publishing
      ≡ promoting ∷ validating ∷ submitted ∷ t ∷ rest)
    × ((t ≡ running) ⊎ (t ≡ correcting))
published_history_example = published_history publishing publishing-IsHistory

cancellation_is_final_example :
    (cancelled ≡ cancelled) × (require_transition cancelled running ≡ err "run.invalid_transition")
cancellation_is_final_example =
    cancellation_is_final cancelled cancelling running cancelling-IsHistory (inl refl)
