-- ===== src/Domain/RunStatus/Reading.antt =====
-- Which texts domain/runs.py reads as a status.
use model_forge.Prelude.{
  ◌≡◌, sym, String, ◌==◌, eq_iff, Option, some, true, inl, inr, Bool-cases, arith, if◌then◌else◌,
}
use model_forge.Domain.RunStatus.{RunStatus, value, of_value}

-- Only the text of a status is read as that status.
abbrev Reads : String → Option RunStatus → Type 0
Reads text read = (s : RunStatus) → read ≡ some s → (text == value s) ≡ true

Reads-next :
    (text : String) (t : RunStatus) (rest : Option RunStatus)
    → Reads text rest
    → Reads text (if text == value t then some t else rest)
Reads-next text t rest h s e = elim (Bool-cases (text == value t)) [
  | inl hit ↦ ground (arith, e, hit)
  | inr miss ↦ h s (ground (arith, e, miss))
]

Reads-of_value : (text : String) → Reads text (of_value text)
unfolding of_value value
Reads-of_value text = Reads-next text RunStatus.created _ (
    Reads-next text RunStatus.preparing _ (
      Reads-next text RunStatus.prepared _ (
        Reads-next text RunStatus.running _ (
          Reads-next text RunStatus.cancellation_requested _ (
            Reads-next text RunStatus.cancelled _ (
              Reads-next text RunStatus.submitted _ (
                Reads-next text RunStatus.validating _ (
                  Reads-next text RunStatus.promoting _ (
                    Reads-next text RunStatus.published _ (
                      Reads-next text RunStatus.failed _ (
                        Reads-next text RunStatus.rejected _ (
                          Reads-next text RunStatus.conflicted _ (
                            Reads-next text RunStatus.correction_authorized _ (
                              Reads-next text RunStatus.correcting _ (
                                Reads-next text RunStatus.correction_exhausted _
                                  (λ s e. cc))))))))))))))))

pub value-of_value : (text : String) (s : RunStatus) → of_value text ≡ some s → value s ≡ text
value-of_value text s e = sym ((eq_iff text (value s)).0 (Reads-of_value text s e))
