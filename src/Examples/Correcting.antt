-- ===== src/Examples/Correcting.antt =====
-- The theorem on the ids of validation attempts, at a run id with a dot.
use model_forge.Prelude.{◌≡◌, refl, [], ◌∷◌, ok}
use model_forge.Digests.Json.{Text}
use model_forge.Digests.Decimal.{is_decimal, number_after}
use model_forge.Application.Correction.{Numerals, derive_attempt_id, attempt_ordinal_from_id}
use model_forge.Application.Correction.Attempts.{
  IsPython, attempt_ordinal_from_id-derive_attempt_id,
}

-- Python's functions where only decimal digits are digits.
abbrev decimals : Numerals
decimals = record { is_digit = is_decimal; int = λ text. ok (number_after 0 text) }

decimals-IsPython : IsPython decimals
decimals-IsPython = record { decimal = λ c h. h; value = λ text h. refl }

abbrev run_id : Text
run_id = b'r' ∷ b'.' ∷ b'1' ∷ []

attempt_ordinal_from_id-derive_attempt_id_example :
    attempt_ordinal_from_id decimals (derive_attempt_id run_id 12) ≡ ok 12
attempt_ordinal_from_id-derive_attempt_id_example =
    attempt_ordinal_from_id-derive_attempt_id decimals run_id 12 decimals-IsPython
