-- ===== src/Application/Correction.antt =====
-- src/model_forge/application/correction.py: the bounds on corrections, their scope, and the ids of
-- validation attempts. Texts of ids are lists of code points.
pub mod Attempts
use model_forge.Prelude.{
  ℕ, String, ◌==◌, Bool, true, false, not, ◌&&◌, Option, none, some, List, [], ◌∷◌, ◌++◌, ltb, leb,
  nat_eq, any, all, Result, ok, err, refuse, if◌then◌else◌,
}
use model_forge.Storage.Text.{codes}
use model_forge.Digests.Json.{Text, ℤ, show}

-- `CorrectionType`
pub data CorrectionType : Type 0 where
  revalidate normalize packaging scientific : CorrectionType

abbrev pub max_packaging_attempts : ℕ
max_packaging_attempts = 1

abbrev pub max_scientific_attempts : ℕ
max_scientific_attempts = 1

unfoldable pub check_correction_bounds :
    CorrectionType → (prior_packaging_attempts prior_scientific_attempts : ℕ) → Bool
check_correction_bounds CorrectionType.packaging packaged corrected =
    ltb packaged max_packaging_attempts
check_correction_bounds CorrectionType.scientific packaged corrected =
    ltb corrected max_scientific_attempts
check_correction_bounds _ packaged corrected = true

unfoldable pub is_correction_exhausted :
    (prior_packaging_attempts prior_scientific_attempts : ℕ) → Bool
is_correction_exhausted packaged corrected =
    leb max_packaging_attempts packaged && leb max_scientific_attempts corrected

-- `validate_scope`
unfoldable pub validate_scope :
    (permitted_output_scope requested_outputs : List String) → Result (Unit {0})
validate_scope permitted_output_scope requested_outputs =
    refuse
      (any (λ output. not (any (λ scope. scope == output) permitted_output_scope))
        requested_outputs)
      "ValueError"

-- `_derive_attempt_id`
unfoldable pub derive_attempt_id : (run_id : Text) → (ordinal : ℕ) → Text
derive_attempt_id run_id ordinal = codes "attempt." ++ run_id ++ b'.' ∷ show (ℤ.pos ordinal)

abbrev pub keep_last : ℕ → Text → Option (Text × Text) → Option (Text × Text)
keep_last c text (some (before, after)) = some (c ∷ before, after)
keep_last c text none = if nat_eq c b'.' then some ([], text) else none

-- `rsplit(".", 1)`, where it gives two parts
unfoldable pub split_last : Text → Option (Text × Text)
split_last [] = none
split_last (c ∷ text) = keep_last c text (split_last text)

-- The parts of Python's library that read a number: the characters for which `str.isdigit` holds, and
-- `int` of a text.
pub record Numerals : Type 0 where
  pub is_digit : ℕ → Bool
  pub int : Text → Result ℕ

-- `str.isdigit`
abbrev pub all_digits : Numerals → Text → Bool
all_digits numerals [] = false
all_digits numerals (c ∷ text) = all numerals.is_digit (c ∷ text)

abbrev pub read_ordinal : Numerals → Option (Text × Text) → Result ℕ
read_ordinal numerals none = ok 0
read_ordinal numerals (some (before, after)) =
    if all_digits numerals after then numerals.int after else ok 0

unfoldable pub attempt_ordinal_from_id : Numerals → (attempt_id : Text) → Result ℕ
attempt_ordinal_from_id numerals attempt_id = read_ordinal numerals (split_last attempt_id)
