-- ===== src/Application/Correction/Attempts.antt =====
-- The ordinal of a validation attempt is read back from its id.
use model_forge.Prelude.{ℕ, ◌≡◌, refl, ap, ◌∙◌, true, none, some, [], ◌∷◌, ◌++◌, all, ok, arith}
use model_forge.Storage.Text.{codes}
use model_forge.Digests.Json.{Text, ℤ, show}
use model_forge.Digests.Decimal.{is_decimal, is_number, number_after, is_number-show, number-show}
use model_forge.Application.Correction.{
  Numerals, derive_attempt_id, keep_last, split_last, read_ordinal, attempt_ordinal_from_id,
}

split_last-none : (text : Text) → all is_decimal text ≡ true → split_last text ≡ none
unfolding split_last
split_last-none [] h = refl
split_last-none (c ∷ text) h = ground (arith, h, split_last-none text)

split_last-append :
    (before after : Text)
    → all is_decimal after ≡ true
    → split_last (before ++ b'.' ∷ after) ≡ some (before, after)
unfolding split_last
split_last-append [] after h = ground (arith, split_last-none after h)
split_last-append (c ∷ before) after h = ap (keep_last c _) (split_last-append before after h)

-- What Python documents of decimal digits: `isdigit` holds of them, and `int` reads their number.
pub record IsPython (numerals : Numerals) : Type 0 where
  pub decimal : (c : ℕ) → is_decimal c ≡ true → numerals.is_digit c ≡ true
  pub value : (text : Text) → is_number text ≡ true → numerals.int text ≡ ok (number_after 0 text)

all-is_digit :
    (numerals : Numerals)
    → IsPython numerals
    → (text : Text) → all is_decimal text ≡ true
    → all numerals.is_digit text ≡ true
all-is_digit numerals python [] h = refl
all-is_digit numerals python (c ∷ text) h =
    ground (arith, h, python.decimal c, all-is_digit numerals python text)

read_number :
    (numerals : Numerals)
    → IsPython numerals
    → (before text : Text) → is_number text ≡ true
    → read_ordinal numerals (some (before, text)) ≡ ok (number_after 0 text)
read_number numerals python before [] h = cc
read_number numerals python before (c ∷ text) h =
    ground (arith, h, all-is_digit numerals python (c ∷ text) h, python.value (c ∷ text) h)

number_is_decimal : (text : Text) → is_number text ≡ true → all is_decimal text ≡ true
number_is_decimal [] h = refl
number_is_decimal (c ∷ text) h = h

append_assoc : (xs ys zs : Text) → xs ++ (ys ++ zs) ≡ (xs ++ ys) ++ zs
append_assoc [] ys zs = refl
append_assoc (x ∷ xs) ys zs = ap (λ rest. x ∷ rest) (append_assoc xs ys zs)

-- Where `isdigit` and `int` do on decimal digits what Python documents, the ordinal of an attempt is
-- read back from the id that is made of it, whatever the run id is.
pub attempt_ordinal_from_id-derive_attempt_id :
    (numerals : Numerals) (run_id : Text) (ordinal : ℕ)
    → IsPython numerals
    → attempt_ordinal_from_id numerals (derive_attempt_id run_id ordinal) ≡ ok ordinal
unfolding attempt_ordinal_from_id derive_attempt_id
attempt_ordinal_from_id-derive_attempt_id numerals run_id ordinal python =
    let text = show (ℤ.pos ordinal) in
    let number = is_number-show ordinal in
    ap (λ id. read_ordinal numerals (split_last id))
      (append_assoc (codes "attempt.") run_id (b'.' ∷ text))
    ∙ ap (read_ordinal numerals)
        (split_last-append (codes "attempt." ++ run_id) text (number_is_decimal text number))
    ∙ read_number numerals python (codes "attempt." ++ run_id) text number
    ∙ ap ok (number-show ordinal)
