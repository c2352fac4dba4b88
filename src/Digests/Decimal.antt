-- ===== src/Digests/Decimal.antt =====
-- The decimal texts of integers are read back: the fuel of `digits` is enough.
use Prim.Native.Nat.{zero, ◌/◌, ◌%◌}
use model_forge.Prelude.{
  ℕ, suc, ◌+◌, ◌-◌, ◌*◌, ◌<◌, ◌≡◌, refl, ap, ◌∙◌, Bool, true, false, ◌&&◌, Option, none, some, [],
  ◌∷◌, ltb, leb, nat_eq, all, inl, inr, Bool-cases, arith, if◌then◌else◌,
}
use model_forge.Digests.Json.{Text, ℤ, digits, show}

abbrev pub is_decimal : ℕ → Bool
is_decimal c = leb b'0' c && leb c b'9'

-- The number that decimal digits after those of `high` write.
unfoldable pub number_after : (high : ℕ) → Text → ℕ
number_after high [] = high
number_after high (c ∷ text) = number_after (high * 10 + (c - b'0')) text

abbrev pub is_number : Text → Bool
is_number [] = false
is_number (c ∷ text) = all is_decimal (c ∷ text)

-- The integer that a decimal text writes, with a minus sign only before a positive number.
unfoldable pub read : Text → Option ℤ
read [] = none
read (c ∷ text) =
    if nat_eq c b'-'
    then (if is_number text && leb 1 (number_after 0 text)
        then some (ℤ.negsuc (number_after 0 text - 1))
        else none)
    else if is_number (c ∷ text)
    then some (ℤ.pos (number_after 0 (c ∷ text)))
    else none

number_after-digits :
    (fuel n : ℕ) (rest : Text)
    → n < fuel
    → number_after 0 (digits fuel n rest) ≡ number_after n rest
unfolding number_after digits
number_after-digits zero n rest h = absurd (omega (arith, h))
number_after-digits (suc fuel) n rest h = elim (Bool-cases (ltb n 10)) [
  | inl small ↦ ground (arith, small)
  | inr large ↦ ground (
    arith,
    large,
    number_after-digits fuel (n / 10) ((b'0' + n % 10) ∷ rest) (ground (arith, h, large)),
  )
]

is_number-digits :
    (fuel n : ℕ) (rest : Text)
    → n < fuel
    → all is_decimal rest ≡ true
    → is_number (digits fuel n rest) ≡ true
unfolding digits
is_number-digits zero n rest h e = absurd (omega (arith, h))
is_number-digits (suc fuel) n rest h e = elim (Bool-cases (ltb n 10)) [
  | inl small ↦ ground (arith, small, e)
  | inr large ↦
      let more =
        is_number-digits fuel (n / 10) ((b'0' + n % 10) ∷ rest) (ground (arith, h, large))
          (ground (arith, e)) in
      ground (arith, large, more)
]

read_number : (text : Text) → is_number text ≡ true → read text ≡ some (ℤ.pos (number_after 0 text))
unfolding read
read_number [] e = cc
read_number (c ∷ text) e = ground (arith, e)

read_negative :
    (text : Text) (n : ℕ)
    → is_number text ≡ true
    → number_after 0 text ≡ suc n
    → read (b'-' ∷ text) ≡ some (ℤ.negsuc n)
unfolding read
read_negative text n e value = ground (arith, e, value)

number-digits : (n : ℕ) → number_after 0 (digits (suc n) n []) ≡ n
unfolding number_after
number-digits n = number_after-digits (suc n) n [] (omega arith)

-- The text of an integer is read back as that integer.
pub read-show : (z : ℤ) → read (show z) ≡ some z
unfolding show
read-show (ℤ.pos n) =
    read_number (digits (suc n) n []) (is_number-digits (suc n) n [] (omega arith) refl)
    ∙ ap (λ m. some (ℤ.pos m)) (number-digits n)
read-show (ℤ.negsuc n) =
    read_negative (digits (suc (suc n)) (suc n) []) n
      (is_number-digits (suc (suc n)) (suc n) [] (omega arith) refl) (number-digits (suc n))

pub is_number-show : (n : ℕ) → is_number (show (ℤ.pos n)) ≡ true
unfolding show
is_number-show n = is_number-digits (suc n) n [] (omega arith) refl

pub number-show : (n : ℕ) → number_after 0 (show (ℤ.pos n)) ≡ n
unfolding show
number-show n = number-digits n
