-- ===== src/Digests/Json.antt =====
-- The values that `_serialize` of src/model_forge/digests/jcs.py takes apart, and what Python makes of
-- their texts and numbers. A text is the list of its code points.
use Prim.Native.Nat.{zero, ◌/◌, ◌%◌}
use model_forge.Prelude.{
  ℕ, suc, ◌+◌, Bool, true, false, ◌||◌, List, [], ◌∷◌, ◌++◌, Option, ltb, nat_eq, if◌then◌else◌,
}

abbrev pub Text : Type 0
Text = List ℕ

-- A Python `int`.
pub data ℤ : Type 0 where
  pos : ℕ → ℤ
  negsuc : ℕ → ℤ

-- The keys of a dict are texts, or `none` for any other object.
mutual
  pub data Value : Type 0 where
    null : Value
    bool : Bool → Value
    str : Text → Value
    int : ℤ → Value
    float : Value
    list : Items → Value
    dict : Members → Value
    other : Value

  pub data Items : Type 0 where
    no_items : Items
    item : Value → Items → Items

  pub data Members : Type 0 where
    no_members : Members
    member : Option Text → Value → Members → Members

-- `abs`
unfoldable pub abs : ℤ → ℕ
abs (pos n) = n
abs (negsuc n) = suc n

-- The decimal digits of a number below ten to the power of the fuel, before those that are there.
unfoldable pub digits : (fuel n : ℕ) → Text → Text
digits zero n rest = rest
digits (suc fuel) n rest = elim (ltb n 10) [
  | true ↦ (b'0' + n) ∷ rest
  | false ↦ digits fuel (n / 10) ((b'0' + n % 10) ∷ rest)
]

-- `str` of an int
unfoldable pub show : ℤ → Text
unfolding digits
show (pos n) = digits (suc n) n []
show (negsuc n) = b'-' ∷ digits (suc (suc n)) (suc n) []

unfoldable pub hex_digit : ℕ → ℕ
hex_digit n = if ltb n 10 then b'0' + n else 87 + n

-- A character as `json.dumps(…, ensure_ascii=False)` writes it.
unfoldable pub escape : ℕ → Text
unfolding hex_digit
escape c =
    if nat_eq c b'"' || nat_eq c b'\\'
    then b'\\' ∷ c ∷ []
    else if nat_eq c 10
    then b'\\' ∷ b'n' ∷ []
    else if nat_eq c 13
    then b'\\' ∷ b'r' ∷ []
    else if nat_eq c 9
    then b'\\' ∷ b't' ∷ []
    else if nat_eq c 12
    then b'\\' ∷ b'f' ∷ []
    else if nat_eq c 8
    then b'\\' ∷ b'b' ∷ []
    else if ltb c 32
    then b'\\' ∷ b'u' ∷ b'0' ∷ b'0' ∷ hex_digit (c / 16) ∷ hex_digit (c % 16) ∷ []
    else c ∷ []

unfoldable pub escaped : Text → Text
escaped [] = []
escaped (c ∷ text) = escape c ++ escaped text

-- `json.dumps` of a text
unfoldable pub quote : Text → Text
quote text = b'"' ∷ escaped text ++ b'"' ∷ []

-- `str.encode("utf-8")` of a scalar value
unfoldable pub utf8 : ℕ → List ℕ
utf8 c =
    if ltb c 128
    then c ∷ []
    else if ltb c 2048
    then (192 + c / 64) ∷ (128 + c % 64) ∷ []
    else if ltb c 65536
    then (224 + c / 4096) ∷ (128 + c / 64 % 64) ∷ (128 + c % 64) ∷ []
    else (240 + c / 262144) ∷ (128 + c / 4096 % 64) ∷ (128 + c / 64 % 64) ∷ (128 + c % 64) ∷ []

unfoldable pub utf8_bytes : Text → List ℕ
utf8_bytes [] = []
utf8_bytes (c ∷ text) = utf8 c ++ utf8_bytes text
