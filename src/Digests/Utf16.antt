-- ===== src/Digests/Utf16.antt =====
-- `_utf16_sort_key` of src/model_forge/digests/jcs.py, and the order of the keys.
pub mod Order
use Prim.Native.Nat.{◌/◌, ◌%◌}
use model_forge.Prelude.{
  ℕ, ◌+◌, ◌-◌, ◌<◌, ◌≤◌, ◌≡◌, refl, Bool, true, false, not, ◌&&◌, ◌||◌, List, [], ◌∷◌, ◌++◌, ltb,
  leb, any, All, arith, if◌then◌else◌,
}
use model_forge.Digests.Json.{Text}

-- `0xD800 <= ord(character) <= 0xDFFF`
abbrev pub is_surrogate : ℕ → Bool
is_surrogate c = leb 55296 c && leb c 57343

-- `_validate_string`, as a test.
unfoldable pub is_valid : Text → Bool
is_valid text = not (any is_surrogate text)

abbrev big_endian : ℕ → List ℕ
big_endian code_unit = code_unit / 256 ∷ code_unit % 256 ∷ []

-- `str.encode("utf-16-be")` of a scalar value
unfoldable pub utf16 : ℕ → List ℕ
utf16 c =
    if ltb c 65536
    then big_endian c
    else big_endian (55296 + (c - 65536) / 1024) ++ big_endian (56320 + (c - 65536) % 1024)

-- `_utf16_sort_key` of a valid text
unfoldable pub sort_key : Text → List ℕ
sort_key [] = []
sort_key (c ∷ text) = utf16 c ++ sort_key text

-- `<=` on bytes
unfoldable pub bytes_le : List ℕ → List ℕ → Bool
bytes_le [] bs = true
bytes_le (a ∷ more) [] = false
bytes_le (a ∷ more) (b ∷ bs) = let rest = bytes_le more bs in ltb a b || leb a b && rest
