-- ===== src/Digests/Utf16/Order.antt =====
-- The order of the sort keys is total, and a key determines its text.
use model_forge.Prelude.{ℕ, ◌<◌, ◌≡◌, refl, sym, Bool, true, false, List, [], ◌∷◌, ◌++◌, All, arith}
use model_forge.Digests.Json.{Text}
use model_forge.Digests.Utf16.{is_surrogate, is_valid, utf16, sort_key, bytes_le}

pub bytes_le_total : (xs ys : List ℕ) → bytes_le xs ys ≡ false → bytes_le ys xs ≡ true
unfolding bytes_le
bytes_le_total [] ys e = cc
bytes_le_total (a ∷ more) [] e = refl
bytes_le_total (a ∷ more) (b ∷ bs) e = ground (arith, e, bytes_le_total more bs)

pub bytes_le_trans :
    (xs ys zs : List ℕ) → bytes_le xs ys ≡ true → bytes_le ys zs ≡ true → bytes_le xs zs ≡ true
unfolding bytes_le
bytes_le_trans [] ys zs first second = refl
bytes_le_trans (x ∷ xs) [] zs first second = cc
bytes_le_trans (x ∷ xs) (y ∷ ys) [] first second = cc
bytes_le_trans (x ∷ xs) (y ∷ ys) (z ∷ zs) first second =
    ground (arith, first, second, bytes_le_trans xs ys zs)

pub bytes_le_antisym : (xs ys : List ℕ) → bytes_le xs ys ≡ true → bytes_le ys xs ≡ true → xs ≡ ys
unfolding bytes_le
bytes_le_antisym [] [] first second = refl
bytes_le_antisym [] (y ∷ ys) first second = cc
bytes_le_antisym (x ∷ xs) [] first second = cc
bytes_le_antisym (x ∷ xs) (y ∷ ys) first second =
    ground (arith, first, second, bytes_le_antisym xs ys)

-- A code point, as Python has them.
abbrev pub IsCodePoint : ℕ → Type 0
IsCodePoint c = c < 1114112

utf16-cancel :
    (c d : ℕ) (xs ys : List ℕ)
    → IsCodePoint c
    → IsCodePoint d
    → is_surrogate c ≡ false
    → is_surrogate d ≡ false
    → utf16 c ++ xs ≡ utf16 d ++ ys
    → (c ≡ d) × (xs ≡ ys)
unfolding utf16
utf16-cancel c d xs ys bound bound' scalar scalar' e = (ground (arith, e), ground (arith, e))

utf16_nonempty : (c : ℕ) (xs : List ℕ) → utf16 c ++ xs ≡ [] → Bool.true ≡ false
unfolding utf16
utf16_nonempty c xs e = ground (arith, e)

-- Valid texts of code points with the same sort key are the same.
pub sort_key-injective :
    (text other : Text)
    → All IsCodePoint text
    → All IsCodePoint other
    → is_valid text ≡ true
    → is_valid other ≡ true
    → sort_key text ≡ sort_key other
    → text ≡ other
unfolding sort_key is_valid
sort_key-injective [] [] points points' valid valid' e = refl
sort_key-injective [] (d ∷ other) points points' valid valid' e =
    cc (utf16_nonempty d (sort_key other) (sym e))
sort_key-injective (c ∷ text) [] points points' valid valid' e =
    cc (utf16_nonempty c (sort_key text) e)
sort_key-injective (c ∷ text) (d ∷ other) (bound, points) (bound', points') valid valid' e =
    let (same, rest) =
      utf16-cancel c d (sort_key text) (sort_key other) bound bound' (ground (arith, valid))
        (ground (arith, valid')) e in
    let tails =
      sort_key-injective text other points points' (ground (arith, valid)) (ground (arith, valid'))
        rest in
    λ i. same i ∷ tails i
