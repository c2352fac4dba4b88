-- ===== src/Storage/Paths/Parts.antt =====
-- Which parts `_relative_parts` gives, and that it takes apart what is put together from safe ones.
use model_forge.Prelude.{
  ℕ, ◌≡◌, refl, sym, Bool, true, false, not, ◌&&◌, ◌||◌, List, [], ◌∷◌, ◌++◌, nat_eq, any, all, ok,
  arith,
}
use model_forge.Storage.Paths.{
  Text, Fspath, portable, push, split, is_unsafe, is_empty, is_last, relative_parts,
}

-- Neither the end of a part nor special in one.
abbrev pub is_plain : ℕ → Bool
is_plain c = not (nat_eq c 0 || nat_eq c b'/' || nat_eq c b':' || nat_eq c b'\\')

abbrev pub is_dots : Text → Bool
is_dots (c ∷ []) = nat_eq c b'.'
is_dots (c ∷ d ∷ []) = nat_eq c b'.' && nat_eq d b'.'
is_dots _ = false

-- A part that names a file below its directory on every system.
abbrev pub is_safe : Text → Bool
is_safe part = not (is_empty part) && not (is_dots part) && all is_plain part

-- `"/".join(parts)`
unfoldable pub join_parts : List Text → Text
join_parts [] = []
join_parts (part ∷ []) = part
join_parts (part ∷ next ∷ parts) = part ++ b'/' ∷ join_parts (next ∷ parts)

abbrev is_inner : ℕ → Bool
is_inner c = not (nat_eq c 0 || nat_eq c b'\\')

abbrev is_name : ℕ → Bool
is_name c = is_inner c && not (nat_eq c b'/')

all-push :
    (c : ℕ) (parts : List Text)
    → is_name c ≡ true
    → all (all is_name) parts ≡ true
    → all (all is_name) (push c parts) ≡ true
all-push c [] h e = ground (arith, h)
all-push c (part ∷ parts) h e = ground (arith, h, e)

-- The parts of a text have its characters, without the slashes.
all-split : (value : Text) → all is_inner value ≡ true → all (all is_name) (split value) ≡ true
unfolding split
all-split [] h = refl
all-split (c ∷ value) h = ground (arith, h, all-split value, all-push c (split value))

all-portable :
    (value : Text) → any (λ c. nat_eq c 0) value ≡ false → all is_inner (portable value) ≡ true
unfolding portable
all-portable [] h = refl
all-portable (c ∷ value) h = ground (arith, h, all-portable value)

join_parts-push : (c : ℕ) (parts : List Text) → join_parts (push c parts) ≡ c ∷ join_parts parts
unfolding join_parts
join_parts-push c [] = refl
join_parts-push c (part ∷ []) = refl
join_parts-push c (part ∷ next ∷ parts) = refl

push_nonempty : (c : ℕ) (parts : List Text) → is_last (push c parts) ≡ false
push_nonempty c [] = refl
push_nonempty c (part ∷ parts) = refl

split_nonempty : (value : Text) → is_last (split value) ≡ false
unfolding split
split_nonempty [] = refl
split_nonempty (c ∷ value) = ground (arith, split_nonempty value, push_nonempty c (split value))

join_parts-empty :
    (parts : List Text) → is_last parts ≡ false → join_parts ([] ∷ parts) ≡ b'/' ∷ join_parts parts
unfolding join_parts
join_parts-empty [] e = cc
join_parts-empty (part ∷ parts) e = refl

join_parts_one : (part : Text) → join_parts (part ∷ []) ≡ part
unfolding join_parts
join_parts_one part = refl

join_parts-split : (value : Text) → join_parts (split value) ≡ value
unfolding split
join_parts-split [] = join_parts_one []
join_parts-split (c ∷ value) = ground (
  arith,
  join_parts-split value,
  join_parts-push c (split value),
  join_parts-empty (split value),
  split_nonempty value,
)

all_plain :
    (part : Text)
    → any (λ x. nat_eq x b':') part ≡ false
    → all is_name part ≡ true
    → all is_plain part ≡ true
all_plain [] e h = refl
all_plain (c ∷ part) e h = ground (arith, e, h, all_plain part)

is_safe_part :
    (part : Text) → is_unsafe part ≡ false → all is_name part ≡ true → is_safe part ≡ true
unfolding is_unsafe
is_safe_part [] e h = cc
is_safe_part (c ∷ []) e h = ground (arith, e, h, all_plain (c ∷ []))
is_safe_part (c ∷ d ∷ []) e h = ground (arith, e, h, all_plain (c ∷ d ∷ []))
is_safe_part (c ∷ d ∷ x ∷ part) e h = all_plain (c ∷ d ∷ x ∷ part) e h

all_safe :
    (parts : List Text)
    → any is_unsafe parts ≡ false
    → all (all is_name) parts ≡ true
    → all is_safe parts ≡ true
all_safe [] e h = refl
all_safe (part ∷ parts) e h = ground (arith, e, h, is_safe_part part, all_safe parts)

-- The parts of a path that is accepted are safe, there is one at least, and put together with slashes
-- they are the path in its portable form.
pub relative_parts_safe :
    (value : Text) {parts : List Text}
    → relative_parts (Fspath.str value) ≡ ok parts
    → (all is_safe parts ≡ true) × (is_last parts ≡ false) × (join_parts parts ≡ portable value)
unfolding relative_parts
relative_parts_safe value {parts = parts} e =
    let same : split (portable value) ≡ parts = ground (arith, e) in
    rw (sym same) (
      all_safe (split (portable value)) (ground (arith, e))
          (all-split (portable value) (all-portable value (ground (arith, e)))),
      split_nonempty (portable value),
      join_parts-split (portable value),
    )
