-- ===== src/Storage/Paths/RoundTrip.antt =====
-- Safe parts that are joined with slashes are taken apart again.
use model_forge.Prelude.{
  ℕ, ◌≡◌, refl, ap, ◌∙◌, Bool, true, false, not, ◌&&◌, ◌||◌, List, [], ◌∷◌, ◌++◌, nat_eq, any, all,
  ok, arith,
}
use model_forge.Storage.Paths.{
  Text, Fspath, portable, starts_with_slash, has_drive, split, is_unsafe, is_empty, is_last,
  relative_parts,
}
use model_forge.Storage.Paths.Parts.{is_plain, is_safe, join_parts}

abbrev is_path : ℕ → Bool
is_path c = is_plain c || nat_eq c b'/'

portable_same : (value : Text) → all is_path value ≡ true → portable value ≡ value
unfolding portable
portable_same [] h = refl
portable_same (c ∷ value) h = ground (arith, h, portable_same value)

split-plain : (part : Text) → all is_plain part ≡ true → split part ≡ part ∷ []
unfolding split
split-plain [] h = refl
split-plain (c ∷ part) h = ground (arith, h, split-plain part)

split-append :
    (part rest : Text) → all is_plain part ≡ true → split (part ++ b'/' ∷ rest) ≡ part ∷ split rest
unfolding split
split-append [] rest h = refl
split-append (c ∷ part) rest h = ground (arith, h, split-append part rest)

safe_is_plain : (part : Text) → is_safe part ≡ true → all is_plain part ≡ true
safe_is_plain part h = ground (arith, h)

split-join_parts :
    (parts : List Text)
    → all is_safe parts ≡ true
    → is_last parts ≡ false
    → split (join_parts parts) ≡ parts
unfolding join_parts
split-join_parts [] h e = cc
split-join_parts (part ∷ []) h e = split-plain part (ground (arith, h))
split-join_parts (part ∷ next ∷ parts) h e =
    split-append part (join_parts (next ∷ parts)) (ground (arith, h))
    ∙ ap (λ rest. part ∷ rest) (split-join_parts (next ∷ parts) (ground (arith, h)) refl)

all-append : (p : ℕ → Bool) (xs ys : Text) → all p (xs ++ ys) ≡ (all p xs && all p ys)
all-append p [] ys = refl
all-append p (x ∷ xs) ys = ground (arith, all-append p xs ys)

all-plain-path : (part : Text) → all is_plain part ≡ true → all is_path part ≡ true
all-plain-path [] h = refl
all-plain-path (c ∷ part) h = ground (arith, h, all-plain-path part)

all-join_parts :
    (parts : List Text) → all is_safe parts ≡ true → all is_path (join_parts parts) ≡ true
unfolding join_parts
all-join_parts [] h = refl
all-join_parts (part ∷ []) h = all-plain-path part (ground (arith, h))
all-join_parts (part ∷ next ∷ parts) h =
    all-append is_path part (b'/' ∷ join_parts (next ∷ parts))
    ∙ ground (
      arith,
      all-plain-path part (ground (arith, h)),
      all-join_parts (next ∷ parts) (ground (arith, h)),
    )

no_nul : (value : Text) → all is_path value ≡ true → any (λ c. nat_eq c 0) value ≡ false
no_nul [] h = refl
no_nul (c ∷ value) h = ground (arith, h, no_nul value)

no_colon : (part : Text) → all is_plain part ≡ true → any (λ x. nat_eq x b':') part ≡ false
no_colon [] h = refl
no_colon (c ∷ part) h = ground (arith, h, no_colon part)

safe_not_unsafe : (part : Text) → is_safe part ≡ true → is_unsafe part ≡ false
unfolding is_unsafe
safe_not_unsafe [] h = cc
safe_not_unsafe (c ∷ []) h = ground (arith, h)
safe_not_unsafe (c ∷ d ∷ []) h = ground (arith, h)
safe_not_unsafe (c ∷ d ∷ x ∷ part) h = no_colon (c ∷ d ∷ x ∷ part) h

none_unsafe : (parts : List Text) → all is_safe parts ≡ true → any is_unsafe parts ≡ false
none_unsafe [] h = refl
none_unsafe (part ∷ parts) h = ground (arith, h, safe_not_unsafe part, none_unsafe parts)

-- The start of a path of safe parts: it is not empty, and names no root and no drive.
abbrev is_relative : Text → Bool
is_relative value = not (is_empty value) && not (starts_with_slash value) && not (has_drive value)

is_relative-append :
    (part rest : Text) → is_safe part ≡ true → is_relative (part ++ b'/' ∷ rest) ≡ true
is_relative-append [] rest h = cc
is_relative-append (c ∷ []) rest h = ground (arith, h)
is_relative-append (c ∷ d ∷ part) rest h = ground (arith, h)

is_relative-safe : (part : Text) → is_safe part ≡ true → is_relative part ≡ true
is_relative-safe [] h = cc
is_relative-safe (c ∷ []) h = ground (arith, h)
is_relative-safe (c ∷ d ∷ part) h = ground (arith, h)

is_relative-join_parts :
    (parts : List Text)
    → all is_safe parts ≡ true
    → is_last parts ≡ false
    → is_relative (join_parts parts) ≡ true
unfolding join_parts
is_relative-join_parts [] h e = cc
is_relative-join_parts (part ∷ []) h e = is_relative-safe part (ground (arith, h))
is_relative-join_parts (part ∷ next ∷ parts) h e =
    is_relative-append part (join_parts (next ∷ parts)) (ground (arith, h))

-- Safe parts, one at least, that are put together with slashes are the parts of that path.
pub relative_parts-join_parts :
    (parts : List Text)
    → all is_safe parts ≡ true
    → is_last parts ≡ false
    → relative_parts (Fspath.str (join_parts parts)) ≡ ok parts
unfolding relative_parts
relative_parts-join_parts parts h e =
    let paths = all-join_parts parts h in
    ground (
      arith,
      portable_same (join_parts parts) paths,
      split-join_parts parts h e,
      no_nul (join_parts parts) paths,
      none_unsafe parts h,
      is_relative-join_parts parts h e,
    )
