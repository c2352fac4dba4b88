-- ===== src/Digests/Supported.antt =====
-- Which values have a canonical form.
use model_forge.Prelude.{
  ◌≡◌, refl, ◌∙◌, Bool, true, false, ◌&&◌, none, some, List, [], ◌∷◌, leb, all, Result, ok, err,
  bind, arith,
}
use model_forge.Digests.Json.{Text, Value, Items, Members, abs}
use model_forge.Digests.Utf16.{is_valid}
use model_forge.Digests.Canonical.{
  Rendered, max_safe_integer, serialize_text, insert, sort, serialize_member, serialize_members,
  serialize_dict, serialize, serialize_items, render, canonicalize,
}

abbrev pub is_ok {ℓ} : {A : Type ℓ} → Result A → Bool
is_ok (ok a) = true
is_ok (err e) = false

-- A value of the supported subset of JSON: no float and no other object, integers in the safe range,
-- and texts without surrogates, in every place inside it.
unfoldable mutual
  pub is_supported : Value → Bool
  is_supported Value.null = true
  is_supported (Value.bool b) = true
  is_supported (Value.str text) = is_valid text
  is_supported (Value.int n) = leb (abs n) max_safe_integer
  is_supported Value.float = false
  is_supported (Value.list items) = are_supported items
  is_supported (Value.dict members) = have_support members
  is_supported Value.other = false

  pub are_supported : Items → Bool
  are_supported Items.no_items = true
  are_supported (Items.item value rest) = is_supported value && are_supported rest

  pub have_support : Members → Bool
  have_support Members.no_members = true
  have_support (Members.member none value rest) = false
  have_support (Members.member (some key) value rest) =
      (is_valid key && is_supported value) && have_support rest

abbrev is_writable : Rendered → Bool
is_writable one = is_valid one.key && is_ok one.value

all-insert :
    (p : Rendered → Bool) (new : Rendered) (members : List Rendered)
    → all p (insert new members) ≡ (p new && all p members)
unfolding insert
all-insert p new [] = refl
all-insert p new (first ∷ rest) = ground (arith, all-insert p new rest)

all-sort : (p : Rendered → Bool) (members : List Rendered) → all p (sort members) ≡ all p members
unfolding sort
all-sort p [] = refl
all-sort p (first ∷ rest) = ground (arith, all-insert p first (sort rest), all-sort p rest)

is_ok-serialize_members :
    (members : List Rendered) → is_ok (serialize_members members) ≡ all is_writable members
unfolding serialize_members serialize_member serialize_text
is_ok-serialize_members [] = refl
is_ok-serialize_members (first ∷ rest) = ground (arith, is_ok-serialize_members rest)

all-is_valid :
    (members : List Rendered)
    → all is_writable members ≡ true
    → all (λ one. is_valid one.key) members ≡ true
all-is_valid [] e = refl
all-is_valid (first ∷ rest) e = ground (arith, e, all-is_valid rest)

is_ok-serialize_dict :
    (members : List Rendered) → is_ok (serialize_dict members) ≡ all is_writable members
unfolding serialize_dict
is_ok-serialize_dict members = ground (
  arith,
  is_ok-serialize_members (sort members),
  all-sort is_writable members,
  all-is_valid members,
)

abbrev are_writable : Result (List Rendered) → Bool
are_writable (ok members) = all is_writable members
are_writable (err e) = false

is_ok-bind :
    (members : Result (List Rendered)) → is_ok (bind members serialize_dict) ≡ are_writable members
is_ok-bind (ok members) = is_ok-serialize_dict members
is_ok-bind (err e) = refl

are_writable-cons :
    (key : Text) (value : Result Text) (members : Result (List Rendered))
    → are_writable (bind members (λ rest. ok (record { key = key; value = value } ∷ rest)))
      ≡ ((is_valid key && is_ok value) && are_writable members)
are_writable-cons key value (ok members) = refl
are_writable-cons key value (err e) = ground arith

mutual
  unfolding serialize serialize_items render is_supported are_supported have_support serialize_text

  is_ok-serialize : (value : Value) → is_ok (serialize value) ≡ is_supported value
  is_ok-serialize Value.null = refl
  is_ok-serialize (Value.bool true) = refl
  is_ok-serialize (Value.bool false) = refl
  is_ok-serialize (Value.str text) = ground arith
  is_ok-serialize (Value.int n) = ground arith
  is_ok-serialize Value.float = refl
  is_ok-serialize (Value.list items) = ground (arith, is_ok-serialize_items items)
  is_ok-serialize (Value.dict members) = is_ok-bind (render members) ∙ are_writable-render members
  is_ok-serialize Value.other = refl

  is_ok-serialize_items : (items : Items) → is_ok (serialize_items items) ≡ are_supported items
  is_ok-serialize_items Items.no_items = refl
  is_ok-serialize_items (Items.item value rest) =
      ground (arith, is_ok-serialize value, is_ok-serialize_items rest)

  are_writable-render : (members : Members) → are_writable (render members) ≡ have_support members
  are_writable-render Members.no_members = refl
  are_writable-render (Members.member none value rest) = refl
  are_writable-render (Members.member (some key) value rest) =
      are_writable-cons key (serialize value) (render rest)
      ∙ ground (arith, is_ok-serialize value, are_writable-render rest)

-- A value has canonical bytes exactly when it is supported.
pub is_ok-canonicalize : (value : Value) → is_ok (canonicalize value) ≡ is_supported value
unfolding canonicalize
is_ok-canonicalize value = ground (arith, is_ok-serialize value)
