-- ===== src/Digests/Canonical.antt =====
-- `_serialize` and `canonicalize` of src/model_forge/digests/jcs.py.
use model_forge.Prelude.{
  ℕ, true, false, String, none, some, List, [], ◌∷◌, ◌++◌, leb, all, Result, ok, err, bind,
  if◌then◌else◌,
}
use model_forge.Digests.Json.{Text, Value, Items, Members, abs, show, quote, utf8_bytes}
use model_forge.Digests.Utf16.{is_valid, sort_key, bytes_le}

-- `MAX_SAFE_INTEGER`
abbrev pub max_safe_integer : ℕ
max_safe_integer = 9007199254740991

-- `JCSInvalidUnicode`, `JCSUnsupportedNumber`, `JCSCanonicalizationError`
abbrev pub invalid_unicode : String
invalid_unicode = "JCSInvalidUnicode"

abbrev pub unsupported_number : String
unsupported_number = "JCSUnsupportedNumber"

abbrev pub canonicalization_error : String
canonicalization_error = "JCSCanonicalizationError"

-- The branch of `_serialize` for a text.
unfoldable pub serialize_text : Text → Result Text
serialize_text text = if is_valid text then ok (quote text) else err invalid_unicode

-- A key, and what its value serializes to.
pub record Rendered : Type 0 where
  pub key : Text
  pub value : Result Text

-- `sorted(value, key=_utf16_sort_key)`, which is stable
unfoldable pub insert : Rendered → List Rendered → List Rendered
insert new [] = new ∷ []
insert new (first ∷ rest) =
    let after = insert new rest in
    if bytes_le (sort_key new.key) (sort_key first.key) then new ∷ first ∷ rest else first ∷ after

unfoldable pub sort : List Rendered → List Rendered
sort [] = []
sort (first ∷ rest) = insert first (sort rest)

-- `_serialize(key) + ":" + _serialize(value[key])`
unfoldable pub serialize_member : Rendered → Result Text
serialize_member one =
    bind (serialize_text one.key) (λ key. bind one.value (λ value. ok (key ++ b':' ∷ value)))

-- Pieces with commas between them.
unfoldable pub join : List Text → Text
join [] = []
join (first ∷ []) = first
join (first ∷ next ∷ rest) = first ++ b',' ∷ join (next ∷ rest)

unfoldable pub serialize_members : List Rendered → Result (List Text)
serialize_members [] = ok []
serialize_members (first ∷ rest) =
    let after = serialize_members rest in
    bind (serialize_member first) (λ text. bind after (λ texts. ok (text ∷ texts)))

-- The branch of `_serialize` for a dict whose keys are texts.
unfoldable pub serialize_dict : List Rendered → Result Text
serialize_dict members =
    if all (λ one. is_valid one.key) members
    then bind (serialize_members (sort members)) (λ texts. ok (b'{' ∷ join texts ++ b'}' ∷ []))
    else err invalid_unicode

unfoldable mutual
  unfolding abs show quote

  pub serialize : Value → Result Text
  serialize Value.null = ok (b'n' ∷ b'u' ∷ b'l' ∷ b'l' ∷ [])
  serialize (Value.bool true) = ok (b't' ∷ b'r' ∷ b'u' ∷ b'e' ∷ [])
  serialize (Value.bool false) = ok (b'f' ∷ b'a' ∷ b'l' ∷ b's' ∷ b'e' ∷ [])
  serialize (Value.str text) = serialize_text text
  serialize (Value.int n) =
      if leb (abs n) max_safe_integer then ok (show n) else err unsupported_number
  serialize Value.float = err unsupported_number
  serialize (Value.list items) =
      bind (serialize_items items) (λ texts. ok (b'[' ∷ join texts ++ b']' ∷ []))
  serialize (Value.dict members) = bind (render members) serialize_dict
  serialize Value.other = err canonicalization_error

  pub serialize_items : Items → Result (List Text)
  serialize_items Items.no_items = ok []
  serialize_items (Items.item value others) =
      bind (serialize value) (λ text. bind (serialize_items others) (λ texts. ok (text ∷ texts)))

  -- Each key with what its value serializes to, where every key is a text.
  pub render : Members → Result (List Rendered)
  render Members.no_members = ok []
  render (Members.member none value others) = err canonicalization_error
  render (Members.member (some key) value others) =
      bind (render others) (λ rest. ok (record { key = key; value = serialize value } ∷ rest))

-- `canonicalize`
unfoldable pub canonicalize : Value → Result (List ℕ)
canonicalize value = bind (serialize value) (λ text. ok (utf8_bytes text))
