-- ===== src/Examples/Digesting.antt =====
-- The theorems on canonical JSON, at a dict with two members.
use model_forge.Prelude.{◌≡◌, refl, true, [], ◌∷◌, some, ok, arith}
use model_forge.Digests.Json.{
  ℤ, Value, Items, Members, digits, abs, show, hex_digit, escape, escaped, quote, utf8, utf8_bytes,
}
use model_forge.Digests.Utf16.{is_valid, utf16, sort_key, bytes_le}
use model_forge.Digests.Canonical.{
  serialize_text, insert, sort, serialize_member, join, serialize_members, serialize_dict,
  serialize, serialize_items, render, canonicalize,
}
use model_forge.Digests.Supported.{is_ok, is_supported, is_ok-canonicalize}
use model_forge.Digests.Reordering.{Reordered, canonicalize-Reordered}

abbrev pair : Value
pair = Value.list (Items.item Value.null (Items.item (Value.bool true) Items.no_items))

abbrev first : Members
first =
    Members.member (some (b'b' ∷ [])) (Value.int (ℤ.negsuc 41))
      (Members.member (some (b'a' ∷ [])) pair Members.no_members)

abbrev second : Members
second =
    Members.member (some (b'a' ∷ [])) pair
      (Members.member (some (b'b' ∷ [])) (Value.int (ℤ.negsuc 41)) Members.no_members)

-- `{"a":[null,true],"b":-42}`
written :
    canonicalize (Value.dict first)
    ≡ ok (
        b'{' ∷ b'"' ∷ b'a' ∷ b'"' ∷ b':' ∷ b'[' ∷ b'n' ∷ b'u' ∷ b'l' ∷ b'l' ∷ b',' ∷ b't' ∷ b'r'
        ∷ b'u' ∷ b'e' ∷ b']' ∷ b',' ∷ b'"' ∷ b'b' ∷ b'"' ∷ b':' ∷ b'-' ∷ b'4' ∷ b'2' ∷ b'}' ∷ [])
unfolding digits abs show hex_digit escape escaped quote utf8 utf8_bytes is_valid utf16 sort_key
    bytes_le serialize_text insert sort serialize_member join serialize_members serialize_dict
    serialize serialize_items render canonicalize
written = refl

canonicalize-Reordered_example : canonicalize (Value.dict first) ≡ canonicalize (Value.dict second)
canonicalize-Reordered_example =
    canonicalize-Reordered
      (Reordered.swap (some (b'b' ∷ [])) (some (b'a' ∷ [])) (Value.int (ℤ.negsuc 41)) pair
        Members.no_members)
      ((omega arith, tt), ((λ e. ground (arith, e)), tt), ((omega arith, tt), tt, tt))

is_ok-canonicalize_example :
    is_ok (canonicalize (Value.dict first)) ≡ is_supported (Value.dict first)
is_ok-canonicalize_example = is_ok-canonicalize (Value.dict first)
