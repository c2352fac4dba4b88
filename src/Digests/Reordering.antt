-- ===== src/Digests/Reordering.antt =====
-- The canonical form of a dict does not depend on the order of its members.
use model_forge.Prelude.{
  ◌≡◌, ◌≢◌, refl, sym, ap, ◌∙◌, Bool, true, false, ◌&&◌, Option, none, some, List, [], ◌∷◌, all,
  All, Result, ok, err, bind, arith, inl, inr, Bool-cases,
}
use model_forge.Digests.Json.{Text, Value, Members, utf8_bytes}
use model_forge.Digests.Utf16.{is_valid, sort_key, bytes_le}
use model_forge.Digests.Utf16.Order.{
  IsCodePoint, bytes_le_total, bytes_le_trans, bytes_le_antisym, sort_key-injective,
}
use model_forge.Digests.Canonical.{
  Rendered, insert, sort, serialize_dict, serialize, render, canonicalize,
}

abbrev le : Rendered → Rendered → Bool
le a b = bytes_le (sort_key a.key) (sort_key b.key)

-- Two insertions of members with different sort keys commute.
insert-insert :
    (a b : Rendered) (members : List Rendered)
    → (le a b && le b a) ≡ false
    → insert a (insert b members) ≡ insert b (insert a members)
unfolding insert
insert-insert a b [] apart = ground (arith, apart, bytes_le_total (sort_key a.key) (sort_key b.key))
insert-insert a b (first ∷ rest) apart = ground (
  arith,
  apart,
  bytes_le_total (sort_key a.key) (sort_key b.key),
  bytes_le_total (sort_key a.key) (sort_key first.key),
  bytes_le_total (sort_key b.key) (sort_key first.key),
  bytes_le_trans (sort_key a.key) (sort_key b.key) (sort_key first.key),
  bytes_le_trans (sort_key b.key) (sort_key a.key) (sort_key first.key),
  insert-insert a b rest apart,
)

-- No member after it has the key.
abbrev pub IsFresh : Text → Members → Type 0
IsFresh key Members.no_members = Unit
IsFresh key (Members.member none value rest) = IsFresh key rest
IsFresh key (Members.member (some other) value rest) = (key ≢ other) × IsFresh key rest

-- The members of a Python dict: texts of code points as keys are all different.
abbrev pub IsDict : Members → Type 0
IsDict Members.no_members = Unit
IsDict (Members.member none value rest) = IsDict rest
IsDict (Members.member (some key) value rest) = All IsCodePoint key × IsFresh key rest × IsDict rest

-- The same members in another order.
pub data Reordered : Members → Members → Type 0 where
  same : (members : Members) → Reordered members members
  below :
      (key : Option Text) (value : Value) {before after : Members}
      → Reordered before after
      → Reordered (Members.member key value before) (Members.member key value after)
  swap :
      (key other : Option Text) (value value' : Value) (rest : Members)
      → Reordered
          (Members.member key value (Members.member other value' rest))
          (Members.member other value' (Members.member key value rest))
  via :
      {before between after : Members}
      → Reordered before between
      → Reordered between after
      → Reordered before after

IsFresh-Reordered :
    (key : Text) {before after : Members}
    → Reordered before after
    → IsFresh key before
    → IsFresh key after
IsFresh-Reordered key (Reordered.same _) h = h
IsFresh-Reordered key (Reordered.below none value r) h = IsFresh-Reordered key r h
IsFresh-Reordered key (Reordered.below (some other) value r) h = (h.0, IsFresh-Reordered key r h.1)
IsFresh-Reordered key (Reordered.swap none none value value' rest) h = h
IsFresh-Reordered key (Reordered.swap none (some l) value value' rest) h = h
IsFresh-Reordered key (Reordered.swap (some k) none value value' rest) h = h
IsFresh-Reordered key (Reordered.swap (some k) (some l) value value' rest) (hk, (hl, h)) =
    (hl, (hk, h))
IsFresh-Reordered key (Reordered.via r r') h = IsFresh-Reordered key r' (IsFresh-Reordered key r h)

IsDict-Reordered : {before after : Members} → Reordered before after → IsDict before → IsDict after
IsDict-Reordered (Reordered.same _) h = h
IsDict-Reordered (Reordered.below none value r) h = IsDict-Reordered r h
IsDict-Reordered (Reordered.below (some key) value r) (points, fresh, h) =
    (points, IsFresh-Reordered key r fresh, IsDict-Reordered r h)
IsDict-Reordered (Reordered.swap none none value value' rest) h = h
IsDict-Reordered (Reordered.swap none (some l) value value' rest) h = h
IsDict-Reordered (Reordered.swap (some k) none value value' rest) h = h
IsDict-Reordered (Reordered.swap (some k) (some l) value value' rest)
      (points, (apart, fresh), (points', fresh', h)) =
    (points', ((λ e. apart (sym e)), fresh'), (points, fresh, h))
IsDict-Reordered (Reordered.via r r') h = IsDict-Reordered r' (IsDict-Reordered r h)

abbrev all_valid : List Rendered → Bool
all_valid members = all (λ one. is_valid one.key) members

-- Lists of members that `serialize_dict` does not tell apart.
abbrev Agree : Result (List Rendered) → Result (List Rendered) → Type 0
Agree (ok members) (ok others) =
    (all_valid members ≡ all_valid others) × (all_valid members ≡ true → sort members ≡ sort others)
Agree (err e) (err e') = e ≡ e'
Agree _ _ = ⊥

abbrev with : Text → Result Text → Result (List Rendered) → Result (List Rendered)
with key value members = bind members (λ rest. ok (record { key = key; value = value } ∷ rest))

serialize_dict-Agree :
    (members others : Result (List Rendered))
    → Agree members others
    → bind members serialize_dict ≡ bind others serialize_dict
unfolding serialize_dict
serialize_dict-Agree (ok members) (ok others) (valid, sorted) = ground (arith, valid, sorted)
serialize_dict-Agree (err e) (err e') h = ap err h
serialize_dict-Agree (ok members) (err e) h = absurd h
serialize_dict-Agree (err e) (ok members) h = absurd h

Agree-with :
    (key : Text) (value : Result Text) (members others : Result (List Rendered))
    → Agree members others
    → Agree (with key value members) (with key value others)
unfolding sort
Agree-with key value (ok members) (ok others) (valid, sorted) =
    (ground (arith, valid), λ e. ap (insert _) (sorted (ground (arith, e))))
Agree-with key value (err e) (err e') h = h
Agree-with key value (ok members) (err e) h = absurd h
Agree-with key value (err e) (ok members) h = absurd h

keys_apart :
    (key other : Text)
    → All IsCodePoint key
    → All IsCodePoint other
    → key ≢ other
    → is_valid key ≡ true
    → is_valid other ≡ true
    → (bytes_le (sort_key key) (sort_key other) && bytes_le (sort_key other) (sort_key key)) ≡ false
keys_apart key other points points' apart valid valid' =
    elim (Bool-cases
      (bytes_le (sort_key key) (sort_key other) && bytes_le (sort_key other) (sort_key key))) [
        | inr answer ↦ answer
        | inl both ↦ absurd (
            apart (
              sort_key-injective key other points points' valid valid' (
                bytes_le_antisym (sort_key key) (sort_key other) (ground (arith, both))
                  (ground (arith, both)))))
      ]

Agree-swap :
    (key other : Text) (value value' : Result Text) (members : Result (List Rendered))
    → All IsCodePoint key
    → All IsCodePoint other
    → key ≢ other
    → Agree
        (with key value (with other value' members))
        (with other value' (with key value members))
unfolding sort
Agree-swap key other value value' (err e) points points' apart = refl
Agree-swap key other value value' (ok members) points points' apart = (
  ground arith,
  λ e.
      insert-insert (record { key = key; value = value }) (record { key = other; value = value' })
        (sort members)
        (keys_apart key other points points' apart (ground (arith, e)) (ground (arith, e))),
)

Agree-self : (members : Result (List Rendered)) → Agree members members
Agree-self (ok members) = (refl, λ e. refl)
Agree-self (err e) = refl

Agree-trans :
    (first second third : Result (List Rendered))
    → Agree first second
    → Agree second third
    → Agree first third
Agree-trans (ok a) (ok b) (ok c) (valid, sorted) (valid', sorted') =
    (valid ∙ valid', λ e. sorted e ∙ sorted' (ground (arith, e, valid)))
Agree-trans (err a) (err b) (err c) h h' = h ∙ h'
Agree-trans (ok a) (ok b) (err c) h h' = absurd h'
Agree-trans (ok a) (err b) third h h' = absurd h
Agree-trans (err a) (ok b) third h h' = absurd h
Agree-trans (err a) (err b) (ok c) h h' = absurd h'

Agree-render :
    {before after : Members}
    → Reordered before after
    → IsDict before
    → Agree (render before) (render after)
unfolding render
Agree-render (Reordered.same all) h = Agree-self (render all)
Agree-render (Reordered.below none value r) h = refl
Agree-render (Reordered.below (some key) value {before = before} {after = after} r)
      (points, fresh, h) =
    Agree-with key (serialize value) (render before) (render after) (Agree-render r h)
Agree-render (Reordered.swap none none value value' rest) h = refl
Agree-render (Reordered.swap none (some l) value value' rest) h = refl
Agree-render (Reordered.swap (some k) none value value' rest) h = refl
Agree-render (Reordered.swap (some k) (some l) value value' rest)
      (points, (apart, fresh), (points', fresh', h)) =
    Agree-swap k l (serialize value) (serialize value') (render rest) points points' apart
Agree-render (Reordered.via {before = a} {between = b} {after = c} r r') h =
    Agree-trans (render a) (render b) (render c) (Agree-render r h)
      (Agree-render r' (IsDict-Reordered r h))

-- Dicts with the same members in different orders have the same canonical bytes, or fail with the same
-- error.
pub canonicalize-Reordered :
    {before after : Members}
    → Reordered before after
    → IsDict before
    → canonicalize (Value.dict before) ≡ canonicalize (Value.dict after)
unfolding canonicalize serialize
canonicalize-Reordered {before} {after} r h =
    ap (λ text. bind text (λ t. ok (utf8_bytes t)))
      (serialize_dict-Agree (render before) (render after) (Agree-render r h))
