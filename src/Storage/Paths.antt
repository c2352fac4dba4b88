-- ===== src/Storage/Paths.antt =====
-- src/model_forge/storage/paths.py: relative paths of a workspace, and the checks on the way to them. A
-- text is the list of its code points.
pub mod Parts
pub mod RoundTrip
pub mod Contained
use model_forge.Prelude.{
  ℕ, String, Bool, true, false, not, ◌&&◌, ◌||◌, List, [], ◌∷◌, ◌++◌, nat_eq, leb, any, Result, ok,
  err, bind, if◌then◌else◌,
}
use model_forge.Storage.Database.{Tx, pure, raise, ◌>>=◌, ◌>>◌}

abbrev pub Text : Type 0
Text = List ℕ

-- What `os.fspath` makes of an argument: a text, bytes, or a `TypeError`.
pub data Fspath : Type 0 where
  str : Text → Fspath
  bytes : Fspath
  type_error : Fspath

abbrev pub unsafe_path : String
unsafe_path = "workspace.unsafe_path"

-- `value.replace("\\", "/")`
unfoldable pub portable : Text → Text
portable [] = []
portable (c ∷ value) = (if nat_eq c b'\\' then b'/' else c) ∷ portable value

abbrev pub starts_with_slash : Text → Bool
starts_with_slash [] = false
starts_with_slash (c ∷ value) = nat_eq c b'/'

abbrev pub is_letter : ℕ → Bool
is_letter c = leb b'A' c && leb c b'Z' || leb b'a' c && leb c b'z'

-- `_WINDOWS_DRIVE.match`
abbrev pub has_drive : Text → Bool
has_drive (c ∷ d ∷ value) = is_letter c && nat_eq d b':'
has_drive _ = false

abbrev pub push : ℕ → List Text → List Text
push c [] = (c ∷ []) ∷ []
push c (part ∷ parts) = (c ∷ part) ∷ parts

-- `portable.split("/")`
unfoldable pub split : Text → List Text
split [] = [] ∷ []
split (c ∷ value) = let parts = split value in if nat_eq c b'/' then [] ∷ parts else push c parts

-- `part in {"", ".", ".."} or ":" in part`
unfoldable pub is_unsafe : Text → Bool
is_unsafe [] = true
is_unsafe (c ∷ []) = nat_eq c b'.' || nat_eq c b':'
is_unsafe (c ∷ d ∷ []) = nat_eq c b'.' && nat_eq d b'.' || any (λ x. nat_eq x b':') (c ∷ d ∷ [])
is_unsafe part = any (λ x. nat_eq x b':') part

abbrev pub is_empty : Text → Bool
is_empty [] = true
is_empty (c ∷ value) = false

-- `_relative_parts`
unfoldable pub relative_parts : Fspath → Result (List Text)
relative_parts Fspath.type_error = err "workspace.invalid_path_type"
relative_parts Fspath.bytes = err "workspace.invalid_path_type"
relative_parts (Fspath.str value) =
    if is_empty value || any (λ c. nat_eq c 0) value
    then err unsafe_path
    else if starts_with_slash (portable value) || has_drive (portable value)
    then err unsafe_path
    else if any is_unsafe (split (portable value))
    then err unsafe_path
    else ok (split (portable value))

-- What `lstat` finds: nothing, another error, or the two tests that are made on its result.
pub data Lstat : Type 0 where
  not_found : Lstat
  os_error : Lstat
  found : (is_link is_directory : Bool) → Lstat

-- What `mkdir` does: it makes the directory, or finds something there, or fails otherwise.
pub data Mkdir : Type 0 where
  made : Mkdir
  exists : Mkdir
  failed : Mkdir

-- The calls of the file system, on the paths below the root.
pub record FileSystem (S : Type 0) : Type 0 where
  pub lstat : List Text → S → Lstat
  pub mkdir : List Text → S → Mkdir × S

-- `index == len(parts) - 1`
abbrev pub is_last : List Text → Bool
is_last [] = true
is_last (part ∷ parts) = false

-- One round of the loop of `_inspect`; `rest` is what the further rounds come to.
abbrev pub after_lstat :
    (here parts : List Text) (must_exist : Bool) (rest : Result (List Text))
    → Lstat
    → Result (List Text)
after_lstat here parts must_exist rest Lstat.not_found =
    if must_exist then err "workspace.path_missing" else ok (here ++ parts)
after_lstat here parts must_exist rest Lstat.os_error = err "workspace.path_unavailable"
after_lstat here parts must_exist rest (Lstat.found is_link is_directory) =
    if is_link
    then err "workspace.symlink_escape"
    else if not (is_last parts) && not is_directory
    then err "workspace.non_directory_parent"
    else rest

module _ {S : Type 0} (fs : FileSystem S) where
  -- The loop of `_inspect`; `current` is the part of the path that is done.
  unfoldable pub inspect_from :
      (current : List Text) → List Text → (must_exist : Bool) → S → Result (List Text)
  inspect_from current [] must_exist s = ok current
  inspect_from current (part ∷ parts) must_exist s =
      let here = current ++ part ∷ [] in
      let rest = inspect_from here parts must_exist s in
      after_lstat here parts must_exist rest (fs.lstat here s)

  unfoldable pub for_read : Fspath → S → Result (List Text)
  for_read relative s = bind (relative_parts relative) (λ parts. inspect_from [] parts true s)

  unfoldable pub for_write : Fspath → S → Result (List Text)
  for_write relative s = bind (relative_parts relative) (λ parts. inspect_from [] parts false s)

  -- The loop of `ensure_directory`.
  unfoldable pub ensure_from : (current : List Text) → List Text → Tx S (List Text)
  ensure_from current [] s = (ok current, s)
  ensure_from current (part ∷ parts) s =
      let here = current ++ part ∷ [] in
      let (answer, s') = fs.mkdir here s in
      elim answer [
        | Mkdir.failed ↦ (err "workspace.directory_create_failed", s')
        | _ ↦ elim (fs.lstat here s') [
          | Lstat.found is_link is_directory ↦
              if is_link || not is_directory
              then (err unsafe_path, s')
              else ensure_from here parts s'
          | _ ↦ (err "workspace.path_unavailable", s')
        ]
      ]

  unfoldable pub ensure_directory : Fspath → Tx S (List Text)
  ensure_directory relative s = elim (relative_parts relative) [
    | ok parts ↦ ensure_from [] parts s
    | err e ↦ (err e, s)
  ]
