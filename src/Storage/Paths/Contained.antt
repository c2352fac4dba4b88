-- ===== src/Storage/Paths/Contained.antt =====
-- What `for_read` has checked of a path that it returns.
use mathlib.Core.Path.{subst}
use model_forge.Prelude.{
  ◌≡◌, refl, sym, ap, ◌∙◌, Bool, true, false, ◌||◌, List, [], ◌∷◌, ◌++◌, Result, ok, bind-ok, arith,
}
use model_forge.Storage.Paths.{
  Text, Fspath, Lstat, FileSystem, is_last, relative_parts, after_lstat, inspect_from, for_read,
}

append_nil : (xs : List Text) → xs ++ [] ≡ xs
append_nil [] = refl
append_nil (x ∷ xs) = ap (λ rest. x ∷ rest) (append_nil xs)

append_assoc : (xs ys zs : List Text) → (xs ++ ys) ++ zs ≡ xs ++ (ys ++ zs)
append_assoc [] ys zs = refl
append_assoc (x ∷ xs) ys zs = ap (λ rest. x ∷ rest) (append_assoc xs ys zs)

module _ {S : Type 0} (fs : FileSystem S) where
  -- Below `current` every part is there and is no link, and all but the last are directories.
  abbrev pub IsReal : (current : List Text) → List Text → S → Type 0
  IsReal current [] s = Unit
  IsReal current (part ∷ parts) s =
      (is_directory : Bool) × (fs.lstat (current ++ part ∷ []) s ≡ Lstat.found false is_directory)
      × ((is_last parts || is_directory) ≡ true)
      × IsReal (current ++ part ∷ []) parts s

  after_lstat-ok :
      (here parts : List Text) (rest : Result (List Text)) (answer : Lstat) {path : List Text}
      → after_lstat here parts true rest answer ≡ ok path
      → (is_directory : Bool) × (answer ≡ Lstat.found false is_directory)
        × ((is_last parts || is_directory) ≡ true)
        × (rest ≡ ok path)
  after_lstat-ok here parts rest Lstat.not_found e = cc
  after_lstat-ok here parts rest Lstat.os_error e = cc
  after_lstat-ok here parts rest (Lstat.found true is_directory) e = cc
  after_lstat-ok here parts rest (Lstat.found false is_directory) e =
      (is_directory, refl, ground (arith, e), ground (arith, e))

  inspect_from-ok :
      (current parts : List Text) (s : S) {path : List Text}
      → inspect_from fs current parts true s ≡ ok path
      → (path ≡ current ++ parts) × IsReal current parts s
  unfolding inspect_from
  inspect_from-ok current [] s e = (cc (append_nil current), tt)
  inspect_from-ok current (part ∷ parts) s e =
      let here = current ++ part ∷ [] in
      let (is_directory, there, parent, more) =
        after_lstat-ok here parts (inspect_from fs here parts true s) (fs.lstat here s) e in
      let (same, real) = inspect_from-ok here parts s more in
      (same ∙ append_assoc current (part ∷ []) parts, (is_directory, there, parent, real))

  -- A path that `for_read` returns has the parts of its argument below the root; each of them is there
  -- and is no link, and all but the last are directories.
  pub for_read_contained :
      (relative : Fspath) (s : S) {path : List Text}
      → for_read fs relative s ≡ ok path
      → (relative_parts relative ≡ ok path) × IsReal [] path s
  unfolding for_read
  for_read_contained relative s e =
      let (parts, split, more) = bind-ok (relative_parts relative) _ e in
      let (same, real) = inspect_from-ok [] parts s more in
      (split ∙ ap ok (sym same), subst (λ p. IsReal [] p s) (sym same) real)
