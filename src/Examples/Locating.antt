-- ===== src/Examples/Locating.antt =====
-- The theorems on the paths of a workspace, at the path `a\b`.
use model_forge.Prelude.{◌≡◌, refl, true, false, List, [], ◌∷◌, all, ok}
use model_forge.Storage.Paths.{
  Text, Fspath, FileSystem, Lstat, Mkdir, portable, split, is_unsafe, is_last, relative_parts,
  inspect_from, for_read,
}
use model_forge.Storage.Paths.Parts.{is_safe, join_parts, relative_parts_safe}
use model_forge.Storage.Paths.RoundTrip.{relative_parts-join_parts}
use model_forge.Storage.Paths.Contained.{IsReal, for_read_contained}

abbrev path : Text
path = b'a' ∷ b'\\' ∷ b'b' ∷ []

abbrev parts : List Text
parts = (b'a' ∷ []) ∷ (b'b' ∷ []) ∷ []

abbrev directories : FileSystem (Unit {0})
directories = record {
  lstat = λ path s. Lstat.found false true;
  mkdir = λ path s. (Mkdir.exists, s);
}

accepted : relative_parts (Fspath.str path) ≡ ok parts
unfolding portable split is_unsafe relative_parts
accepted = refl

found : for_read directories (Fspath.str path) tt ≡ ok parts
unfolding portable split is_unsafe relative_parts inspect_from for_read
found = refl

relative_parts_safe_example :
    (all is_safe parts ≡ true) × (is_last parts ≡ false) × (join_parts parts ≡ portable path)
relative_parts_safe_example = relative_parts_safe path accepted

relative_parts-join_parts_example : relative_parts (Fspath.str (join_parts parts)) ≡ ok parts
relative_parts-join_parts_example = relative_parts-join_parts parts refl refl

for_read_contained_example :
    (relative_parts (Fspath.str path) ≡ ok parts) × IsReal directories [] parts tt
for_read_contained_example = for_read_contained directories (Fspath.str path) tt found
