-- ===== src/Path/Tests.antt =====
-- Runs of the path functions, among them those of tests/path.test.ts.
use opfs.Prelude.{
  ◌≡◌, ◌≢◌, ◌↔◌, refl, some, List, Text, ◌∷◌, ◌++◌, [], All, codes, same, true, false,
}
use opfs.Failure.{ok, fail, invalid_path}
use opfs.Path.{
  includes, split, join, to_path, resolve_part, resolve_parts, normalize_path, split_normalized,
  split_path, join_path, dirname, basename, starts_with, contains_path, is_ancestor_path,
  path_schema, ends_with_slash, includes_double_slash, every_part, is_valid_name, validate_name,
  root_path,
}
use opfs.Path.Segments.{IsSegment, IsSegment-of_valid}
use opfs.Path.Canonical.{
  IsCanonical, normalize_path-IsCanonical, normalize_path-idempotent, split_path-to_path,
}
use opfs.Path.Schema.{path_schema_iff_normal}
use opfs.Path.Names.{join_path-child, rejoined, rejoined-eq-normalize_path, validate_name_iff}
use opfs.Path.Ancestor.{IsStrictPrefix, is_ancestor_path_iff}

normalize_path_runs :
    (normalize_path (codes "a/./b/../c") ≡ ok (codes "/a/c"))
    × (normalize_path (codes "../../outside")
        ≡ fail invalid_path "path" (some (codes "../../outside")))
    × (normalize_path (codes "") ≡ ok (codes "/"))
unfolding normalize_path resolve_parts resolve_part split includes to_path join same
normalize_path_runs = (refl, refl, refl)

dirname_runs :
    (dirname (codes "/a/c") ≡ ok (codes "/a"))
    × (basename (codes "/a/c") ≡ ok (codes "c"))
    × (split_path (codes "/a/c") ≡ ok (codes "a" ∷ codes "c" ∷ []))
    × (join_path (codes "/a" ∷ codes "b" ∷ codes "../c" ∷ []) ≡ ok (codes "/a/c"))
unfolding dirname basename split_path split_normalized join_path normalize_path resolve_parts
    resolve_part split includes to_path join same
dirname_runs = (refl, refl, refl, refl)

is_ancestor_path_runs :
    (is_ancestor_path (codes "/a") (codes "/a/b") ≡ ok true)
    × (is_ancestor_path (codes "/a") (codes "/ab") ≡ ok false)
    × (is_ancestor_path (codes "/") (codes "/ab") ≡ ok true)
unfolding is_ancestor_path contains_path starts_with normalize_path resolve_parts resolve_part split
    includes to_path join same
is_ancestor_path_runs = (refl, refl, refl)

path_schema_runs :
    (path_schema (codes "/a/b") ≡ true)
    × (path_schema (codes "/a//b") ≡ false)
    × (path_schema (codes "/a/../b") ≡ false)
unfolding path_schema ends_with_slash includes_double_slash every_part starts_with split includes
    same
path_schema_runs = (refl, refl, refl)

abbrev folder : List Text
folder = codes "a" ∷ codes "b" ∷ []

name_IsSegment : IsSegment (codes "c")
unfolding is_valid_name includes same
name_IsSegment = IsSegment-of_valid (codes "c") refl

folder-All : All IsSegment folder
unfolding is_valid_name includes same
folder-All = (IsSegment-of_valid (codes "a") refl, (IsSegment-of_valid (codes "b") refl, tt))

relative_resolved : normalize_path (codes "a/./b/../c") ≡ ok (codes "/a/c")
unfolding normalize_path resolve_parts resolve_part split includes to_path join same
relative_resolved = refl

not_root : codes "/a/c" ≢ root_path
not_root = λ e. cc

normalize_path-IsCanonical_example : IsCanonical (codes "/a/c")
normalize_path-IsCanonical_example =
    normalize_path-IsCanonical (codes "a/./b/../c") (codes "/a/c") relative_resolved

normalize_path-idempotent_example : normalize_path (codes "/a/c") ≡ ok (codes "/a/c")
normalize_path-idempotent_example =
    normalize_path-idempotent (codes "a/./b/../c") (codes "/a/c") relative_resolved

split_path-to_path_example : split_path (to_path folder) ≡ ok folder
split_path-to_path_example = split_path-to_path folder folder-All

path_schema_iff_normal_example :
    (path_schema (codes "/a//b") ≡ true) ↔ (normalize_path (codes "/a//b") ≡ ok (codes "/a//b"))
path_schema_iff_normal_example = path_schema_iff_normal (codes "/a//b")

join_path-child_example :
    join_path (to_path folder ∷ codes "c" ∷ []) ≡ ok (to_path (folder ++ codes "c" ∷ []))
join_path-child_example = join_path-child folder (codes "c") folder-All name_IsSegment

rejoined-eq-normalize_path_example : rejoined (codes "a/./b/../c") ≡ ok (codes "/a/c")
rejoined-eq-normalize_path_example =
    rejoined-eq-normalize_path (codes "a/./b/../c") (codes "/a/c") relative_resolved not_root

validate_name_iff_example :
    (validate_name (codes "a/b") ≡ ok (codes "a/b"))
    ↔ (split_path (codes "a/b") ≡ ok (codes "a/b" ∷ []))
validate_name_iff_example = validate_name_iff (codes "a/b")

is_ancestor_path_iff_example :
    (is_ancestor_path (to_path folder) (to_path (codes "c" ∷ [])) ≡ ok true)
    ↔ IsStrictPrefix folder (codes "c" ∷ [])
is_ancestor_path_iff_example =
    is_ancestor_path_iff folder (codes "c" ∷ []) folder-All (name_IsSegment, tt)
