-- ===== src/Path/Parents.antt =====
-- The parent and the entry name of a normalised path.
use opfs.Prelude.{◌≡◌, refl, ap, ◌∙◌, true, Text}
use opfs.Failure.{ok}
use opfs.Path.{
  to_path, drop_last, last_or_empty, normalize_path, dirname, basename, split_path, path_schema,
}
use opfs.Path.Segments.{IsSegment}
use opfs.Path.Normal.{drop_last-All}
use opfs.Path.Canonical.{normalize_path-IsCanonical, split_path-to_path}
use opfs.Path.Schema.{path_schema-to_path}

-- The parent of a normalised path is a path that the schema accepts.
pub dirname_of_normal :
    (path : Text)
    → normalize_path path ≡ ok path
    → (d : Text) × (dirname path ≡ ok d) × (path_schema d ≡ true)
unfolding dirname
dirname_of_normal path n =
    let (parts, h, e) = normalize_path-IsCanonical path path n in
    let pieces : split_path path ≡ ok parts = ap split_path e ∙ split_path-to_path parts h in
    (
      to_path (drop_last parts),
      rw pieces refl,
      path_schema-to_path (drop_last parts) (drop_last-All IsSegment parts h),
    )

pub basename_of_normal :
    (path : Text) → normalize_path path ≡ ok path → (b : Text) × (basename path ≡ ok b)
unfolding basename
basename_of_normal path n =
    let (parts, h, e) = normalize_path-IsCanonical path path n in
    let pieces : split_path path ≡ ok parts = ap split_path e ∙ split_path-to_path parts h in
    (last_or_empty parts, rw pieces refl)
