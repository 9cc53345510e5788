-- ===== src/Path.antt =====
-- Virtual paths (src/path.ts, and `PathSchema` of src/schema.ts). A text is a list of UTF-16 code
-- units. `split` and `join` are the string methods for one separating code unit.
use mathlib.Core.List.{reverse}
use mathlib.Core.List
use opfs.Prelude.{
  ℕ, Option, none, some, Bool, true, false, not, ◌&&◌, ◌||◌, List, [], ◌∷◌, ◌++◌, Text, codes, same,
  ◌==◌, if◌then◌else◌,
}
use opfs.Failure.{Result, ok, throw, fail, type_error, invalid_path, ◌>>=◌, ◌>>◌}
pub mod Segments
pub mod Normal
pub mod Canonical
pub mod Schema
pub mod Names
pub mod Parents
pub mod Ancestor
pub mod Tests

abbrev pub slash : ℕ
slash = b'/'

abbrev pub backslash : ℕ
backslash = 92

abbrev pub dot : Text
dot = 46 ∷ []

abbrev pub dot_dot : Text
dot_dot = 46 ∷ 46 ∷ []

abbrev pub root_path : Text
root_path = slash ∷ []

-- `text.includes(c)` for one code unit.
unfoldable pub includes : ℕ → Text → Bool
includes c [] = false
includes c (d ∷ s) = d == c || includes c s

-- The first piece of a split takes one more code unit.
abbrev pub extend_first : ℕ → List Text → List Text
extend_first c [] = (c ∷ []) ∷ []
extend_first c (p ∷ ps) = (c ∷ p) ∷ ps

-- `text.split(sep)`.
unfoldable pub split : ℕ → Text → List Text
split sep [] = [] ∷ []
split sep (c ∷ s) = let rest = split sep s in if c == sep then [] ∷ rest else extend_first c rest

-- `parts.join(sep)`.
unfoldable pub join : ℕ → List Text → Text
join sep [] = []
join sep (p ∷ []) = p
join sep (p ∷ q ∷ ps) = p ++ (sep ∷ join sep (q ∷ ps))

-- `/${parts.join("/")}`, and the root for no parts.
unfoldable pub to_path : List Text → Text
to_path [] = root_path
to_path (p ∷ ps) = slash ∷ join slash (p ∷ ps)

abbrev pub drop_last : List Text → List Text
drop_last [] = []
drop_last (p ∷ []) = []
drop_last (p ∷ q ∷ ps) = p ∷ drop_last (q ∷ ps)

-- `..` at the root is the failure.
abbrev pub pop : Text → List Text → Result (List Text)
pop path [] = fail invalid_path "path" (some path)
pop path (p ∷ ps) = ok (drop_last (p ∷ ps))

-- One round of the loop of `normalizePath`.
unfoldable pub resolve_part : Text → List Text → Text → Result (List Text)
resolve_part path parts part =
    if same part [] || same part dot
    then ok parts
    else if same part dot_dot
    then pop path parts
    else ok (parts ++ part ∷ [])

unfoldable pub resolve_parts : Text → List Text → List Text → Result (List Text)
resolve_parts path parts [] = ok parts
resolve_parts path parts (part ∷ rest) = do
  next ← resolve_part path parts part
  resolve_parts path next rest

unfoldable pub normalize_path : Text → Result Text
normalize_path path =
    if includes 0 path
    then fail invalid_path "path" (some path)
    else if includes backslash path
    then fail invalid_path "path" (some path)
    else (do parts ← resolve_parts path [] (split slash path); ok (to_path parts))

-- `normalized.slice(1).split("/")`.
unfoldable pub split_normalized : Text → List Text
split_normalized normalized =
    if same normalized root_path then [] else split slash (List.tail normalized)

unfoldable pub split_path : Text → Result (List Text)
split_path path = do normalized ← normalize_path path; ok (split_normalized normalized)

unfoldable pub join_path : List Text → Result Text
join_path [] = ok root_path
join_path (p ∷ ps) = normalize_path (join slash (p ∷ ps))

unfoldable pub dirname : Text → Result Text
dirname path = do parts ← split_path path; ok (to_path (drop_last parts))

abbrev pub last_or_empty : List Text → Text
last_or_empty [] = []
last_or_empty (p ∷ []) = p
last_or_empty (p ∷ q ∷ ps) = last_or_empty (q ∷ ps)

unfoldable pub basename : Text → Result Text
basename path = do parts ← split_path path; ok (last_or_empty parts)

-- `text.startsWith(prefix)`.
unfoldable pub starts_with : Text → Text → Bool
starts_with s [] = true
starts_with [] (d ∷ t) = false
starts_with (c ∷ s) (d ∷ t) = c == d && starts_with s t

unfoldable pub contains_path : Text → Text → Bool
contains_path parent child =
    if same parent child
    then false
    else same parent root_path || starts_with child (parent ++ slash ∷ [])

unfoldable pub is_ancestor_path : Text → Text → Result Bool
is_ancestor_path ancestor path = do
  parent ← normalize_path ancestor
  child ← normalize_path path
  ok (contains_path parent child)

unfoldable pub is_valid_name : Text → Bool
is_valid_name name = not (
    same name []
    || same name dot
    || same name dot_dot
    || includes slash name
    || includes backslash name
    || includes 0 name)

unfoldable pub validate_name : Text → Result Text
validate_name name = if is_valid_name name then ok name else throw type_error

-- `PathSchema`.
unfoldable pub ends_with_slash : Text → Bool
ends_with_slash [] = false
ends_with_slash (c ∷ []) = c == slash
ends_with_slash (c ∷ d ∷ s) = ends_with_slash (d ∷ s)

unfoldable pub includes_double_slash : Text → Bool
includes_double_slash [] = false
includes_double_slash (c ∷ []) = false
includes_double_slash (c ∷ d ∷ s) = (c == slash && d == slash) || includes_double_slash (d ∷ s)

unfoldable pub every_part : List Text → Bool
every_part [] = true
every_part (p ∷ ps) = not (same p [] || same p dot || same p dot_dot) && every_part ps

unfoldable pub path_schema : Text → Bool
path_schema value =
    same value root_path
    || (starts_with value root_path
        && not (ends_with_slash value)
        && not (includes_double_slash value)
        && not (includes backslash value)
        && not (includes 0 value)
        && every_part (List.tail (split slash value)))
