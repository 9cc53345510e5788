-- ===== src/Object/Tests.antt =====
-- Witnesses and runs for the object adapter.
use opfs.Prelude.{
  ◌≡◌, inl, inr, refl, none, some, Bool, true, false, ◌&&◌, ◌||◌, [], ◌∷◌, Text, codes, same, arith,
}
use opfs.Failure.{ok, throw_if_aborted}
use opfs.Bytes.{append}
use opfs.Exec.{pure}
use opfs.Path.{
  normalize_path, is_valid_name, join_path, resolve_parts, resolve_part, split, join, to_path,
  includes,
}
use opfs.Adapter.{WriteOptions, defined}
use opfs.Object.{
  ObjectStat, ObjectPage, ObjectDriver, normalize_prefix, strip_leading, strip_trailing,
  directory_key, file_key,
}
use opfs.Object.Operations.{
  write_object, list_objects, get_file_object, assert_no_directory, next_image,
}
use opfs.Object.Keys.{IsReadBack, child_name-file_key}
use opfs.Object.Listed.{Distinct}
use opfs.Object.Pages.{Paged, last, next, page_entries, keep_new, list_objects-Distinct}
use opfs.Object.Guards.{Protects, write_object-Protects}

abbrev prefix : Text
prefix = codes "app/"

prefix_of : normalize_prefix (some (codes "/app//")) ≡ prefix
unfolding normalize_prefix strip_leading strip_trailing same
prefix_of = refl

a_normal : normalize_path (codes "/a") ≡ ok (codes "/a")
unfolding normalize_path resolve_parts resolve_part split join to_path includes same
a_normal = refl

b_valid : is_valid_name (codes "b") ≡ true
unfolding is_valid_name includes same
b_valid = refl

b_joined : join_path (codes "/a" ∷ codes "b" ∷ []) ≡ ok (codes "/a/b")
unfolding join_path normalize_path resolve_parts resolve_part split join to_path includes same
b_joined = refl

child_name-file_key_example : IsReadBack prefix (codes "/a") (codes "/a/b") (codes "b")
child_name-file_key_example =
    child_name-file_key prefix (codes "/a") (codes "b") (codes "/a/b") a_normal b_valid b_joined

-- A provider with two pages, whose state says whether every put had a precondition.
abbrev first_page : ObjectPage
first_page = record {
  objects = codes "app/x" ∷ codes "app/y" ∷ [];
  prefixes = codes "app/d/" ∷ [];
  cursor = some (codes "2");
}

abbrev second_page : ObjectPage
second_page = record { objects = codes "app/y" ∷ codes "app/z" ∷ []; prefixes = []; cursor = none }

abbrev known : ObjectStat
known = record {
  size = 2;
  last_modified = none;
  media_type = none;
  etag = some (codes "v1");
  marker = none;
}

abbrev provider : ObjectDriver Bool
provider = record {
  capabilities = record {
    range_read = true;
    stream_read = true;
    stream_write = true;
    copy = false;
    conditional_write = true;
  };
  head = λ key signal. pure (some known);
  get = λ key options. pure ((1 ∷ 2 ∷ []) ∷ []);
  put = λ key body options s. (ok tt, s && (defined options.if_match || options.if_none_match));
  delete = λ key signal. pure tt;
  list = λ key limit cursor signal. pure (elim cursor [ none ↦ first_page | some c ↦ second_page ]);
  copy = none;
}

not_aborted : throw_if_aborted none "read-dir" (some (codes "/")) ≡ ok tt
unfolding throw_if_aborted
not_aborted = refl

two_pages :
    Paged provider
      (directory_key prefix (codes "/"))
      none
      none
      true
      (first_page ∷ second_page ∷ [])
      true
two_pages = next (codes "2") refl refl (last refl refl)

list_objects-Distinct_example :
    (list_objects provider prefix 2 (codes "/") none true ≡ (
      ok (
          keep_new []
            (page_entries (directory_key prefix (codes "/")) (first_page ∷ second_page ∷ []))),
      true,
    ))
    × Distinct (
        keep_new []
          (page_entries (directory_key prefix (codes "/")) (first_page ∷ second_page ∷ [])))
list_objects-Distinct_example =
    list_objects-Distinct provider prefix 2 (codes "/") none true true
      (first_page ∷ second_page ∷ []) not_aborted two_pages (omega arith)

abbrev AllGuarded : Bool → Type 0
AllGuarded s = s ≡ true

kept_guard : (s t : Bool) → t ≡ true → s ≡ true → (s && t) ≡ true
kept_guard s t h k = ground arith

provider-Protects : Protects provider AllGuarded
provider-Protects = record {
  head_keeps = λ key signal s i. i;
  get_keeps = λ key options s i. i;
  list_keeps = λ key limit cursor signal s i. i;
  put_keeps = λ key body options s g i. elim g [
    | inl guarded ↦ kept_guard s (defined options.if_match || options.if_none_match) guarded i
    | inr (signal, t, found, e, empty) ↦ absurd (tagged found e empty)
  ];
}
  where
    tagged : (found : ObjectStat) → ok (some known) ≡ ok (some found) → ¬ (found.etag ≡ some [])
    tagged found e x = cc

abbrev appending : WriteOptions
appending = record { mode = append; at = none; truncate = false; media_type = none; signal = none }

write_object-Protects_example :
    (write_object provider prefix (codes "/f") (3 ∷ []) appending true).1 ≡ true
write_object-Protects_example =
    write_object-Protects provider prefix provider-Protects (codes "/f") (3 ∷ []) appending true
      refl refl refl

-- A provider whose tags are empty.
abbrev untagged : ObjectStat
untagged = record known { etag = some [] }

abbrev tagless : ObjectDriver Bool
tagless = record provider { head = λ key signal. pure (some untagged) }

-- An append then sends a put without a precondition.
unguarded : (write_object tagless prefix (codes "/f") (3 ∷ []) appending true).1 ≡ false
unfolding write_object get_file_object assert_no_directory next_image file_key throw_if_aborted
unguarded = refl
