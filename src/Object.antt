-- ===== src/Object.antt =====
-- The contract of an object store (src/driver/object.ts) as the object adapter uses it, over the
-- state `S` of the provider, and the keys and values of src/adapter/object.ts. A byte stream is the
-- list of its chunks. Of an object's metadata only the private marker of directories is kept.
use opfs.Prelude.{
  ℕ, Option, none, some, Bool, true, false, not, ◌&&◌, ◌||◌, List, [], ◌∷◌, ◌++◌, Text, same,
  length, drop, if◌then◌else◌,
}
use opfs.Failure.{AbortSignal}
use opfs.Bytes.{Bytes}
use opfs.Exec.{Exec}
use opfs.Path.{root_path, slash, starts_with, includes}
use opfs.Adapter.{ReadOptions, EntryKind, DirectoryEntry, is_empty}
pub mod Operations
pub mod Keys
pub mod Listed
pub mod Pages
pub mod Guards
pub mod Tests

-- `ObjectStatType`; `marker` is the value of the private metadata key.
pub record ObjectStat : Type 0 where
  pub size : ℕ
  pub last_modified : Option ℕ
  pub media_type : Option Text
  pub etag : Option Text
  pub marker : Option Text

-- `ObjectListType`, with the keys of its objects.
pub record ObjectPage : Type 0 where
  pub objects : List Text
  pub prefixes : List Text
  pub cursor : Option Text

-- `ObjectPutOptionsType`; the only `ifNoneMatch` is `*`.
pub record PutOptions : Type 0 where
  pub size : Option ℕ
  pub media_type : Option Text
  pub marker : Option Text
  pub if_match : Option Text
  pub if_none_match : Bool
  pub signal : Option AbortSignal

pub record ObjectCapabilities : Type 0 where
  pub range_read : Bool
  pub stream_read : Bool
  pub stream_write : Bool
  pub copy : Bool
  pub conditional_write : Bool

-- `ObjectDriverType`. A listing gets its prefix, the limit and the cursor.
pub record ObjectDriver (S : Type 0) : Type 0 where
  pub capabilities : ObjectCapabilities
  pub head : Text → Option AbortSignal → Exec S (Option ObjectStat)
  pub get : Text → ReadOptions → Exec S (List Bytes)
  pub put : Text → List Bytes → PutOptions → Exec S (Unit {0})
  pub delete : Text → Option AbortSignal → Exec S (Unit {0})
  pub list : Text → Option ℕ → Option Text → Option AbortSignal → Exec S ObjectPage
  pub copy : Option (Text → Text → Option AbortSignal → Exec S (Unit {0}))

-- The marker's value, `directory`.
abbrev pub directory_value : Text
directory_value = b'd' ∷ b'i' ∷ b'r' ∷ b'e' ∷ b'c' ∷ b't' ∷ b'o' ∷ b'r' ∷ b'y' ∷ []

unfoldable pub strip_leading : Text → Text
strip_leading [] = []
strip_leading (c ∷ s) = if same (c ∷ []) root_path then strip_leading s else c ∷ s

-- Without the slashes at the end, and without one of them.
unfoldable pub strip_trailing : Text → Text
strip_trailing [] = []
strip_trailing (c ∷ s) =
    let rest = strip_trailing s in if is_empty rest && same (c ∷ []) root_path then [] else c ∷ rest

unfoldable pub strip_last : Text → Text
strip_last [] = []
strip_last (c ∷ []) = if same (c ∷ []) root_path then [] else c ∷ []
strip_last (c ∷ d ∷ s) = c ∷ strip_last (d ∷ s)

unfoldable pub normalize_prefix : Option Text → Text
normalize_prefix none = []
normalize_prefix (some prefix) =
    if is_empty prefix then [] else strip_trailing (strip_leading prefix) ++ slash ∷ []

unfoldable pub file_key : Text → Text → Text
file_key prefix path = prefix ++ drop 1 path

unfoldable pub directory_key : Text → Text → Text
directory_key prefix path =
    if same path root_path then prefix else file_key prefix path ++ slash ∷ []

abbrev pub direct_name : Text → Option Text
direct_name rest = if is_empty rest || includes slash rest then none else some rest

unfoldable pub child_name : Text → Text → Option Text
child_name parent_key key =
    if starts_with key parent_key
    then direct_name (strip_last (drop (length parent_key) key))
    else none

-- The names that a listing has seen, and what it has yielded.
pub record Listing : Type 0 where
  pub seen : List Text
  pub yielded : List DirectoryEntry

unfoldable pub has_seen : List Text → Text → Bool
has_seen [] name = false
has_seen (n ∷ ns) name = same n name || has_seen ns name

abbrev pub note_new : Bool → Text → EntryKind → Listing → Listing
note_new true name kind l = l
note_new false name kind l = record {
  seen = name ∷ l.seen;
  yielded = l.yielded ++ record { name = name; kind = kind } ∷ [];
}

abbrev pub note : Option Text → EntryKind → Listing → Listing
note none kind l = l
note (some name) kind l = note_new (has_seen l.seen name) name kind l

unfoldable pub note_prefixes : Text → List Text → Listing → Listing
note_prefixes parent [] l = l
note_prefixes parent (p ∷ ps) l =
    note_prefixes parent ps (note (child_name parent p) EntryKind.directory l)

abbrev pub kind_of_key : Bool → EntryKind
kind_of_key true = EntryKind.directory
kind_of_key false = EntryKind.file

unfoldable pub note_objects : Text → List Text → Listing → Listing
unfolding opfs.Path.ends_with_slash
note_objects parent [] l = l
note_objects parent (key ∷ keys) l =
    note_objects parent keys
      (note (child_name parent key) (kind_of_key (opfs.Path.ends_with_slash key)) l)

unfoldable pub note_page : Text → ObjectPage → Listing → Listing
note_page parent page l = note_objects parent page.objects (note_prefixes parent page.prefixes l)
