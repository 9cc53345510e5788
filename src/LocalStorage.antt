-- ===== src/LocalStorage.antt =====
-- The Web Storage backend (src/driver/localstorage.ts): records under encoded keys in one storage area.
-- `encodeURIComponent`, `decodeURIComponent`, JSON and the storage area are parameters.
use opfs.Prelude.{
  ℕ, suc, ◌≡◌, Option, none, some, Bool, true, false, ◌&&◌, List, [], ◌∷◌, ◌++◌, Text, same, length,
  drop, ◌==◌, if◌then◌else◌,
}
use opfs.Failure.{Result, ok, throw, Thrown}
use opfs.Exec.{Exec, pure, lift, ◌>>=◌}
use opfs.Path.{normalize_path, split_path, starts_with}
use opfs.Adapter.{is_empty}
use opfs.Record.{StoredRecord, parse_record}
pub mod Views
pub mod Refinement
pub mod Tests

-- `encodeURIComponent`, which throws a `URIError` on a lone surrogate, and its inverse.
pub record UriText : Type 0 where
  pub encode : Text → Result Text
  pub decode : Text → Result Text
  pub decode-encode : (t e : Text) → encode t ≡ ok e → decode e ≡ ok t

-- `JSON.stringify` of a record, and `JSON.parse` to the shape of one.
pub record RecordJson : Type 0 where
  pub stringify : StoredRecord → Text
  pub parse : Text → Result StoredRecord
  pub parse-stringify : (r : StoredRecord) → parse (stringify r) ≡ ok r

-- `LocalStorageType`. A refused `setItem` does nothing.
pub record WebStorage (S : Type 0) : Type 0 where
  pub get_item : Text → S → Option Text
  pub set_item : Text → Text → Exec S (Unit {0})
  pub remove_item : Text → S → S
  pub keys : S → List Text
  pub get_item-set_item :
      (key value : Text) (s t : S) (q : Text)
      → set_item key value s ≡ (ok tt, t)
      → get_item q t ≡ (if same key q then some value else get_item q s)
  pub set_item_refused :
      (key value : Text) (s t : S) (e : Thrown) → set_item key value s ≡ (throw e, t) → t ≡ s
  pub get_item-remove_item :
      (key : Text) (s : S) (q : Text)
      → get_item q (remove_item key s) ≡ (if same key q then none else get_item q s)

abbrev pub colon : ℕ
colon = b':'

-- `.replace(/:+$/g, "")`.
unfoldable pub strip_colons : Text → Text
strip_colons [] = []
strip_colons (c ∷ s) =
    let rest = strip_colons s in if is_empty rest && c == colon then [] else c ∷ rest

abbrev pub default_prefix : Text
default_prefix = b'o' ∷ b'p' ∷ b'f' ∷ b's' ∷ []

abbrev pub or_default : Text → Text
or_default [] = default_prefix
or_default (c ∷ s) = c ∷ s

unfoldable pub storage_prefix : Option Text → Text
storage_prefix none = default_prefix
storage_prefix (some prefix) = or_default (strip_colons prefix)

module _ {S : Type 0} (uri : UriText) (json : RecordJson) (storage : WebStorage S)
    (prefix : Text) where
  abbrev pub keyed : Result Text → Result Text
  keyed (throw e) = throw e
  keyed (ok encoded) = ok (prefix ++ (colon ∷ encoded))

  unfoldable pub get_key : Text → Result Text
  get_key path = keyed (uri.encode path)

  abbrev pub path_of_decoded : Result Text → Option Text
  path_of_decoded (throw e) = none
  path_of_decoded (ok text) = elim (normalize_path text) [ throw e ↦ none | ok path ↦ some path ]

  unfoldable pub get_path : Text → Option Text
  get_path key =
      if starts_with key (prefix ++ colon ∷ [])
      then path_of_decoded (uri.decode (drop (length (prefix ++ colon ∷ [])) key))
      else none

  -- `RecordSchema.parse(JSON.parse(value))`.
  abbrev pub schema_parsed : Result StoredRecord → Result StoredRecord
  schema_parsed (throw e) = throw e
  schema_parsed (ok r) = parse_record r

  unfoldable pub read_value : Text → Result StoredRecord
  read_value value = schema_parsed (json.parse value)

  abbrev pub optional : Result StoredRecord → Result (Option StoredRecord)
  optional (throw e) = throw e
  optional (ok r) = ok (some r)

  abbrev pub read_item : Option Text → Result (Option StoredRecord)
  read_item none = ok none
  read_item (some value) = optional (read_value value)

  unfoldable pub get_stored : Text → Exec S (Option StoredRecord)
  get_stored path = do
    key ← lift (get_key path)
    item ← (λ s. (ok (storage.get_item key s), s))
    lift (read_item item)

  unfoldable pub set_stored : StoredRecord → Exec S (Unit {0})
  set_stored r = do key ← lift (get_key r.path); storage.set_item key (json.stringify r)

  unfoldable pub delete_stored : Text → Exec S (Unit {0})
  delete_stored path = do key ← lift (get_key path); (λ s. (ok tt, storage.remove_item key s))

  -- `list`: the records at the keys of paths one level below the parent.
  abbrev pub depth_of : Result (List Text) → Result ℕ
  depth_of (throw e) = throw e
  depth_of (ok parts) = ok (length parts)

  abbrev pub is_depth : ℕ → Result ℕ → Bool
  is_depth n (ok m) = m == n
  is_depth n (throw e) = false

  abbrev pub is_candidate : ℕ → Option Text → Bool
  is_candidate depth none = false
  is_candidate depth (some path) = is_depth (suc depth) (depth_of (split_path path))

  abbrev pub keep_child : Text → StoredRecord → List StoredRecord → List StoredRecord
  keep_child parent r rest = if same r.parent parent then r ∷ rest else rest

  abbrev pub prepend_child :
      Text → Result StoredRecord → Result (List StoredRecord) → Result (List StoredRecord)
  prepend_child parent (throw e) rest = throw e
  prepend_child parent (ok r) (throw e) = throw e
  prepend_child parent (ok r) (ok rest) = ok (keep_child parent r rest)

  abbrev pub list_item :
      Text → Option Text → Result (List StoredRecord) → Result (List StoredRecord)
  list_item parent none rest = rest
  list_item parent (some value) rest = prepend_child parent (read_value value) rest

  unfoldable pub list_keys : Text → ℕ → S → List Text → Result (List StoredRecord)
  list_keys parent depth s [] = ok []
  list_keys parent depth s (key ∷ keys) =
      let rest = list_keys parent depth s keys in
      if is_candidate depth (get_path key)
      then list_item parent (storage.get_item key s) rest
      else rest

  unfoldable pub list_stored : Text → Exec S (List StoredRecord)
  list_stored parent = do
    depth ← lift (depth_of (split_path parent))
    (λ s. (list_keys parent depth s (storage.keys s), s))
