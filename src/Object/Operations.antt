-- ===== src/Object/Operations.antt =====
-- The methods of the object adapter (`ObjectAdapter` of src/adapter/object.ts). The loop over the
-- pages of a listing has fuel, one round for each page.
use mathlib.Core.List.{flatten}
use opfs.Prelude.{
  ℕ, zero, suc, Option, none, some, Bool, true, false, not, ◌&&◌, ◌||◌, List, [], ◌∷◌, Text, same,
  length, if◌then◌else◌,
}
use opfs.Failure.{
  Result, ok, throw, fail, range_error, not_found, type_mismatch, invalid_operation, not_supported,
  unknown, AbortSignal, throw_if_aborted,
}
use opfs.Bytes.{Bytes, WriteMode, replace, append, update, apply_write, or_else}
use opfs.Exec.{Exec, pure, lift, ◌>>=◌, ◌>>◌}
use opfs.Path.{root_path}
use opfs.Adapter.{
  Adapter, ReadOptions, WriteOptions, Stat, file_stat, directory_stat, DirectoryEntry, Capabilities,
  defined, is_empty,
}
use opfs.Object.{
  ObjectStat, ObjectPage, PutOptions, ObjectDriver, directory_value, file_key, directory_key,
  Listing, note_page,
}

-- `DirectoryEvidenceType`, with the time of a marker where there is one.
abbrev pub Evidence : Type 0
Evidence = Option (Option ℕ)

abbrev pub is_replace : WriteMode → Bool
is_replace replace = true
is_replace append = false
is_replace update = false

abbrev pub is_marker : Option ObjectStat → Bool
is_marker none = false
is_marker (some s) = elim s.marker [ none ↦ false | some value ↦ same value directory_value ]

abbrev pub modified_of : Option ObjectStat → Option ℕ
modified_of none = none
modified_of (some s) = s.last_modified

-- `previous?.etag ? { ifMatch } : {}`: an empty tag is no tag.
abbrev pub usable_tag : Option ObjectStat → Option Text
usable_tag none = none
usable_tag (some s) = elim s.etag [
  | none ↦ none
  | some tag ↦ if is_empty tag then none else some tag
]

abbrev pub lacks_tag : Option ObjectStat → Bool
lacks_tag none = false
lacks_tag (some s) = not (defined s.etag)

module _ {S : Type 0} (driver : ObjectDriver S) (prefix : Text) where
  unfoldable pub get_file_object : Text → Option AbortSignal → Exec S (Option ObjectStat)
  get_file_object path signal = driver.head (file_key prefix path) signal

  abbrev pub page_evidence : ObjectPage → Evidence
  page_evidence page = if is_empty page.objects && is_empty page.prefixes then none else some none

  unfoldable pub directory_below : Text → Option AbortSignal → Exec S Evidence
  directory_below key signal = do
    marker ← driver.head key signal
    (if is_marker marker
        then pure (some (modified_of marker))
        else (do page ← driver.list key (some 1) none signal; pure (page_evidence page)))

  -- `#getDirectory`.
  unfoldable pub get_directory : Text → Option AbortSignal → Exec S Evidence
  get_directory path signal =
      if same path root_path
      then pure (some none)
      else directory_below (directory_key prefix path) signal

  abbrev pub stat_of_evidence : Evidence → Option Stat
  stat_of_evidence none = none
  stat_of_evidence (some modified) = some (directory_stat modified)

  abbrev pub stat_found : Text → Option AbortSignal → Option ObjectStat → Exec S (Option Stat)
  stat_found path signal (some s) =
      pure (some (file_stat s.size (or_else s.last_modified 0) (or_else s.media_type [])))
  stat_found path signal none = do
    evidence ← get_directory path signal
    pure (stat_of_evidence evidence)

  unfoldable pub object_stat : Text → Option AbortSignal → Exec S (Option Stat)
  object_stat path signal = do
    lift (throw_if_aborted signal "stat" (some path))
    (if same path root_path
        then pure (some (directory_stat none))
        else (do found ← get_file_object path signal; stat_found path signal found))

  unfoldable pub open_object : Text → ReadOptions → Exec S (List Bytes)
  open_object path options = do
    lift (throw_if_aborted options.signal "read" (some path))
    found ← get_file_object path options.signal
    lift (if defined found then ok tt else fail not_found "read" (some path))
    driver.get (file_key prefix path) options

  unfoldable pub read_object : Text → ReadOptions → Exec S Bytes
  read_object path options = do chunks ← open_object path options; pure (flatten chunks)

  -- The check that no directory stands where a file is written.
  abbrev pub refuse_directory : Text → Evidence → Result (Unit {0})
  refuse_directory path none = ok tt
  refuse_directory path (some modified) = fail type_mismatch "write" (some path)

  unfoldable pub assert_no_directory :
      Text → Option AbortSignal → Option ObjectStat → Exec S (Unit {0})
  assert_no_directory path signal (some s) = pure tt
  assert_no_directory path signal none = do
    evidence ← get_directory path signal
    lift (refuse_directory path evidence)

  abbrev pub current_bytes : Text → Option AbortSignal → Option ObjectStat → Exec S Bytes
  current_bytes path signal none = pure []
  current_bytes path signal (some s) = do
    chunks ← driver.get (file_key prefix path) (record { at = none; size = none; signal = signal })
    pure (flatten chunks)

  -- The image that a write stores.
  unfoldable pub next_image : Text → Bytes → WriteOptions → Option ObjectStat → Exec S Bytes
  next_image path bytes options previous = if is_replace options.mode then pure bytes else (do
    lift (
        if driver.capabilities.conditional_write && lacks_tag previous
        then fail unknown "write" (some path)
        else ok tt)
    current ← current_bytes path options.signal previous
    pure (apply_write current bytes options.mode options.at options.truncate))

  abbrev pub put_options : WriteOptions → Option ObjectStat → ℕ → PutOptions
  put_options options previous size = record {
    size = some size;
    media_type = options.media_type;
    marker = none;
    if_match = if driver.capabilities.conditional_write then usable_tag previous else none;
    if_none_match =
        driver.capabilities.conditional_write
        && not (defined previous)
        && not (is_replace options.mode);
    signal = options.signal;
  }

  unfoldable pub write_object : Text → Bytes → WriteOptions → Exec S (Unit {0})
  write_object path bytes options = do
    lift (throw_if_aborted options.signal "write" (some path))
    previous ← get_file_object path options.signal
    assert_no_directory path options.signal previous
    next ← next_image path bytes options previous
    driver.put (file_key prefix path) (next ∷ []) (put_options options previous (length next))

  unfoldable pub write_object_stream : Text → List Bytes → WriteOptions → Exec S (Unit {0})
  write_object_stream path chunks options = do
    lift (if is_replace options.mode then ok tt else fail not_supported "write" (some path))
    previous ← get_file_object path options.signal
    assert_no_directory path options.signal previous
    driver.put (file_key prefix path) chunks (record {
      size = none;
      media_type = options.media_type;
      marker = none;
      if_match = none;
      if_none_match = false;
      signal = options.signal;
    })

  -- `readDir`, to the end of its pages.
  unfoldable pub list_pages :
      ℕ → Text → Option AbortSignal → Option Text → Listing → Exec S (List DirectoryEntry)
  list_pages zero parent signal cursor l = lift (throw range_error)
  list_pages (suc fuel) parent signal cursor l = do
    page ← driver.list parent none cursor signal
    elim page.cursor [
      | none ↦ pure (note_page parent page l).yielded
      | some next ↦ list_pages fuel parent signal (some next) (note_page parent page l)
    ]

  unfoldable pub list_objects : ℕ → Text → Option AbortSignal → Exec S (List DirectoryEntry)
  list_objects fuel path signal = do
    lift (throw_if_aborted signal "read-dir" (some path))
    list_pages fuel (directory_key prefix path) signal none (record { seen = []; yielded = [] })

  unfoldable pub create_marker : Text → Option AbortSignal → Evidence → Exec S (Unit {0})
  create_marker path signal (some modified) = pure tt
  create_marker path signal none = driver.put (directory_key prefix path) ([] ∷ []) (record {
    size = some 0;
    media_type = none;
    marker = some directory_value;
    if_match = none;
    if_none_match = false;
    signal = signal;
  })

  unfoldable pub create_object_dir : Text → Option AbortSignal → Exec S (Unit {0})
  create_object_dir path signal = do
    lift (throw_if_aborted signal "mkdir" (some path))
    found ← get_file_object path signal
    lift (if defined found then fail type_mismatch "mkdir" (some path) else ok tt)
    (if same path root_path
        then pure tt
        else (do evidence ← get_directory path signal; create_marker path signal evidence))

  -- `remove`: a file, or the marker of an empty directory.
  unfoldable pub has_other : Text → List Text → Bool
  has_other key [] = false
  has_other key (k ∷ ks) = not (same k key) || has_other key ks

  unfoldable pub remove_directory : Text → Option AbortSignal → Evidence → Exec S (Unit {0})
  remove_directory path signal none = pure tt
  remove_directory path signal (some modified) = do
    let key = directory_key prefix path
    page ← driver.list (directory_key prefix path) (some 2) none signal
    lift (
        if not (is_empty page.prefixes) || has_other (directory_key prefix path) page.objects
        then fail invalid_operation "remove" (some path)
        else ok tt)
    driver.delete (directory_key prefix path) signal

  unfoldable pub remove_object : Text → Option AbortSignal → Exec S (Unit {0})
  remove_object path signal = do
    lift (throw_if_aborted signal "remove" (some path))
    found ← get_file_object path signal
    (if defined found
        then driver.delete (file_key prefix path) signal
        else (do evidence ← get_directory path signal; remove_directory path signal evidence))

  unfoldable pub copy_object :
      Option (Text → Text → Option AbortSignal → Exec S (Unit {0}))
      → Text
      → Text
      → Exec S (Unit {0})
  copy_object none source destination = lift (fail not_supported "copy" (some source))
  copy_object (some copy) source destination =
      if driver.capabilities.copy
      then copy (file_key prefix source) (file_key prefix destination) none
      else lift (fail not_supported "copy" (some source))

  unfoldable pub dispose_object : Bool → Option (Exec S (Unit {0})) → Exec S (Unit {0})
  dispose_object owned none = pure tt
  dispose_object owned (some dispose) = if owned then dispose else pure tt

  abbrev pub object_capabilities : Capabilities
  object_capabilities = record {
    read = true;
    write = true;
    stream_read = driver.capabilities.stream_read;
    stream_write_modes = if driver.capabilities.stream_write then replace ∷ [] else [];
    range_read = driver.capabilities.range_read;
    native_copy = driver.capabilities.copy;
    native_move = false;
    positional_write = false;
    sync_access = false;
  }

  -- `createObjectAdapter`, with the fuel of its listings.
  unfoldable pub object_adapter : ℕ → Adapter S
  object_adapter fuel = record {
    capabilities = object_capabilities;
    partition = none;
    stat = object_stat;
    read_file = read_object;
    write_file = write_object;
    read_dir = list_objects fuel;
    create_dir = create_object_dir;
    remove = remove_object;
    open_read_stream = some open_object;
    write_stream = some write_object_stream;
    copy = some (λ source destination overwrite. copy_object driver.copy source destination);
    move = none;
    has_open_writable_file = false;
    has_open_sync_file = false;
  }
