-- ===== src/FileSystem/Iteration.antt =====
-- Listings, walks, snapshots and read streams of the facade, its long-lived files and its end
-- (`readDir`, `walk`, `getFile`, `openReadStream`, `openWritableFile`, `openSyncFile` and `close` of
-- src/filesystem.ts). An iterator is run to its end, and is the list of what it yields; its consumer
-- does nothing in between. A walk has fuel, the depth that is followed.
use opfs.Prelude.{
  ℕ, zero, suc, Option, none, some, Bool, true, false, ◌&&◌, ◌||◌, List, [], ◌∷◌, ◌++◌, Text,
  String, same, ltb, if◌then◌else◌,
}
use opfs.Failure.{
  Result, ok, throw, fail, range_error, not_found, type_mismatch, not_supported, unknown,
  AbortSignal, throw_if_aborted,
}
use opfs.Bytes.{Bytes, replace}
use opfs.Exec.{Exec, pure, lift, ◌>>=◌, ◌>>◌}
use opfs.Path.{root_path, normalize_path, join_path, basename}
use opfs.Adapter.{
  Adapter, ReadOptions, Stat, file_stat, directory_stat, DirectoryEntry, EntryKind, file, directory,
  defined,
}
use opfs.Support.{native, emulated}
use opfs.FileSystem.{
  read_stream_metric, released, recorded, Config, Act, on_store, emit, catch, assert_open,
  acquire_file, is_directory_stat, is_file_stat,
}
use opfs.FileSystem.Operations.{rethrow, ensure_parents_of, require_parent, stat}
use opfs.FileSystem.Contents.{read_file}

-- `DirectoryEntryType` and `WalkEntryType`. The handle is the path.
pub record WalkEntry : Type 0 where
  pub path : Text
  pub name : Text
  pub kind : EntryKind
  pub depth : ℕ

pub record WalkOptions : Type 0 where
  pub include_files : Bool
  pub include_directories : Bool
  pub include_root : Bool
  pub max_depth : Option ℕ
  pub signal : Option AbortSignal

-- A `File`: the bytes and what is known of them.
pub record FileSnapshot : Type 0 where
  pub name : Text
  pub bytes : Bytes
  pub last_modified : ℕ
  pub media_type : Text

abbrev pub kind_of_stat : Stat → EntryKind
kind_of_stat (file_stat size modified media) = file
kind_of_stat (directory_stat modified) = directory

abbrev pub included : WalkOptions → EntryKind → Bool
included options file = options.include_files
included options directory = options.include_directories

-- `depth < maxDepth`, where no maximum is infinite.
abbrev pub within_depth : ℕ → Option ℕ → Bool
within_depth depth none = true
within_depth depth (some n) = ltb depth n

abbrev pub is_zero : Option ℕ → Bool
is_zero (some zero) = true
is_zero _ = false

-- A failure as a value.
unfoldable pub captured : {S A : Type 0} → Exec S A → Exec S (Result A)
captured m s = let (r, t) = m s in (ok r, t)

-- `withAbortSignal` of src/stream.ts, on a signal that does not change.
unfoldable pub with_abort_signal :
    Option AbortSignal → Text → Result (List Bytes) → Result (List Bytes)
with_abort_signal signal path content = elim (throw_if_aborted signal "read" (some path)) [
  | throw e ↦ throw e
  | ok _ ↦ content
]

module _ {S : Type 0} (adapter : Adapter S) (config : Config) where
  -- `readDir`. An aborted signal is seen before the first entry.
  unfoldable pub make_entry :
      Text
      → Option AbortSignal
      → ℕ
      → DirectoryEntry
      → Act S (List WalkEntry)
      → Act S (List WalkEntry)
  make_entry path signal depth entry following = do
    lift (throw_if_aborted signal "read-dir" (some path))
    child ← lift (join_path (path ∷ entry.name ∷ []))
    rest ← following
    pure (record { path = child; name = entry.name; kind = entry.kind; depth = depth } ∷ rest)

  unfoldable pub make_entries :
      Text → Option AbortSignal → ℕ → List DirectoryEntry → Act S (List WalkEntry)
  make_entries path signal depth [] = pure []
  make_entries path signal depth (entry ∷ entries) =
      make_entry path signal depth entry (make_entries path signal depth entries)

  unfoldable pub read_dir_at : ℕ → Text → Option AbortSignal → Act S (List WalkEntry)
  read_dir_at depth path signal = do
    assert_open
    normal ← lift (normalize_path path)
    found ← stat adapter config normal signal
    lift (
        if is_directory_stat (some found.stat)
        then ok tt
        else fail type_mismatch "read-dir" (some normal))
    catch
        (do
          entries ← on_store (adapter.read_dir normal signal)
          make_entries normal signal depth entries)
        (rethrow "read-dir" normal)

  unfoldable pub read_dir : Text → Option AbortSignal → Act S (List WalkEntry)
  read_dir path signal = read_dir_at 1 path signal

  -- `walkChildren`, where `again` walks a directory below.
  abbrev pub yielded : Bool → WalkEntry → List WalkEntry → List WalkEntry
  yielded true entry rest = entry ∷ rest
  yielded false entry rest = rest

  abbrev pub is_directory_kind : EntryKind → Bool
  is_directory_kind file = false
  is_directory_kind directory = true

  -- `deeper` is whether the depth of the entries is below the maximum.
  unfoldable pub walk_entry :
      (Text → Act S (List WalkEntry))
      → Bool
      → WalkOptions
      → WalkEntry
      → Act S (List WalkEntry)
      → Act S (List WalkEntry)
  walk_entry again deeper options entry following = do
    below ← (if is_directory_kind entry.kind && deeper then again entry.path else pure [])
    rest ← following
    pure (yielded (included options entry.kind) entry (below ++ rest))

  unfoldable pub walk_entries :
      (Text → Act S (List WalkEntry)) → Bool → WalkOptions → List WalkEntry → Act S (List WalkEntry)
  walk_entries again deeper options [] = pure []
  walk_entries again deeper options (entry ∷ entries) =
      walk_entry again deeper options entry (walk_entries again deeper options entries)

  unfoldable pub walk_children : ℕ → WalkOptions → ℕ → Text → Act S (List WalkEntry)
  walk_children zero options depth path = lift (throw range_error)
  walk_children (suc fuel) options depth path = do
    entries ← read_dir_at (suc depth) path options.signal
    walk_entries (walk_children fuel options (suc depth))
        (within_depth (suc depth) options.max_depth) options entries

  abbrev pub root_entries : WalkOptions → Text → Text → Stat → List WalkEntry
  root_entries options path name found =
      if options.include_root && included options (kind_of_stat found)
      then record { path = path; name = name; kind = kind_of_stat found; depth = 0 } ∷ []
      else []

  unfoldable pub walk : ℕ → Text → WalkOptions → Act S (List WalkEntry)
  walk fuel path options = do
    assert_open
    root ← lift (normalize_path path)
    found ← stat adapter config root options.signal
    name ← lift (basename root)
    below ←
        (if is_file_stat (some found.stat) || is_zero options.max_depth
          then pure []
          else walk_children fuel options 0 root)
    pure (root_entries options root name found.stat ++ below)

  -- `getFile`.
  unfoldable pub snapshot : Text → Text → Option AbortSignal → Stat → Act S FileSnapshot
  snapshot path name signal (directory_stat modified) =
      lift (fail type_mismatch "get-file" (some path))
  snapshot path name signal (file_stat size modified media) = do
    bytes ← read_file adapter config path (record { at = none; size = none; signal = signal })
    pure (record { name = name; bytes = bytes; last_modified = modified; media_type = media })

  unfoldable pub get_file : Text → Option AbortSignal → Act S FileSnapshot
  get_file path signal = do
    normal ← lift (normalize_path path)
    found ← stat adapter config normal signal
    snapshot normal found.name signal found.stat

  -- `openReadStream`, with what its stream yields or fails with in the end: one chunk where the
  -- adapter has no stream, and then a failed read is the stream's failure.
  abbrev pub read_route :
      Bool
      → Option (Text → ReadOptions → Exec S (List Bytes))
      → Text
      → ReadOptions
      → Exec S (Result (List Bytes))
  read_route true (some open_stream) path options = do
    chunks ← open_stream path options
    pure (ok chunks)
  read_route _ _ path options =
      captured (do bytes ← adapter.read_file path options; pure (bytes ∷ []))

  unfoldable pub stream_chunks : Text → ReadOptions → Act S (Result (List Bytes))
  stream_chunks path options =
      let direct = config.optimizations.stream_read && adapter.capabilities.stream_read in
      catch
        (do
          content ← on_store (read_route direct adapter.open_read_stream path options)
          emit (
              recorded read_stream_metric
                (if direct && defined adapter.open_read_stream then native else emulated) none
                false)
          pure (with_abort_signal options.signal path content))
        (λ e. do
          emit (recorded read_stream_metric (if direct then native else emulated) none true)
          rethrow "read" path e)

  unfoldable pub open_read_stream : Text → ReadOptions → Act S (Result (List Bytes))
  open_read_stream path options = do
    assert_open
    normal ← lift (normalize_path path)
    stream_chunks normal options

  -- `openWritableFile` and `openSyncFile`, which differ in the name of the operation, the capability
  -- and the method of the adapter. The lock goes to the file that is returned.
  unfoldable pub create_missing :
      String → Text → Bool → Bool → Option AbortSignal → Option Stat → Exec S (Unit {0})
  create_missing operation path create parents signal (some found) = pure tt
  create_missing operation path create parents signal none = do
    lift (if create then ok tt else fail not_found operation (some path))
    ensure_parents_of adapter config parents path signal
    require_parent adapter config operation path signal
    adapter.write_file path []
        (record { mode = replace; at = none; truncate = false; media_type = none; signal = signal })
    found ← adapter.stat path signal
    lift (if is_file_stat found then ok tt else fail unknown operation (some path))

  module _ {F : Type 0} (operation : String) (capable : Bool) (open_native : Text → Exec S F) where
    unfoldable pub open_locked : Text → Bool → Bool → Option AbortSignal → Exec S F
    open_locked path create parents signal = do
      found ← adapter.stat path signal
      lift (if is_directory_stat found then fail type_mismatch operation (some path) else ok tt)
      create_missing operation path create parents signal found
      open_native path

    unfoldable pub open_held : Text → Bool → Bool → Option AbortSignal → Act S F
    open_held path create parents signal = do
      acquire_file signal path
      catch (on_store (open_locked path create parents signal))
          (λ e. do emit released; rethrow operation path e)

    unfoldable pub open_normal : Text → Bool → Bool → Option AbortSignal → Act S F
    open_normal path create parents signal = do
      lift (throw_if_aborted signal operation (some path))
      lift (if capable then ok tt else fail not_supported operation (some path))
      open_held path create parents signal

    unfoldable pub open_long_lived : Text → Bool → Bool → Option AbortSignal → Act S F
    open_long_lived path create parents signal = do
      assert_open
      normal ← lift (normalize_path path)
      (if same normal root_path
          then lift (fail type_mismatch operation (some normal))
          else open_normal normal create parents signal)

-- `close`: the facade is shut before an adapter that it owns is disposed of, and once.
unfoldable pub close : {S : Type 0} → Option (Exec S (Unit {0})) → Act S (Unit {0})
close dispose f = if f.closed then (ok tt, f) else elim dispose [
  | none ↦ (ok tt, record f { closed = true })
  | some end ↦ on_store end (record f { closed = true })
]
