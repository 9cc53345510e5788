-- ===== src/FileSystem/Copying.antt =====
-- Copies and moves on the facade (`copy`, `move`, `#copyFileUnlocked` and `#walkAdapter` of
-- src/filesystem.ts). A child that is copied concurrently runs to its end when it is started.
-- Recursion into directories has fuel, the depth that is followed.
use opfs.Prelude.{
  ℕ, zero, suc, Option, none, some, Bool, true, false, ◌&&◌, ◌||◌, List, [], ◌∷◌, Text, same, ltb,
  length, drop, if◌then◌else◌,
}
use opfs.Failure.{
  Result, ok, throw, fail, Thrown, range_error, already_exists, type_mismatch, invalid_operation,
  too_large, AbortSignal, throw_if_aborted,
}
use opfs.Bytes.{Bytes, replace}
use opfs.Exec.{Exec, pure, lift, ◌>>=◌, ◌>>◌}
use opfs.Path.{slash, normalize_path, join_path, dirname, is_ancestor_path}
use opfs.Adapter.{
  Adapter, ReadOptions, WriteOptions, Stat, file_stat, directory_stat, DirectoryEntry, EntryKind,
  file, directory, includes_mode, is_empty, defined,
}
use opfs.Support.{SupportMode, get_support}
use opfs.FileSystem.{
  copy_metric, move_metric, recorded, Config, Act, on_store, emit, catch, assert_open,
  is_directory_stat, FacadeStat, StreamLibrary,
}
use opfs.FileSystem.Operations.{rethrow, under_tree, ensure_parents, stat}
use opfs.FileSystem.Contents.{collect_bytes}
use opfs.FileSystem.Removal.{
  get_concurrency, Walked, going, stopped, throw_first, tallied, tracked, with_buffer,
  remove_unlocked, remove,
}

-- `relative.replace(/^\//, "")`.
abbrev pub without_slash : Text → Text
without_slash [] = []
without_slash (c ∷ s) = if same (c ∷ []) (slash ∷ []) then s else c ∷ s

module _ {S : Type 0} (adapter : Adapter S) (config : Config) (library : StreamLibrary) where
  -- `#copyFileUnlocked`.
  abbrev pub copy_options : Text → Option AbortSignal → WriteOptions
  copy_options media signal = record {
    mode = replace;
    at = none;
    truncate = false;
    media_type = if is_empty media then none else some media;
    signal = signal;
  }

  abbrev pub whole_file : Option AbortSignal → ReadOptions
  whole_file signal = record { at = none; size = none; signal = signal }

  abbrev pub bounded : Bool → Text → Result (Unit {0})
  bounded too_big source = if too_big then fail too_large "copy" (some source) else ok tt

  unfoldable pub copy_buffered : Text → Text → ℕ → WriteOptions → Act S (Unit {0})
  copy_buffered source destination size options = do
    lift (bounded (ltb config.max_buffered_write_bytes size) source)
    bytes ← on_store (adapter.read_file source (whole_file options.signal))
    with_buffer (length bytes) (on_store (adapter.write_file destination bytes options))

  abbrev pub ReadStream : Type 0
  ReadStream = Text → ReadOptions → Exec S (List Bytes)

  abbrev pub WriteStream : Type 0
  WriteStream = Text → List Bytes → WriteOptions → Exec S (Unit {0})

  unfoldable pub copy_collected : ReadStream → Text → Text → ℕ → WriteOptions → Act S (Unit {0})
  copy_collected open_stream source destination size options = do
    lift (bounded (ltb config.max_buffered_write_bytes size) source)
    chunks ← on_store (open_stream source (whole_file options.signal))
    bytes ←
        lift (
          collect_bytes library chunks config.max_buffered_write_bytes options.signal "copy" source)
    with_buffer (length bytes) (on_store (adapter.write_file destination bytes options))

  unfoldable pub copy_stream :
      ReadStream → Option WriteStream → Text → Text → ℕ → WriteOptions → Act S (Unit {0})
  copy_stream open_stream none source destination size options =
      copy_collected open_stream source destination size options
  copy_stream open_stream (some write) source destination size options =
      if config.optimizations.stream_write
        && includes_mode adapter.capabilities.stream_write_modes replace
      then (do
        chunks ← on_store (open_stream source (whole_file options.signal))
        on_store (write destination chunks options))
      else copy_collected open_stream source destination size options

  unfoldable pub copy_read : Option ReadStream → Text → Text → ℕ → WriteOptions → Act S (Unit {0})
  copy_read none source destination size options = copy_buffered source destination size options
  copy_read (some open_stream) source destination size options =
      if config.optimizations.stream_read && adapter.capabilities.stream_read
      then copy_stream open_stream adapter.write_stream source destination size options
      else copy_buffered source destination size options

  unfoldable pub copy_found : Text → Text → Option AbortSignal → Option Stat → Act S (Unit {0})
  copy_found source destination signal (some (file_stat size modified media)) =
      copy_read adapter.open_read_stream source destination size (copy_options media signal)
  copy_found source destination signal found = lift (fail type_mismatch "copy" (some source))

  unfoldable pub copy_emulated : Text → Text → Option AbortSignal → Act S (Unit {0})
  copy_emulated source destination signal = do
    found ← on_store (adapter.stat source signal)
    copy_found source destination signal found

  unfoldable pub copy_file :
      Option (Text → Text → Bool → Exec S (Unit {0}))
      → Text
      → Text
      → Option AbortSignal
      → Act S (Unit {0})
  copy_file none source destination signal = copy_emulated source destination signal
  copy_file (some native_copy) source destination signal =
      if config.optimizations.native_copy && adapter.capabilities.native_copy
      then on_store (native_copy source destination true)
      else copy_emulated source destination signal

  -- The loop of `copy` over `#walkAdapter`, where `again` walks a directory below.
  abbrev pub Walk : Type 0
  Walk = Text → Option Thrown → Act S Walked

  unfoldable pub copy_kind : Walk → Option AbortSignal → Text → Text → EntryKind → Act S Walked
  copy_kind again signal child target directory = do
    on_store (adapter.create_dir target signal)
    again child none
  copy_kind again signal child target file = do
    failed ← tracked none (copy_file adapter.copy child target signal)
    pure (going failed)

  unfoldable pub copy_entry :
      Walk → Text → Text → Option AbortSignal → Text → DirectoryEntry → Act S Walked
  copy_entry again from to signal child entry = do
    target ← lift (join_path (to ∷ without_slash (drop (length from) child) ∷ []))
    copy_kind again signal child target entry.kind

  -- An entry after a failed one ends the loop.
  unfoldable pub copy_next :
      Walk → Text → Text → Option AbortSignal → Option Thrown → Text → DirectoryEntry → Act S Walked
  copy_next again from to signal (some e) child entry = pure (stopped e)
  copy_next again from to signal none child entry = copy_entry again from to signal child entry

  unfoldable pub copy_entries :
      Walk → Text → Text → Option AbortSignal → Text → List DirectoryEntry → Walked → Act S Walked
  copy_entries again from to signal path entries (stopped e) = pure (stopped e)
  copy_entries again from to signal path [] (going failed) = pure (going failed)
  copy_entries again from to signal path (entry ∷ entries) (going failed) = do
    lift (throw_if_aborted signal "walk" (some path))
    child ← lift (join_path (path ∷ entry.name ∷ []))
    walked ← copy_next again from to signal failed child entry
    copy_entries again from to signal path entries walked

  unfoldable pub copy_below :
      ℕ → Text → Text → Option AbortSignal → Text → Option Thrown → Act S Walked
  copy_below zero from to signal path failed = lift (throw range_error)
  copy_below (suc fuel) from to signal path failed = do
    entries ← on_store (adapter.read_dir path signal)
    copy_entries (copy_below fuel from to signal) from to signal path entries (going failed)

  unfoldable pub copy_directory : ℕ → Text → Text → Option AbortSignal → Act S (Unit {0})
  copy_directory fuel from to signal = do
    on_store (adapter.create_dir to signal)
    walked ← copy_below fuel from to signal from none
    lift (throw_first walked)

  -- `copy`, under the tree lock.
  unfoldable pub make_room : ℕ → Text → Bool → Option AbortSignal → Option Stat → Exec S (Unit {0})
  make_room fuel to overwrite signal none = pure tt
  make_room fuel to overwrite signal (some found) =
      if overwrite
      then remove_unlocked adapter config fuel to true signal
      else lift (fail already_exists "copy" (some to))

  unfoldable pub prepare_destination : ℕ → Text → Bool → Option AbortSignal → Exec S (Unit {0})
  prepare_destination fuel to overwrite signal = do
    existing ← adapter.stat to signal
    make_room fuel to overwrite signal existing
    above ← lift (dirname to)
    ensure_parents adapter config above signal

  abbrev pub size_if_file : Stat → Option ℕ
  size_if_file (file_stat size modified media) = some size
  size_if_file (directory_stat modified) = none

  unfoldable pub copy_from :
      ℕ → Text → Text → Bool → Option AbortSignal → FacadeStat → Act S (Unit {0})
  copy_from fuel from to overwrite signal source = do
    on_store (prepare_destination fuel to overwrite signal)
    (if is_directory_stat (some source.stat)
        then copy_directory fuel from to signal
        else copy_file adapter.copy from to signal)

  abbrev pub copy_support : SupportMode
  copy_support = (get_support adapter config.optimizations).copy

  unfoldable pub copy_locked : ℕ → Text → Text → Bool → Option AbortSignal → Act S (Unit {0})
  copy_locked fuel from to overwrite signal = do
    source ←
        catch (stat adapter config from signal)
          (λ e. do emit (recorded copy_metric copy_support none true); lift (throw e))
    tallied copy_metric copy_support (size_if_file source.stat)
        (copy_from fuel from to overwrite signal source)

  -- Whether one of two different paths is above the other.
  unfoldable pub overlap : Text → Text → Result Bool
  overlap from to = elim (is_ancestor_path from to) [
    | throw e ↦ throw e
    | ok above ↦ if above then ok true else is_ancestor_path to from
  ]

  unfoldable pub copy : ℕ → Text → Text → Bool → Option ℕ → Option AbortSignal → Act S (Unit {0})
  copy fuel source destination overwrite concurrency signal = do
    assert_open
    from ← lift (normalize_path source)
    to ← lift (normalize_path destination)
    overlaps ← lift (overlap from to)
    lift (if same from to || overlaps then fail invalid_operation "copy" (some from) else ok tt)
    lift (get_concurrency concurrency)
    under_tree signal (copy_locked fuel from to overwrite signal)

  -- `move`, by the adapter's rename or by a copy and a removal.
  unfoldable pub rename_room : ℕ → Text → Bool → Option AbortSignal → Exec S (Unit {0})
  rename_room fuel to overwrite signal =
      if overwrite then remove_unlocked adapter config fuel to true signal else (do
        existing ← adapter.stat to signal
        lift (if defined existing then fail already_exists "move" (some to) else ok tt))

  unfoldable pub rename :
      (Text → Text → Bool → Exec S (Unit {0}))
      → ℕ
      → Text
      → Text
      → Bool
      → Option AbortSignal
      → Exec S (Unit {0})
  rename native_move fuel from to overwrite signal = do
    rename_room fuel to overwrite signal
    above ← lift (dirname to)
    ensure_parents adapter config above signal
    native_move from to overwrite

  unfoldable pub copy_then_remove :
      ℕ → Text → Text → Bool → Option ℕ → Option AbortSignal → Act S (Unit {0})
  copy_then_remove fuel from to overwrite concurrency signal = do
    copy fuel from to overwrite concurrency signal
    remove adapter config fuel from true signal

  unfoldable pub move_entry :
      Option (Text → Text → Bool → Exec S (Unit {0}))
      → ℕ
      → Text
      → Text
      → Bool
      → Option ℕ
      → Option AbortSignal
      → Act S (Unit {0})
  move_entry none fuel from to overwrite concurrency signal =
      copy_then_remove fuel from to overwrite concurrency signal
  move_entry (some native_move) fuel from to overwrite concurrency signal =
      if config.optimizations.native_move && adapter.capabilities.native_move
      then under_tree signal (on_store (rename native_move fuel from to overwrite signal))
      else copy_then_remove fuel from to overwrite concurrency signal

  abbrev pub move_support : SupportMode
  move_support = (get_support adapter config.optimizations).move

  unfoldable pub move_normal :
      ℕ → Text → Text → Bool → Option ℕ → Option AbortSignal → Act S (Unit {0})
  move_normal fuel from to overwrite concurrency signal =
      catch
        (do
          move_entry adapter.move fuel from to overwrite concurrency signal
          emit (recorded move_metric move_support none false))
        (λ e. do emit (recorded move_metric move_support none true); rethrow "move" from e)

  unfoldable pub move : ℕ → Text → Text → Bool → Option ℕ → Option AbortSignal → Act S (Unit {0})
  move fuel source destination overwrite concurrency signal = do
    assert_open
    from ← lift (normalize_path source)
    to ← lift (normalize_path destination)
    (if same from to then pure tt else (do
      overlaps ← lift (overlap from to)
      lift (if overlaps then fail invalid_operation "move" (some from) else ok tt)
      move_normal fuel from to overwrite concurrency signal))
