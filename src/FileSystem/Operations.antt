-- ===== src/FileSystem/Operations.antt =====
-- The operations of the facade on entries (`FileSystemFacade` and `ensureParents` of
-- src/filesystem.ts). A handle is the path it stands for.
use opfs.Prelude.{
  Option, none, some, Bool, true, false, ◌||◌, List, [], ◌∷◌, Text, String, same, if◌then◌else◌,
}
use opfs.Failure.{
  ok, throw, fail, Thrown, ErrorCode, not_found, already_exists, type_mismatch, AbortSignal,
  throw_if_aborted, to_file_system_error, package_error,
}
use opfs.Bytes.{replace}
use opfs.Exec.{Exec, pure, lift, ◌>>=◌, ◌>>◌}
use opfs.Path.{root_path, normalize_path, split_path, join_path, dirname, basename}
use opfs.Adapter.{Adapter, Stat, file_stat, directory_stat, EntryKind, file, directory, defined}
use opfs.Support.{native}
use opfs.FileSystem.{
  stat_metric, released, recorded, Config, Act, on_store, emit, finally, catch, assert_open,
  acquire_tree, acquire_file, is_directory_stat, is_file_stat, FacadeStat,
}

-- `error.code === "not-found"`.
abbrev pub is_not_found : ErrorCode → Bool
is_not_found not_found = true
is_not_found _ = false

abbrev pub has_kind : Option EntryKind → Option Stat → Bool
has_kind kind none = false
has_kind none (some s) = true
has_kind (some file) found = is_file_stat found
has_kind (some directory) found = is_directory_stat found

module _ {S : Type 0} where
  -- `toFileSystemError`, thrown again.
  abbrev pub rethrow : {A : Type 0} → String → Text → Thrown → Act S A
  rethrow operation path e =
      lift (throw (package_error (to_file_system_error e operation (some path))))

  -- `const lock = await acquireTree(signal); try { m } finally { lock.release(); }`.
  unfoldable pub under_tree : {A : Type 0} → Option AbortSignal → Act S A → Act S A
  under_tree signal m = do acquire_tree signal; finally m (emit released)

  unfoldable pub under_file : {A : Type 0} → Option AbortSignal → Text → Act S A → Act S A
  under_file signal path m = do acquire_file signal path; finally m (emit released)

module _ {S : Type 0} (adapter : Adapter S) (config : Config) where
  unfoldable pub create_component : Option AbortSignal → Text → Option Stat → Exec S (Unit {0})
  create_component signal current none = adapter.create_dir current signal
  create_component signal current (some (file_stat size modified media)) =
      lift (fail type_mismatch "mkdir" (some current))
  create_component signal current (some (directory_stat modified)) = pure tt

  unfoldable pub ensure_below : Option AbortSignal → Text → List Text → Exec S (Unit {0})
  ensure_below signal current [] = pure tt
  ensure_below signal current (part ∷ parts) = do
    next ← lift (join_path (current ∷ part ∷ []))
    lift (throw_if_aborted signal "mkdir" (some next))
    found ← adapter.stat next signal
    create_component signal next found
    ensure_below signal next parts

  unfoldable pub ensure_parents : Text → Option AbortSignal → Exec S (Unit {0})
  ensure_parents path signal = do
    parts ← lift (split_path path)
    ensure_below signal root_path parts

  -- The check that the parent of a path is a directory.
  unfoldable pub require_parent : String → Text → Option AbortSignal → Exec S (Unit {0})
  require_parent operation path signal = do
    above ← lift (dirname path)
    parent ← adapter.stat above signal
    lift (if is_directory_stat parent then ok tt else fail not_found operation (some path))

  -- `stat`, after its guards.
  unfoldable pub stat_entry : Text → Option AbortSignal → Exec S FacadeStat
  stat_entry path signal = do
    found ← adapter.stat path signal
    entry ← lift (elim found [ none ↦ fail not_found "stat" (some path) | some s ↦ ok s ])
    name ← lift (basename path)
    pure (record { path = path; name = name; stat = entry })

  unfoldable pub stat_normal : Text → Option AbortSignal → Act S FacadeStat
  stat_normal path signal =
      if same path root_path
      then (do
        emit (recorded stat_metric native none false)
        pure (record { path = root_path; name = []; stat = directory_stat none }))
      else (catch
          (do
            found ← on_store (stat_entry path signal)
            emit (recorded stat_metric native none false)
            pure found)
          (λ e. do emit (recorded stat_metric native none true); rethrow "stat" path e))

  unfoldable pub stat : Text → Option AbortSignal → Act S FacadeStat
  stat path signal = do
    assert_open
    normal ← lift (normalize_path path)
    lift (throw_if_aborted signal "stat" (some normal))
    stat_normal normal signal

  -- `exists`, whose missing entry is no failure.
  unfoldable pub recover_missing : Text → Thrown → Act S Bool
  recover_missing path e =
      if is_not_found (to_file_system_error e "exists" (some path)).code
      then pure false
      else rethrow "exists" path e

  unfoldable pub exists_normal : Text → Option EntryKind → Option AbortSignal → Act S Bool
  exists_normal path kind signal =
      if same path root_path
      then pure (has_kind kind (some (directory_stat none)))
      else catch (do found ← on_store (adapter.stat path signal); pure (has_kind kind found))
          (recover_missing path)

  unfoldable pub exists : Text → Option EntryKind → Option AbortSignal → Act S Bool
  exists path kind signal = do
    assert_open
    normal ← lift (normalize_path path)
    lift (throw_if_aborted signal "exists" (some normal))
    exists_normal normal kind signal

  -- `mkdir`, under the tree lock.
  unfoldable pub create_single : Text → Option AbortSignal → Exec S (Unit {0})
  create_single path signal = do
    existing ← adapter.stat path signal
    lift (if defined existing then fail already_exists "mkdir" (some path) else ok tt)
    require_parent "mkdir" path signal
    adapter.create_dir path signal

  unfoldable pub mkdir_normal : Text → Bool → Option AbortSignal → Act S (Unit {0})
  mkdir_normal path recursive signal =
      if same path root_path
      then pure tt
      else under_tree signal
          (on_store (if recursive then ensure_parents path signal else create_single path signal))

  unfoldable pub mkdir : Text → Bool → Option AbortSignal → Act S (Unit {0})
  mkdir path recursive signal = do
    assert_open
    normal ← lift (normalize_path path)
    mkdir_normal normal recursive signal

  unfoldable pub ensure_dir : Text → Option AbortSignal → Act S (Unit {0})
  ensure_dir path signal = do
    assert_open
    under_tree signal
        (do normal ← lift (normalize_path path); on_store (ensure_parents normal signal))

  -- `getDirectoryHandle`, under the tree lock and without creation.
  unfoldable pub create_below_parent : Text → Option AbortSignal → Exec S (Unit {0})
  create_below_parent path signal = do
    require_parent "get-directory" path signal
    existing ← adapter.stat path signal
    lift (if is_file_stat existing then fail type_mismatch "get-directory" (some path) else ok tt)
    (if defined existing then pure tt else adapter.create_dir path signal)

  unfoldable pub open_directory : Text → Option AbortSignal → Exec S (Unit {0})
  open_directory path signal = do
    found ← adapter.stat path signal
    lift (if defined found then ok tt else fail not_found "get-directory" (some path))
    lift (if is_directory_stat found then ok tt else fail type_mismatch "get-directory" (some path))

  unfoldable pub directory_handle : Text → Bool → Bool → Option AbortSignal → Act S Text
  directory_handle path create recursive signal = do
    lift (throw_if_aborted signal "get-directory" (some path))
    (if create || recursive
        then under_tree signal (
            on_store
              (if recursive then ensure_parents path signal else create_below_parent path signal))
        else on_store (open_directory path signal))
    pure path

  unfoldable pub get_directory_handle : Text → Bool → Bool → Option AbortSignal → Act S Text
  get_directory_handle path create recursive signal = do
    assert_open
    normal ← lift (normalize_path path)
    (if same normal root_path
        then pure root_path
        else directory_handle normal create recursive signal)

  -- `getFileHandle`: creation under the file lock, which looks at the path again.
  unfoldable pub ensure_parents_of : Bool → Text → Option AbortSignal → Exec S (Unit {0})
  ensure_parents_of parents path signal =
      if parents then (do above ← lift (dirname path); ensure_parents above signal) else pure tt

  unfoldable pub create_file : Text → Bool → Option AbortSignal → Exec S (Unit {0})
  create_file path parents signal = do
    ensure_parents_of parents path signal
    require_parent "get-file" path signal
    found ← adapter.stat path signal
    (if defined found
        then pure tt
        else adapter.write_file path [] (record {
          mode = replace;
          at = none;
          truncate = false;
          media_type = none;
          signal = signal;
        }))

  unfoldable pub file_handle : Text → Bool → Bool → Option AbortSignal → Act S Text
  file_handle path create parents signal = do
    lift (throw_if_aborted signal "get-file" (some path))
    found ← on_store (adapter.stat path signal)
    lift (if is_directory_stat found then fail type_mismatch "get-file" (some path) else ok tt)
    (if defined found
        then pure tt
        else if create
        then under_file signal path (on_store (create_file path parents signal))
        else lift (fail not_found "get-file" (some path)))
    pure path

  unfoldable pub get_file_handle : Text → Bool → Bool → Option AbortSignal → Act S Text
  get_file_handle path create parents signal = do
    assert_open
    normal ← lift (normalize_path path)
    (if same normal root_path
        then lift (fail type_mismatch "get-file" (some normal))
        else file_handle normal create parents signal)

  unfoldable pub ensure_file : Text → Option AbortSignal → Act S (Unit {0})
  ensure_file path signal = do get_file_handle path true true signal; pure tt
