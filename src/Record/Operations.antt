-- ===== src/Record/Operations.antt =====
-- The methods of the record adapter (`RecordAdapter` of src/adapter/record.ts).
use mathlib.Core.Option
use opfs.Prelude.{
  ℕ, map, Option, none, some, Bool, true, false, not, ◌&&◌, ◌||◌, List, [], Text, same,
  if◌then◌else◌,
}
use opfs.Failure.{fail, type_mismatch, not_supported, AbortSignal, throw_if_aborted}
use opfs.Bytes.{Bytes, WriteMode, replace}
use opfs.Exec.{Exec, pure, lift, ◌>>=◌, ◌>>◌}
use opfs.Path.{root_path}
use opfs.Adapter.{
  Adapter, ReadOptions, WriteOptions, Stat, directory_stat, DirectoryEntry, Partition, Capabilities,
  includes_mode, defined,
}
use opfs.Record.{
  Base64, StoredRecord, RecordDriver, kind_of, stat_of, assert_writable, read_record, is_directory,
  file_record, directory_record,
}

-- `driver.stat ?? driver.get`, as `stat` and `createDir` choose it.
abbrev pub lookup : {S : Type 0} → RecordDriver S → Text → Exec S (Option StoredRecord)
lookup driver path = elim driver.stat [ none ↦ driver.get path | some stat ↦ stat path ]

module _ {S : Type 0} (base64 : Base64) (now : ℕ) (read_only : Bool) (driver : RecordDriver S) where
  unfoldable pub stat_below : Text → Exec S (Option Stat)
  stat_below path =
      if same path root_path
      then pure (some (directory_stat none))
      else (do found ← lookup driver path; pure (Option.map stat_of found))

  unfoldable pub stat : Text → Option AbortSignal → Exec S (Option Stat)
  stat path signal = do lift (throw_if_aborted signal "stat" (some path)); stat_below path

  unfoldable pub read_file : Text → ReadOptions → Exec S Bytes
  read_file path options = do
    lift (throw_if_aborted options.signal "read" (some path))
    elim driver.read_file [
      | some read ↦ read path options
      | none ↦ (do found ← driver.get path; lift (read_record base64 now path options found))
    ]

  -- The write through a complete record.
  unfoldable pub store_image : Text → Bytes → WriteOptions → Option StoredRecord → Exec S (Unit {0})
  store_image path bytes options previous =
      if is_directory base64 now previous
      then lift (fail type_mismatch "write" (some path))
      else (do r ← lift (file_record base64 now path bytes options previous); driver.set r)

  unfoldable pub previous_record : Text → WriteMode → Exec S (Option StoredRecord)
  previous_record path replace = lookup driver path
  previous_record path mode = driver.get path

  unfoldable pub write_record : Text → Bytes → WriteOptions → Exec S (Unit {0})
  write_record path bytes options = do
    previous ← previous_record path options.mode
    store_image path bytes options previous

  unfoldable pub write_file : Text → Bytes → WriteOptions → Exec S (Unit {0})
  write_file path bytes options = do
    lift (assert_writable read_only "write" path)
    lift (throw_if_aborted options.signal "write" (some path))
    elim driver.write_file [
      | some write ↦
          if includes_mode driver.capabilities.write_modes options.mode
          then write path bytes options
          else write_record path bytes options
      | none ↦ write_record path bytes options
    ]

  abbrev pub entry_of : StoredRecord → DirectoryEntry
  entry_of r = record { name = r.name; kind = kind_of r }

  unfoldable pub read_dir : Text → Option AbortSignal → Exec S (List DirectoryEntry)
  read_dir path signal = do
    lift (throw_if_aborted signal "read-dir" (some path))
    records ← driver.list path
    pure (map entry_of records)

  unfoldable pub create_missing : Text → Option StoredRecord → Exec S (Unit {0})
  create_missing path none = do r ← lift (directory_record base64 now path); driver.set r
  create_missing path (some r) = elim r.body [
    | some b ↦ lift (fail type_mismatch "mkdir" (some path))
    | none ↦ pure tt
  ]

  unfoldable pub create_dir : Text → Option AbortSignal → Exec S (Unit {0})
  create_dir path signal = do
    lift (assert_writable read_only "mkdir" path)
    lift (throw_if_aborted signal "mkdir" (some path))
    existing ← lookup driver path
    create_missing path existing

  unfoldable pub remove : Text → Option AbortSignal → Exec S (Unit {0})
  remove path signal = do
    lift (assert_writable read_only "remove" path)
    lift (throw_if_aborted signal "remove" (some path))
    driver.delete path

  -- The capabilities that the constructor derives.
  abbrev pub stream_write_modes : List WriteMode
  stream_write_modes =
      if read_only || not driver.capabilities.write || not (defined driver.write_stream)
      then []
      else driver.capabilities.stream_write_modes

  unfoldable pub capabilities : Capabilities
  capabilities = record {
    read = true;
    write = not read_only && driver.capabilities.write;
    stream_read = driver.capabilities.stream_read && defined driver.open_read_stream;
    stream_write_modes = stream_write_modes;
    range_read = driver.capabilities.range_read && defined driver.read_file;
    native_copy = false;
    native_move = false;
    positional_write = false;
    sync_access = false;
  }

  unfoldable pub open_read_stream : Text → ReadOptions → Exec S (List Bytes)
  open_read_stream path options = elim driver.open_read_stream [
    | none ↦ lift (fail not_supported "read" (some path))
    | some open_stream ↦
        if driver.capabilities.stream_read
        then open_stream path options
        else lift (fail not_supported "read" (some path))
  ]

  unfoldable pub write_stream : Text → List Bytes → WriteOptions → Exec S (Unit {0})
  write_stream path source options = do
    lift (assert_writable read_only "write" path)
    elim driver.write_stream [
      | none ↦ lift (fail not_supported "write" (some path))
      | some write ↦
          if includes_mode stream_write_modes options.mode
          then write path source options
          else lift (fail not_supported "write" (some path))
    ]

  -- `new RecordAdapter(driver, options)`; `createRecordAdapter` passes it through `defineAdapter`.
  unfoldable pub record_adapter : Option Partition → Adapter S
  record_adapter partition = record {
    capabilities = capabilities;
    partition = partition;
    stat = stat;
    read_file = read_file;
    write_file = write_file;
    read_dir = read_dir;
    create_dir = create_dir;
    remove = remove;
    open_read_stream = some open_read_stream;
    write_stream = some write_stream;
    copy = none;
    move = none;
    has_open_writable_file = false;
    has_open_sync_file = false;
  }
