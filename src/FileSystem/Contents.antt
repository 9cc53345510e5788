-- ===== src/FileSystem/Contents.antt =====
-- The operations of the facade on the bytes of files (`readFile`, `writeFile` and `#support` of
-- src/filesystem.ts, `collectBytes` of src/stream.ts). Offsets are natural numbers already, so the
-- range checks on them are those of the types. The bytes that a native stream's adapter has pulled
-- are not counted.
use opfs.Prelude.{
  ℕ, ◌+◌, ◌-◌, Option, none, some, Bool, true, false, not, ◌&&◌, ◌||◌, List, Text, String, same,
  ltb, length, take, drop, min, if◌then◌else◌,
}
use opfs.Failure.{
  Result, ok, throw, fail, type_mismatch, too_large, AbortSignal, throw_if_aborted,
  to_file_system_error, package_error,
}
use opfs.Bytes.{Bytes, or_else, get_write_size}
use opfs.Exec.{Exec, pure, lift, ◌>>=◌, ◌>>◌}
use opfs.Path.{root_path, normalize_path}
use opfs.Adapter.{
  Adapter, ReadOptions, WriteOptions, Partition, never, auto, always, Stat, file_stat,
  directory_stat, includes_mode, defined,
}
use opfs.Support.{SupportMode, native, emulated, partitioned, get_support}
use opfs.FileSystem.{
  read_metric, write_metric, buffered, unbuffered, released, recorded, Facade, Config, Act,
  on_store, emit, catch, assert_open, acquire_file, is_directory_stat, WriteData, whole_data,
  stream_data, Writing, StreamLibrary,
}
use opfs.FileSystem.Operations.{rethrow, ensure_parents_of, require_parent}

abbrev pub size_of : Option Stat → ℕ
size_of none = 0
size_of (some (file_stat size modified media)) = size
size_of (some (directory_stat modified)) = 0

-- `#support`.
unfoldable pub partition_support : SupportMode → Option Partition → Option ℕ → SupportMode
partition_support emulated partition bytes = emulated
partition_support route none bytes = route
partition_support route partition none = route
partition_support route (some p) (some n) = elim p.mode [
  | never ↦ route
  | auto ↦ if ltb (or_else p.threshold_bytes p.part_bytes) n then partitioned else route
  | always ↦ partitioned
]

-- `collectBytes` of src/stream.ts.
unfoldable pub collect_bytes :
    StreamLibrary → List Bytes → ℕ → Option AbortSignal → String → Text → Result Bytes
collect_bytes library chunks limit signal operation path =
    elim (throw_if_aborted signal operation (some path)) [
      | throw e ↦ throw e
      | ok _ ↦ elim (library.collect limit chunks) [
        | some bytes ↦ ok bytes
        | none ↦ throw (
            package_error (record {
              code = too_large;
              operation = operation;
              path = some path;
              cause = some 0;
            }))
      ]
    ]

module _ {S : Type 0} where
  unfoldable pub within : {A : Type 0} → Act S A → Exec (Writing S) A
  within m w = let (r, f) = m w.facade in (r, record w { facade = f })

  -- The assignments to the locals of `writeFile`.
  unfoldable pub set_support : SupportMode → Exec (Writing S) (Unit {0})
  set_support support w = (ok tt, record w { support = support })

  unfoldable pub set_bytes : ℕ → Exec (Writing S) (Unit {0})
  set_bytes n w = (ok tt, record w { bytes = some n })

  -- `buffered = n; metrics.buffer(n)`.
  unfoldable pub buffer : ℕ → Exec (Writing S) (Unit {0})
  buffer n w = (ok tt, record w { buffered = n; facade = ((emit (buffered n)) w.facade).1 })

  unfoldable pub record_success : Exec (Writing S) (Unit {0})
  record_success w = (
    ok tt,
    record w { facade = ((emit (recorded write_metric w.support w.bytes false)) w.facade).1 },
  )

  -- The `catch` and the `finally` of `writeFile`.
  unfoldable pub record_failure :
      Text → Result (Unit {0}) × Writing S → Result (Unit {0}) × Writing S
  record_failure path (ok a, w) = (ok a, w)
  record_failure path (throw e, w) = (
    throw (package_error (to_file_system_error e "write" (some path))),
    record w { facade = (emit (recorded write_metric w.support w.bytes true) w.facade).1 },
  )

  unfoldable pub release_write : Result (Unit {0}) × Writing S → Result (Unit {0}) × Facade S
  release_write (r, w) = (
    r,
    (emit released
        (if ltb 0 w.buffered then (emit (unbuffered w.buffered) w.facade).1 else w.facade)).1,
  )

module _ {S : Type 0} (adapter : Adapter S) (config : Config) where
  -- `readFile`, whose range is cut out here where the adapter's range route is switched off.
  abbrev pub is_ranged : ReadOptions → Bool
  is_ranged options = defined options.at || defined options.size

  unfoldable pub cut : Bytes → ReadOptions → Bytes
  cut complete options =
      let at = or_else options.at 0 in
      let end : ℕ = elim options.size [
        | none ↦ length complete
        | some n ↦ min (length complete) (at + n)
      ] in
      take (end - min at (length complete)) (drop (min at (length complete)) complete)

  unfoldable pub read_bytes : Text → ReadOptions → Exec S Bytes
  read_bytes path options =
      if is_ranged options && adapter.capabilities.range_read && not config.optimizations.range_read
      then (do
        complete ←
            adapter.read_file path (record { at = none; size = none; signal = options.signal })
        pure (cut complete options))
      else adapter.read_file path options

  unfoldable pub read_normal : Text → ReadOptions → Act S Bytes
  read_normal path options = do
    lift (throw_if_aborted options.signal "read" (some path))
    let support =
          if is_ranged options
          then (get_support adapter config.optimizations).range_read
          else native in
        catch
          (do
            bytes ← on_store (read_bytes path options)
            emit (recorded read_metric support (some (length bytes)) false)
            pure bytes)
          (λ e. do emit (recorded read_metric support none true); rethrow "read" path e)

  unfoldable pub read_file : Text → ReadOptions → Act S Bytes
  read_file path options = do
    assert_open
    normal ← lift (normalize_path path)
    read_normal normal options

  -- `readText`, with `new TextDecoder(options.encoding).decode`, which may throw.
  unfoldable pub read_text : Text → ReadOptions → (Bytes → Result Text) → Act S Text
  read_text path options decoder = do bytes ← read_file path options; lift (decoder bytes)

  -- `writeFile`: the three routes, after the checks.
  unfoldable pub written_support : SupportMode → Option Stat → ℕ → WriteOptions → SupportMode
  written_support route existing n options =
      partition_support route adapter.partition
        (some (get_write_size (size_of existing) n options.mode options.at options.truncate))

  unfoldable pub materialize :
      StreamLibrary → Text → List Bytes → WriteOptions → Option Stat → Exec (Writing S) (Unit {0})
  materialize library path chunks options existing = do
    set_support emulated
    bytes ←
        lift
          (collect_bytes library chunks config.max_buffered_write_bytes options.signal "write" path)
    set_bytes (length bytes)
    buffer (length bytes)
    set_support (written_support emulated existing (length bytes) options)
    within (on_store (adapter.write_file path bytes options))

  unfoldable pub route_stream :
      StreamLibrary
      → Text
      → List Bytes
      → WriteOptions
      → Option Stat
      → Option (Text → List Bytes → WriteOptions → Exec S (Unit {0}))
      → Exec (Writing S) (Unit {0})
  route_stream library path chunks options existing none =
      materialize library path chunks options existing
  route_stream library path chunks options existing (some write) =
      if config.optimizations.stream_write
        && includes_mode adapter.capabilities.stream_write_modes options.mode
      then (do
        set_support ((get_support adapter config.optimizations).stream_write options.mode)
        within (on_store (write path chunks options)))
      else materialize library path chunks options existing

  unfoldable pub route_data :
      StreamLibrary → Text → WriteData → WriteOptions → Option Stat → Exec (Writing S) (Unit {0})
  route_data library path (whole_data bytes) options existing = do
    set_bytes (length bytes)
    set_support (written_support native existing (length bytes) options)
    within (on_store (adapter.write_file path bytes options))
  route_data library path (stream_data chunks) options existing =
      route_stream library path chunks options existing adapter.write_stream

  unfoldable pub write_body :
      StreamLibrary → Text → WriteData → WriteOptions → Bool → Exec (Writing S) (Unit {0})
  write_body library path input options parents = do
    within (on_store (ensure_parents_of adapter config parents path options.signal))
    within (on_store (require_parent adapter config "write" path options.signal))
    existing ← within (on_store (adapter.stat path options.signal))
    lift (if is_directory_stat existing then fail type_mismatch "write" (some path) else ok tt)
    route_data library path input options existing
    record_success

  unfoldable pub write_locked :
      StreamLibrary → Text → WriteData → WriteOptions → Bool → Act S (Unit {0})
  write_locked library path input options parents f = release_write (
      record_failure path (
        write_body library path input options parents
          (record { facade = f; support = native; bytes = none; buffered = 0 })))

  unfoldable pub write_normal :
      StreamLibrary → Text → WriteData → WriteOptions → Bool → Act S (Unit {0})
  write_normal library path input options parents = do
    acquire_file options.signal path
    write_locked library path input options parents

  unfoldable pub write_file :
      StreamLibrary → Text → WriteData → WriteOptions → Bool → Act S (Unit {0})
  write_file library path input options parents = do
    assert_open
    normal ← lift (normalize_path path)
    (if same normal root_path
        then lift (fail type_mismatch "write" (some normal))
        else write_normal library normal input options parents)
