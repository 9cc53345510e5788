-- ===== src/FileSystem.antt =====
-- The facade (`FileSystemFacade` of src/filesystem.ts) over any adapter: the guards of its
-- operations, what they ask of the adapter and in which order, and the locks, metrics and buffers
-- around that, which are kept as a list of events. One operation runs alone here: src/lock.ts
-- keeps two mutations apart, and the state of a signal does not change during a call.
use opfs.Prelude.{
  ℕ, zero, suc, ◌≡◌, Option, none, some, Bool, true, false, not, ◌&&◌, ◌||◌, List, [], ◌∷◌, ◌++◌,
  Text, String, same, leb, length, if◌then◌else◌,
}
use mathlib.Core.List.{flatten}
use opfs.Failure.{
  Result, ok, throw, fail, Thrown, ErrorCode, not_found, already_exists, type_mismatch,
  invalid_operation, AbortSignal, throw_if_aborted, to_file_system_error, package_error,
}
use opfs.Bytes.{Bytes, WriteMode}
use opfs.Exec.{Exec, pure, raise, lift, continue, ◌>>=◌, ◌>>◌}
use opfs.Path.{root_path, normalize_path, split_path, join_path, dirname, basename}
use opfs.Adapter.{
  Adapter, Stat, file_stat, directory_stat, DirectoryEntry, EntryKind, file, directory,
}
use opfs.Support.{SupportMode, Optimizations}
pub use opfs.Metrics.{
  MetricOperation, stat_metric, read_metric, read_stream_metric, write_metric, copy_metric,
  move_metric, remove_metric,
}
pub mod Operations
pub mod Contents
pub mod Removal
pub mod Copying
pub mod Iteration
pub mod Balance
pub mod Discipline
pub mod WriteBalance
pub mod TreeBalance
pub mod CopyBalance
pub mod IterationBalance
pub mod Walks
pub mod Yields
pub mod Ending
pub mod TreeTests
pub mod Calls
pub mod Measured
pub mod Tests

-- What an operation does to the locks and to the metrics book.
pub data Event : Type 0 where
  acquired_tree : Event
  acquired_file : Text → Event
  released : Event
  buffered : ℕ → Event
  unbuffered : ℕ → Event
  recorded : MetricOperation → SupportMode → Option ℕ → Bool → Event

pub record Facade (S : Type 0) : Type 0 where
  pub store : S
  pub closed : Bool
  pub events : List Event

pub record Config : Type 0 where
  pub optimizations : Optimizations
  pub max_buffered_write_bytes : ℕ

abbrev pub Act : Type 0 → Type 0 → Type 0
Act S A = Exec (Facade S) A

module _ {S : Type 0} where
  -- A call of the adapter.
  unfoldable pub on_store : {A : Type 0} → Exec S A → Act S A
  on_store m f = let (r, s) = m f.store in (r, record f { store = s })

  unfoldable pub emit : Event → Act S (Unit {0})
  emit e f = (ok tt, record f { events = f.events ++ e ∷ [] })

  -- `try { m } finally { last }`, where `last` does not throw.
  unfoldable pub finally : {A : Type 0} → Act S A → Act S (Unit {0}) → Act S A
  finally m last f = let (r, g) = m f in (r, (last g).1)

  -- `try { m } catch (error) { handler }`.
  unfoldable pub catch : {A : Type 0} → Act S A → (Thrown → Act S A) → Act S A
  catch m handler f = let (r, g) = m f in elim r [ ok a ↦ (ok a, g) | throw e ↦ handler e g ]

  unfoldable pub assert_open : Act S (Unit {0})
  assert_open f = if f.closed then (fail invalid_operation "filesystem" none, f) else (ok tt, f)

  -- `const lock = await acquireTree(signal)`. An aborted signal is refused before the lock.
  unfoldable pub acquire_tree : Option AbortSignal → Act S (Unit {0})
  acquire_tree signal = do lift (throw_if_aborted signal "lock" none); emit acquired_tree

  unfoldable pub acquire_file : Option AbortSignal → Text → Act S (Unit {0})
  acquire_file signal path = do
    lift (throw_if_aborted signal "lock" none)
    emit (acquired_file path)

abbrev pub is_directory_stat : Option Stat → Bool
is_directory_stat none = false
is_directory_stat (some (file_stat size modified media)) = false
is_directory_stat (some (directory_stat modified)) = true

abbrev pub is_file_stat : Option Stat → Bool
is_file_stat none = false
is_file_stat (some (file_stat size modified media)) = true
is_file_stat (some (directory_stat modified)) = false

-- `WriteDataType`: a value that is there as bytes, or a stream of chunks.
pub data WriteData : Type 0 where
  whole_data : Bytes → WriteData
  stream_data : List Bytes → WriteData

-- `StatType`.
pub record FacadeStat : Type 0 where
  pub path : Text
  pub name : Text
  pub stat : Stat

-- The mutable locals of `writeFile`, which its `catch` and `finally` read.
pub record Writing (S : Type 0) : Type 0 where
  pub facade : Facade S
  pub support : SupportMode
  pub bytes : Option ℕ
  pub buffered : ℕ

-- `@std/streams`: `toBytes` behind a `LimitedBytesTransformStream` collects a stream that is within
-- the limit, and fails with a `RangeError` on a longer one.
pub record StreamLibrary : Type 0 where
  pub collect : ℕ → List Bytes → Option Bytes
  pub collect_eq :
      (limit : ℕ) (chunks : List Bytes)
      → collect limit chunks
        ≡ (if leb (length (flatten chunks)) limit then some (flatten chunks) else none)
