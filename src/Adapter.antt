-- ===== src/Adapter.antt =====
-- The adapter contract (src/adapter/definition.ts, with the options and the metadata of
-- src/driver/file.ts), over the state `S` of the storage behind it. An optional method is an
-- option. A byte stream is the list of its chunks.
use opfs.Prelude.{
  ℕ, Option, none, some, Bool, true, false, not, ◌&&◌, ◌||◌, List, [], ◌∷◌, Text, if◌then◌else◌,
}
use opfs.Failure.{Result, ok, throw, type_error, AbortSignal}
use opfs.Bytes.{Bytes, WriteMode, replace, append, update}
use opfs.Exec.{Exec}

pub data EntryKind : Type 0 where
  file directory : EntryKind

pub record ReadOptions : Type 0 where
  pub at : Option ℕ
  pub size : Option ℕ
  pub signal : Option AbortSignal

pub record WriteOptions : Type 0 where
  pub mode : WriteMode
  pub at : Option ℕ
  pub truncate : Bool
  pub media_type : Option Text
  pub signal : Option AbortSignal

-- `FileDriverStatType`.
pub data Stat : Type 0 where
  file_stat : ℕ → ℕ → Text → Stat
  directory_stat : Option ℕ → Stat

pub record DirectoryEntry : Type 0 where
  pub name : Text
  pub kind : EntryKind

-- `AdapterCapabilitiesType`.
pub record Capabilities : Type 0 where
  pub read : Bool
  pub write : Bool
  pub stream_read : Bool
  pub stream_write_modes : List WriteMode
  pub range_read : Bool
  pub native_copy : Bool
  pub native_move : Bool
  pub positional_write : Bool
  pub sync_access : Bool

pub data PartitionMode : Type 0 where
  never auto always : PartitionMode

-- `AdapterPartitionType`.
pub record Partition : Type 0 where
  pub mode : PartitionMode
  pub part_bytes : ℕ
  pub threshold_bytes : Option ℕ
  pub stream : Bool

pub record Adapter (S : Type 0) : Type 0 where
  pub capabilities : Capabilities
  pub partition : Option Partition
  pub stat : Text → Option AbortSignal → Exec S (Option Stat)
  pub read_file : Text → ReadOptions → Exec S Bytes
  pub write_file : Text → Bytes → WriteOptions → Exec S (Unit {0})
  pub read_dir : Text → Option AbortSignal → Exec S (List DirectoryEntry)
  pub create_dir : Text → Option AbortSignal → Exec S (Unit {0})
  pub remove : Text → Option AbortSignal → Exec S (Unit {0})
  pub open_read_stream : Option (Text → ReadOptions → Exec S (List Bytes))
  pub write_stream : Option (Text → List Bytes → WriteOptions → Exec S (Unit {0}))
  pub copy : Option (Text → Text → Bool → Exec S (Unit {0}))
  pub move : Option (Text → Text → Bool → Exec S (Unit {0}))
  pub has_open_writable_file : Bool
  pub has_open_sync_file : Bool

-- `modes.includes(mode)`.
abbrev pub is_mode : WriteMode → WriteMode → Bool
is_mode replace replace = true
is_mode append append = true
is_mode update update = true
is_mode _ _ = false

abbrev pub includes_mode : List WriteMode → WriteMode → Bool
includes_mode [] m = false
includes_mode (x ∷ xs) m = is_mode x m || includes_mode xs m

abbrev pub defined {ℓ} : {A : Type ℓ} → Option A → Bool
defined none = false
defined (some a) = true

abbrev pub is_empty {ℓ} : {A : Type ℓ} → List A → Bool
is_empty [] = true
is_empty (x ∷ xs) = false

-- The capability checks of `defineAdapter`: a declared capability has its method.
unfoldable pub define_adapter : {S : Type 0} → Adapter S → Result (Adapter S)
define_adapter a =
    if (a.capabilities.stream_read && not (defined a.open_read_stream))
      || (a.capabilities.native_copy && not (defined a.copy))
      || (a.capabilities.native_move && not (defined a.move))
      || (a.capabilities.positional_write && not a.has_open_writable_file)
      || (a.capabilities.sync_access && not a.has_open_sync_file)
      || (not (is_empty a.capabilities.stream_write_modes) && not (defined a.write_stream))
    then throw type_error
    else ok a
