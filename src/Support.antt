-- ===== src/Support.antt =====
-- The effective routes of a configured stack (`getSupport` of src/capability.ts).
use opfs.Prelude.{Option, none, some, Bool, false, ◌&&◌, if◌then◌else◌}
use opfs.Bytes.{WriteMode}
use opfs.Adapter.{Adapter, Partition, includes_mode, defined}

-- `SupportModeType`.
pub data SupportMode : Type 0 where
  native emulated partitioned unsupported : SupportMode

-- `OptimizationType`.
pub record Optimizations : Type 0 where
  pub stream_read : Bool
  pub stream_write : Bool
  pub range_read : Bool
  pub native_copy : Bool
  pub native_move : Bool

pub record Support : Type 0 where
  pub stat : SupportMode
  pub read : SupportMode
  pub write : SupportMode
  pub stream_read : SupportMode
  pub stream_write : WriteMode → SupportMode
  pub range_read : SupportMode
  pub copy : SupportMode
  pub move : SupportMode
  pub positional_write : SupportMode
  pub sync_access : SupportMode

-- The function `native`.
unfoldable pub native_or : Bool → Bool → SupportMode
native_or enabled fallback = if enabled then native else if fallback then emulated else unsupported

abbrev pub partition_streams : Option Partition → Bool
partition_streams none = false
partition_streams (some p) = p.stream

module _ {S : Type 0} (adapter : Adapter S) (optimizations : Optimizations) where
  -- Whether a stream in a mode goes to the adapter directly.
  abbrev pub direct_stream : WriteMode → Bool
  direct_stream mode =
      optimizations.stream_write
      && (includes_mode adapter.capabilities.stream_write_modes mode
          && defined adapter.write_stream)

  unfoldable pub stream_write_support : WriteMode → SupportMode
  stream_write_support mode =
      if direct_stream mode && partition_streams adapter.partition
      then partitioned
      else native_or (direct_stream mode) adapter.capabilities.write

  unfoldable pub get_support : Support
  get_support = record {
    stat = native;
    read = if adapter.capabilities.read then native else unsupported;
    write = if adapter.capabilities.write then native else unsupported;
    stream_read =
        native_or
          (optimizations.stream_read
            && (adapter.capabilities.stream_read && defined adapter.open_read_stream))
          adapter.capabilities.read;
    stream_write = stream_write_support;
    range_read =
        native_or (optimizations.range_read && adapter.capabilities.range_read)
          adapter.capabilities.read;
    copy =
        native_or
          (optimizations.native_copy && (adapter.capabilities.native_copy && defined adapter.copy))
          (adapter.capabilities.read && adapter.capabilities.write);
    move =
        native_or
          (optimizations.native_move && (adapter.capabilities.native_move && defined adapter.move))
          (adapter.capabilities.read && adapter.capabilities.write);
    positional_write =
        if adapter.capabilities.positional_write && adapter.has_open_writable_file
        then native
        else unsupported;
    sync_access =
        if adapter.capabilities.sync_access && adapter.has_open_sync_file
        then native
        else unsupported;
  }
