-- ===== src/Metrics.antt =====
-- The book of metrics (`Metrics` of src/metrics.ts): counters of operations, and the bytes that are in
-- buffers. A reading of the clock is a number, with its argument in place of `performance.now()`.
use opfs.Prelude.{
  ℕ, zero, suc, ◌+◌, ◌-◌, max, Option, none, some, Bool, true, false, not, ◌&&◌, List, [], ◌∷◌,
  ◌==◌, if◌then◌else◌,
}
use opfs.Support.{SupportMode, native, emulated, partitioned, unsupported}
pub mod Entries
pub mod Tallies
pub mod Counters
pub mod Tests

-- `MetricsModeType`.
pub data MetricsMode : Type 0 where
  none_mode basic_mode timing_mode : MetricsMode

-- `MetricOperationType`.
pub data MetricOperation : Type 0 where
  stat_metric read_metric read_stream_metric write_metric copy_metric move_metric : MetricOperation
  remove_metric list_metric walk_metric writable_metric sync_metric : MetricOperation

-- `MutableMetricType`.
pub record MetricEntry : Type 0 where
  pub count : ℕ
  pub failures : ℕ
  pub bytes : ℕ
  pub native_count : ℕ
  pub emulated_count : ℕ
  pub partitioned_count : ℕ
  pub duration_ms : ℕ
  pub max_duration_ms : ℕ

-- `MetricRecordType`.
pub record MetricRecord : Type 0 where
  pub support : Option SupportMode
  pub bytes : Option ℕ
  pub started : Option ℕ
  pub failed : Bool

pub record Metrics : Type 0 where
  pub mode : MetricsMode
  pub operations : List (MetricOperation × MetricEntry)
  pub buffered_bytes : ℕ
  pub peak_buffered_bytes : ℕ

unfoldable pub new_metrics : MetricsMode → Metrics
new_metrics mode = record {
  mode = mode;
  operations = [];
  buffered_bytes = 0;
  peak_buffered_bytes = 0;
}

abbrev pub is_none_mode : MetricsMode → Bool
is_none_mode none_mode = true
is_none_mode basic_mode = false
is_none_mode timing_mode = false

abbrev pub is_timing_mode : MetricsMode → Bool
is_timing_mode none_mode = false
is_timing_mode basic_mode = false
is_timing_mode timing_mode = true

unfoldable pub start : MetricsMode → ℕ → ℕ
start mode now = if is_timing_mode mode then now else 0

-- A signed number of bytes.
pub data ℤ : Type 0 where
  pos : ℕ → ℤ
  negsuc : ℕ → ℤ

-- `-n`.
abbrev pub negative : ℕ → ℤ
negative zero = pos 0
negative (suc n) = negsuc n

abbrev pub is_zero_delta : ℤ → Bool
is_zero_delta (pos zero) = true
is_zero_delta (pos (suc n)) = false
is_zero_delta (negsuc n) = false

-- `Math.max(0, bytes + delta)`.
abbrev pub max_zero : ℕ → ℤ → ℕ
max_zero bytes (pos n) = bytes + n
max_zero bytes (negsuc n) = bytes - suc n

unfoldable pub buffer_delta : ℤ → Metrics → Metrics
buffer_delta delta m =
    let bytes = max_zero m.buffered_bytes delta in
    if is_none_mode m.mode
    then m
    else if is_zero_delta delta
    then m
    else record m { buffered_bytes = bytes; peak_buffered_bytes = max m.peak_buffered_bytes bytes }

-- The keys of the map of counters, compared by their place in the type.
abbrev pub operation_index : MetricOperation → ℕ
operation_index stat_metric = 0
operation_index read_metric = 1
operation_index read_stream_metric = 2
operation_index write_metric = 3
operation_index copy_metric = 4
operation_index move_metric = 5
operation_index remove_metric = 6
operation_index list_metric = 7
operation_index walk_metric = 8
operation_index writable_metric = 9
operation_index sync_metric = 10

unfoldable pub same_operation : MetricOperation → MetricOperation → Bool
same_operation p q = operation_index p == operation_index q

abbrev pub new_entry : MetricEntry
new_entry = record {
  count = 0;
  failures = 0;
  bytes = 0;
  native_count = 0;
  emulated_count = 0;
  partitioned_count = 0;
  duration_ms = 0;
  max_duration_ms = 0;
}

abbrev pub one_if : Bool → ℕ
one_if true = 1
one_if false = 0

abbrev pub bytes_of : Option ℕ → ℕ
bytes_of none = 0
bytes_of (some n) = n

abbrev pub has_native : Option SupportMode → Bool
has_native (some native) = true
has_native _ = false

abbrev pub has_emulated : Option SupportMode → Bool
has_emulated (some emulated) = true
has_emulated _ = false

abbrev pub has_partitioned : Option SupportMode → Bool
has_partitioned (some partitioned) = true
has_partitioned _ = false

-- `Math.max(0, performance.now() - record.started)` where the attempt is timed; 0 where it is not.
abbrev pub elapsed_ms : Option ℕ → ℕ → ℕ
elapsed_ms none now = 0
elapsed_ms (some zero) now = 0
elapsed_ms (some (suc started)) now = now - suc started

abbrev pub duration : MetricsMode → MetricRecord → ℕ → ℕ
duration mode r now = if is_timing_mode mode then elapsed_ms r.started now else 0

-- The counters of one operation after one more attempt.
unfoldable pub add_record : MetricsMode → MetricRecord → ℕ → MetricEntry → MetricEntry
add_record mode r now e = record {
  count = e.count + 1;
  failures = e.failures + one_if r.failed;
  bytes = e.bytes + bytes_of r.bytes;
  native_count = e.native_count + one_if (has_native r.support);
  emulated_count = e.emulated_count + one_if (has_emulated r.support);
  partitioned_count = e.partitioned_count + one_if (has_partitioned r.support);
  duration_ms = e.duration_ms + duration mode r now;
  max_duration_ms = max e.max_duration_ms (duration mode r now);
}

abbrev pub Entries : Type 0
Entries = List (MetricOperation × MetricEntry)

-- `operations.get`.
unfoldable pub find_entry : MetricOperation → Entries → Option MetricEntry
find_entry q [] = none
find_entry q ((p, e) ∷ entries) = if same_operation p q then some e else find_entry q entries

-- The entry of an operation is changed in place; a new one goes to the end.
unfoldable pub update_entry : MetricOperation → (MetricEntry → MetricEntry) → Entries → Entries
update_entry q change [] = (q, change new_entry) ∷ []
update_entry q change ((p, e) ∷ entries) =
    let rest = update_entry q change entries in
    if same_operation p q then (p, change e) ∷ entries else (p, e) ∷ rest

unfoldable pub record_attempt : MetricOperation → MetricRecord → ℕ → Metrics → Metrics
record_attempt operation r now m =
    if is_none_mode m.mode
    then m
    else record m { operations = update_entry operation (add_record m.mode r now) m.operations }

-- A call on the book.
pub data MetricCall : Type 0 where
  buffer_call : ℤ → MetricCall
  record_call : MetricOperation → MetricRecord → ℕ → MetricCall

unfoldable pub run_metric : MetricCall → Metrics → Metrics
run_metric (buffer_call delta) m = buffer_delta delta m
run_metric (record_call operation r now) m = record_attempt operation r now m

unfoldable pub run_metrics : List MetricCall → Metrics → Metrics
run_metrics [] m = m
run_metrics (c ∷ cs) m = run_metrics cs (run_metric c m)
