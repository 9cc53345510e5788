-- ===== src/Metrics/Tests.antt =====
-- Runs of the metrics book (src/metrics.ts), and a witness for its counters.
use opfs.Prelude.{◌≡◌, refl, none, some, true, false, List, [], ◌∷◌}
use opfs.Support.{native, emulated}
use opfs.Metrics.{
  timing_mode, stat_metric, read_metric, MetricRecord, new_metrics, pos, negsuc, buffer_delta,
  same_operation, add_record, find_entry, update_entry, record_attempt, MetricCall, buffer_call,
  record_call, run_metric, run_metrics,
}
use opfs.Metrics.Tallies.{attempts, observed}
use opfs.Metrics.Counters.{find_entry-run_metrics}

abbrev read_record : MetricRecord
read_record = record { support = some native; bytes = some 4; started = some 10; failed = false }

abbrev failed_record : MetricRecord
failed_record = record { support = some emulated; bytes = none; started = some 20; failed = true }

abbrev history : List MetricCall
history =
    record_call read_metric read_record 13
    ∷ buffer_call (pos 6)
    ∷ record_call stat_metric failed_record 25
    ∷ buffer_call (negsuc 8)
    ∷ record_call read_metric failed_record 27
    ∷ []

history_runs : run_metrics history (new_metrics timing_mode) ≡ record {
  mode = timing_mode;
  operations =
      (
        read_metric,
        record {
          count = 2;
          failures = 1;
          bytes = 4;
          native_count = 1;
          emulated_count = 1;
          partitioned_count = 0;
          duration_ms = 10;
          max_duration_ms = 7;
        },
      )
      ∷ (
        stat_metric,
        record {
          count = 1;
          failures = 1;
          bytes = 0;
          native_count = 0;
          emulated_count = 1;
          partitioned_count = 0;
          duration_ms = 5;
          max_duration_ms = 5;
        },
      )
      ∷ [];
  buffered_bytes = 0;
  peak_buffered_bytes = 6;
}
unfolding run_metrics run_metric new_metrics buffer_delta record_attempt add_record update_entry
    same_operation
history_runs = refl

find_entry-run_metrics_example :
    find_entry read_metric (run_metrics history (new_metrics timing_mode)).operations
    ≡ observed timing_mode (attempts read_metric history)
find_entry-run_metrics_example = find_entry-run_metrics history timing_mode read_metric
