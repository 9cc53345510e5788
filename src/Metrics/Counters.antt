-- ===== src/Metrics/Counters.antt =====
-- The counters of src/metrics.ts against the list of the attempts that were recorded.
use opfs.Prelude.{ℕ, ◌≡◌, refl, ap, ◌∙◌, Bool, true, false, List, [], ◌∷◌, if◌then◌else◌, arith}
use opfs.Metrics.{
  MetricsMode, none_mode, basic_mode, timing_mode, MetricOperation, MetricRecord, Metrics,
  new_metrics, is_none_mode, ℤ, buffer_delta, same_operation, add_record, Entries, find_entry,
  update_entry, record_attempt, MetricCall, buffer_call, record_call, run_metric, run_metrics,
}
use opfs.Metrics.Entries.{changed, find_entry-update_entry, find_entry_same}
use opfs.Metrics.Tallies.{Attempt, attempts, observed, extend, extend_next, extend-none}

buffer_operations : (delta : ℤ) (m : Metrics) → (buffer_delta delta m).operations ≡ m.operations
unfolding buffer_delta
buffer_operations delta m = ground arith

pub buffer_mode : (delta : ℤ) (m : Metrics) → (buffer_delta delta m).mode ≡ m.mode
unfolding buffer_delta
buffer_mode delta m = ground arith

record_operations :
    (p : MetricOperation) (r : MetricRecord) (now : ℕ) (m : Metrics)
    → is_none_mode m.mode ≡ false
    → (record_attempt p r now m).operations ≡ update_entry p (add_record m.mode r now) m.operations
unfolding record_attempt
record_operations p r now m h = rw h refl

pub record_mode :
    (p : MetricOperation) (r : MetricRecord) (now : ℕ) (m : Metrics)
    → (record_attempt p r now m).mode ≡ m.mode
unfolding record_attempt
record_mode p r now m = ground arith

-- One more record, seen from the entry of one operation.
extend-changed :
    (b : Bool) (mode : MetricsMode) (p q : MetricOperation) (r : MetricRecord) (now : ℕ)
    (entries : Entries) (past : List Attempt)
    → same_operation p q ≡ b
    → extend mode (changed p q (add_record mode r now) entries) past
      ≡ extend mode (find_entry q entries) (if same_operation p q then (r, now) ∷ past else past)
extend-changed true mode p q r now entries past h =
    rw (h, find_entry_same p q entries h) (extend_next mode r now (find_entry q entries) past)
extend-changed false mode p q r now entries past h = rw h refl

run_metrics-extend :
    (cs : List MetricCall) (m : Metrics) (mode : MetricsMode) (entries : Entries)
    (q : MetricOperation)
    → m.mode ≡ mode
    → m.operations ≡ entries
    → is_none_mode mode ≡ false
    → find_entry q (run_metrics cs m).operations
      ≡ extend mode (find_entry q entries) (attempts q cs)
unfolding run_metrics run_metric attempts extend
run_metrics-extend [] m mode entries q e h n = ap (find_entry q) h
run_metrics-extend (buffer_call delta ∷ cs) m mode entries q e h n =
    run_metrics-extend cs (buffer_delta delta m) mode entries q (buffer_mode delta m ∙ e)
      (buffer_operations delta m ∙ h) n
run_metrics-extend (record_call p r now ∷ cs) m mode entries q e h n =
    run_metrics-extend cs (record_attempt p r now m) mode
      (update_entry p (add_record mode r now) entries) q (record_mode p r now m ∙ e)
      (record_operations p r now m (ap is_none_mode e ∙ n)
        ∙ ap (λ k. update_entry p (add_record k r now) m.operations) e
        ∙ ap (update_entry p (add_record mode r now)) h)
      n
    ∙ ap (λ x. extend mode x (attempts q cs))
        (find_entry-update_entry p q (add_record mode r now) entries)
    ∙ extend-changed (same_operation p q) mode p q r now entries (attempts q cs) refl

-- A book that counts nothing stays as it was.
pub run_metrics_none :
    (cs : List MetricCall) (m : Metrics) → is_none_mode m.mode ≡ true → run_metrics cs m ≡ m
unfolding run_metrics run_metric buffer_delta record_attempt
run_metrics_none [] m h = refl
run_metrics_none (buffer_call delta ∷ cs) m h = rw h (run_metrics_none cs m h)
run_metrics_none (record_call p r now ∷ cs) m h = rw h (run_metrics_none cs m h)

-- After any calls on a new book, the counters of an operation are those of the attempts that were
-- recorded for it: how many there were, how many failed, the sum of their bytes, how many had each kind
-- of support and, where the book measures time, the sum and the largest of their durations. An
-- operation without an attempt has no entry, and a book with the mode `none` has none at all.
pub find_entry-run_metrics :
    (cs : List MetricCall) (mode : MetricsMode) (q : MetricOperation)
    → find_entry q (run_metrics cs (new_metrics mode)).operations ≡ observed mode (attempts q cs)
unfolding new_metrics observed find_entry
find_entry-run_metrics cs none_mode q =
    ap (λ m. find_entry q m.operations) (run_metrics_none cs (new_metrics none_mode) refl)
find_entry-run_metrics cs basic_mode q =
    run_metrics-extend cs (new_metrics basic_mode) basic_mode [] q refl refl refl
    ∙ extend-none basic_mode (attempts q cs)
find_entry-run_metrics cs timing_mode q =
    run_metrics-extend cs (new_metrics timing_mode) timing_mode [] q refl refl refl
    ∙ extend-none timing_mode (attempts q cs)
