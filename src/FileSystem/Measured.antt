-- ===== src/FileSystem/Measured.antt =====
-- The metrics book of the facade (src/metrics.ts, as src/filesystem.ts calls it): the events of the
-- operations as calls on the book.
use opfs.Prelude.{
  ℕ, zero, suc, ◌+◌, ◌-◌, ◌≡◌, refl, ap, ◌∙◌, sym, Option, some, false, List, All, [], ◌∷◌, arith,
}
use opfs.Adapter.{Adapter}
use opfs.Metrics.{
  MetricsMode, none_mode, basic_mode, timing_mode, MetricOperation, MetricRecord, Metrics,
  new_metrics, is_none_mode, pos, negative, buffer_delta, record_attempt, MetricCall, buffer_call,
  record_call, run_metric, run_metrics,
}
use opfs.Metrics.Counters.{run_metrics_none, buffer_mode, record_mode}
use opfs.FileSystem.{
  Event, acquired_tree, acquired_file, released, buffered, unbuffered, recorded, Facade, Config,
  StreamLibrary,
}
use opfs.FileSystem.Balance.{Book, enter, book_below, below_first, closed_book, Stands}
use opfs.FileSystem.Calls.{Request, OpensNothing, Openers, run_requests, run_requests-Stands}

-- The calls that the events are; the clock gives a record the reading that its operation took at its
-- start, if it took one, and the reading now.
unfoldable pub metric_calls : (List Event → Option ℕ × ℕ) → List Event → List MetricCall
metric_calls clock [] = []
metric_calls clock (acquired_tree ∷ es) = metric_calls clock es
metric_calls clock (acquired_file path ∷ es) = metric_calls clock es
metric_calls clock (released ∷ es) = metric_calls clock es
metric_calls clock (buffered n ∷ es) = buffer_call (pos n) ∷ metric_calls clock es
metric_calls clock (unbuffered n ∷ es) = buffer_call (negative n) ∷ metric_calls clock es
metric_calls clock (recorded operation mode n failed ∷ es) =
    record_call operation
      (record { support = some mode; bytes = n; started = (clock es).0; failed = failed })
      (clock es).1
    ∷ metric_calls clock es

-- The metrics of a facade after its events.
unfoldable pub metrics_of : (List Event → Option ℕ × ℕ) → MetricsMode → List Event → Metrics
metrics_of clock mode es = run_metrics (metric_calls clock es) (new_metrics mode)

buffer_more :
    (n : ℕ) (m : Metrics)
    → is_none_mode m.mode ≡ false
    → (buffer_delta (pos n) m).buffered_bytes ≡ m.buffered_bytes + n
unfolding buffer_delta
buffer_more zero m h = rw h (omega arith)
buffer_more (suc n) m h = rw h refl

buffer_less :
    (n : ℕ) (m : Metrics)
    → is_none_mode m.mode ≡ false
    → (buffer_delta (negative n) m).buffered_bytes ≡ m.buffered_bytes - n
unfolding buffer_delta
buffer_less zero m h = rw h (omega arith)
buffer_less (suc n) m h = rw h refl

record_buffered :
    (p : MetricOperation) (r : MetricRecord) (now : ℕ) (m : Metrics)
    → (record_attempt p r now m).buffered_bytes ≡ m.buffered_bytes
unfolding record_attempt
record_buffered p r now m = ground arith

-- What an event does to the bytes in buffers, and to the book.
unfoldable bytes_after : Event → ℕ → ℕ
bytes_after acquired_tree n = n
bytes_after (acquired_file path) n = n
bytes_after released n = n
bytes_after (buffered k) n = n + k
bytes_after (unbuffered k) n = n - k
bytes_after (recorded operation mode k failed) n = n

unfoldable event_on : (Option ℕ × ℕ) → Event → Metrics → Metrics
event_on reading acquired_tree m = m
event_on reading (acquired_file path) m = m
event_on reading released m = m
event_on reading (buffered n) m = buffer_delta (pos n) m
event_on reading (unbuffered n) m = buffer_delta (negative n) m
event_on reading (recorded operation mode n failed) m =
    record_attempt operation
      (record { support = some mode; bytes = n; started = reading.0; failed = failed }) reading.1 m

run_metrics_first :
    (clock : List Event → Option ℕ × ℕ) (e : Event) (es : List Event) (m : Metrics)
    → run_metrics (metric_calls clock (e ∷ es)) m
      ≡ run_metrics (metric_calls clock es) (event_on (clock es) e m)
unfolding run_metrics run_metric metric_calls event_on
run_metrics_first clock acquired_tree es m = refl
run_metrics_first clock (acquired_file path) es m = refl
run_metrics_first clock released es m = refl
run_metrics_first clock (buffered n) es m = refl
run_metrics_first clock (unbuffered n) es m = refl
run_metrics_first clock (recorded operation mode n failed) es m = refl

enter_bytes : (e : Event) (b d : Book) → enter e b ≡ some d → d.bytes ≡ bytes_after e b.bytes
unfolding enter bytes_after
enter_bytes acquired_tree b d h = ground arith
enter_bytes (acquired_file path) b d h = ground arith
enter_bytes released b d h = ground arith
enter_bytes (buffered n) b d h = ground arith
enter_bytes (unbuffered n) b d h = ground arith
enter_bytes (recorded operation mode n failed) b d h = ground arith

event_on_mode :
    (reading : Option ℕ × ℕ) (e : Event) (m : Metrics) → (event_on reading e m).mode ≡ m.mode
unfolding event_on
event_on_mode reading acquired_tree m = refl
event_on_mode reading (acquired_file path) m = refl
event_on_mode reading released m = refl
event_on_mode reading (buffered n) m = buffer_mode (pos n) m
event_on_mode reading (unbuffered n) m = buffer_mode (negative n) m
event_on_mode reading (recorded operation mode n failed) m =
    record_mode operation
      (record { support = some mode; bytes = n; started = reading.0; failed = failed }) reading.1 m

event_on_bytes :
    (reading : Option ℕ × ℕ) (e : Event) (m : Metrics)
    → is_none_mode m.mode ≡ false
    → (event_on reading e m).buffered_bytes ≡ bytes_after e m.buffered_bytes
unfolding event_on bytes_after
event_on_bytes reading acquired_tree m h = refl
event_on_bytes reading (acquired_file path) m h = refl
event_on_bytes reading released m h = refl
event_on_bytes reading (buffered n) m h = buffer_more n m h
event_on_bytes reading (unbuffered n) m h = buffer_less n m h
event_on_bytes reading (recorded operation mode n failed) m h =
    record_buffered operation
      (record { support = some mode; bytes = n; started = reading.0; failed = failed }) reading.1 m

-- A book that counts has the bytes of the books of the discipline.
run_metrics-below :
    (clock : List Event → Option ℕ × ℕ) (es : List Event) (b c : Book) (m : Metrics)
    → is_none_mode m.mode ≡ false
    → m.buffered_bytes ≡ b.bytes
    → book_below b es ≡ some c
    → (run_metrics (metric_calls clock es) m).buffered_bytes ≡ c.bytes
unfolding run_metrics metric_calls book_below
run_metrics-below clock [] b c m h e g =
    let same_book : b ≡ c = cc in e ∙ ap (λ x. x.bytes) same_book
run_metrics-below clock (x ∷ es) b c m h e g =
    let (d, entered, rest) = below_first x es b c g in
    ap (λ n. n.buffered_bytes) (run_metrics_first clock x es m)
    ∙ run_metrics-below clock es d c (event_on (clock es) x m)
        (ap is_none_mode (event_on_mode (clock es) x m) ∙ h)
        (event_on_bytes (clock es) x m h ∙ ap (bytes_after x) e ∙ sym (enter_bytes x b d entered))
        rest

metrics_of-Stands :
    {S : Type 0} (clock : List Event → Option ℕ × ℕ) (mode : MetricsMode) (f : Facade S)
    → Stands f closed_book
    → (metrics_of clock mode f.events).buffered_bytes ≡ 0
unfolding metrics_of new_metrics
metrics_of-Stands clock none_mode f h =
    ap (λ m. m.buffered_bytes)
      (run_metrics_none (metric_calls clock f.events) (new_metrics none_mode) refl)
metrics_of-Stands clock basic_mode f h =
    run_metrics-below clock f.events closed_book closed_book (new_metrics basic_mode) refl refl h
metrics_of-Stands clock timing_mode f h =
    run_metrics-below clock f.events closed_book closed_book (new_metrics timing_mode) refl refl h

-- After any sequence of calls on a facade whose books were closed, whether the calls returned or
-- threw, with none that opens a long-lived file among them, the metrics of the facade show no buffered byte, in every mode and whatever the clock says.
pub metrics_of-run_requests :
    {S F : Type 0} (adapter : Adapter S) (config : Config) (library : StreamLibrary)
    (openers : Openers S F) (fuel : ℕ) (rs : List Request) (f : Facade S)
    (clock : List Event → Option ℕ × ℕ) (mode : MetricsMode)
    → All OpensNothing rs
    → Stands f closed_book
    → (metrics_of clock mode
        (run_requests adapter config library openers fuel rs f).events).buffered_bytes
      ≡ 0
metrics_of-run_requests adapter config library openers fuel rs f clock mode n h =
    metrics_of-Stands clock mode (run_requests adapter config library openers fuel rs f)
      (run_requests-Stands adapter config library openers fuel rs f n h)
