-- ===== src/Metrics/Tallies.antt =====
-- The counters that a list of attempts should have, and what one more attempt adds (src/metrics.ts).
use opfs.Prelude.{
  ℕ, ◌+◌, max, ◌≡◌, refl, ap, ◌∙◌, sym, Option, none, some, List, [], ◌∷◌, if◌then◌else◌, arith,
}
use opfs.Metrics.{
  MetricsMode, MetricOperation, MetricEntry, MetricRecord, is_none_mode, same_operation, new_entry,
  one_if, bytes_of, has_native, has_emulated, has_partitioned, duration, add_record, MetricCall,
  buffer_call, record_call,
}
use opfs.Metrics.Entries.{or_new}

-- A record, and the clock when it was made.
abbrev pub Attempt : Type 0
Attempt = MetricRecord × ℕ

unfoldable pub attempts : MetricOperation → List MetricCall → List Attempt
attempts q [] = []
attempts q (buffer_call delta ∷ cs) = attempts q cs
attempts q (record_call p r now ∷ cs) =
    let rest = attempts q cs in if same_operation p q then (r, now) ∷ rest else rest

abbrev pub total : (Attempt → ℕ) → List Attempt → ℕ
total f [] = 0
total f (a ∷ attempts) = f a + total f attempts

abbrev pub largest : (Attempt → ℕ) → List Attempt → ℕ
largest f [] = 0
largest f (a ∷ attempts) = max (f a) (largest f attempts)

abbrev pub tally : MetricsMode → List Attempt → MetricEntry
tally mode attempts = record {
  count = total (λ a. 1) attempts;
  failures = total (λ a. one_if a.0.failed) attempts;
  bytes = total (λ a. bytes_of a.0.bytes) attempts;
  native_count = total (λ a. one_if (has_native a.0.support)) attempts;
  emulated_count = total (λ a. one_if (has_emulated a.0.support)) attempts;
  partitioned_count = total (λ a. one_if (has_partitioned a.0.support)) attempts;
  duration_ms = total (λ a. duration mode a.0 a.1) attempts;
  max_duration_ms = largest (λ a. duration mode a.0 a.1) attempts;
}

abbrev pub observed_tally : MetricsMode → List Attempt → Option MetricEntry
observed_tally mode [] = none
observed_tally mode (a ∷ attempts) = some (tally mode (a ∷ attempts))

-- The entry that a book should have: none where it counts nothing or nothing was attempted.
unfoldable pub observed : MetricsMode → List Attempt → Option MetricEntry
observed mode attempts = if is_none_mode mode then none else observed_tally mode attempts

unfoldable merge : MetricEntry → MetricEntry → MetricEntry
merge e d = record {
  count = e.count + d.count;
  failures = e.failures + d.failures;
  bytes = e.bytes + d.bytes;
  native_count = e.native_count + d.native_count;
  emulated_count = e.emulated_count + d.emulated_count;
  partitioned_count = e.partitioned_count + d.partitioned_count;
  duration_ms = e.duration_ms + d.duration_ms;
  max_duration_ms = max e.max_duration_ms d.max_duration_ms;
}

plus_assoc : (a b c : ℕ) → (a + b) + c ≡ a + (b + c)
plus_assoc a b c = omega arith

max_assoc : (a b c : ℕ) → max (max a b) c ≡ max a (max b c)
max_assoc a b c = omega arith

max_zero_right : (a : ℕ) → max a 0 ≡ a
max_zero_right a = omega arith

plus_zero : (a : ℕ) → a + 0 ≡ a
plus_zero a = omega arith

merge-add_record :
    (mode : MetricsMode) (r : MetricRecord) (now : ℕ) (e : MetricEntry) (past : List Attempt)
    → merge (add_record mode r now e) (tally mode past) ≡ merge e (tally mode ((r, now) ∷ past))
unfolding merge add_record
merge-add_record mode r now e past = λ i. record {
  count = plus_assoc e.count 1 (total (λ a. 1) past) i;
  failures = plus_assoc e.failures (one_if r.failed) (total (λ a. one_if a.0.failed) past) i;
  bytes = plus_assoc e.bytes (bytes_of r.bytes) (total (λ a. bytes_of a.0.bytes) past) i;
  native_count =
      plus_assoc e.native_count (one_if (has_native r.support))
        (total (λ a. one_if (has_native a.0.support)) past) i;
  emulated_count =
      plus_assoc e.emulated_count (one_if (has_emulated r.support))
        (total (λ a. one_if (has_emulated a.0.support)) past) i;
  partitioned_count =
      plus_assoc e.partitioned_count (one_if (has_partitioned r.support))
        (total (λ a. one_if (has_partitioned a.0.support)) past) i;
  duration_ms =
      plus_assoc e.duration_ms (duration mode r now) (total (λ a. duration mode a.0 a.1) past) i;
  max_duration_ms =
      max_assoc e.max_duration_ms (duration mode r now) (largest (λ a. duration mode a.0 a.1) past)
        i;
}

merge_nothing : (mode : MetricsMode) (e : MetricEntry) → merge e (tally mode []) ≡ e
unfolding merge
merge_nothing mode e = λ i. record {
  count = plus_zero e.count i;
  failures = plus_zero e.failures i;
  bytes = plus_zero e.bytes i;
  native_count = plus_zero e.native_count i;
  emulated_count = plus_zero e.emulated_count i;
  partitioned_count = plus_zero e.partitioned_count i;
  duration_ms = plus_zero e.duration_ms i;
  max_duration_ms = max_zero_right e.max_duration_ms i;
}

zero_plus : (a : ℕ) → 0 + a ≡ a
zero_plus a = omega arith

max_zero_left : (a : ℕ) → max 0 a ≡ a
max_zero_left a = omega arith

merge-new_entry : (e : MetricEntry) → merge new_entry e ≡ e
unfolding merge
merge-new_entry e = λ i. record {
  count = zero_plus e.count i;
  failures = zero_plus e.failures i;
  bytes = zero_plus e.bytes i;
  native_count = zero_plus e.native_count i;
  emulated_count = zero_plus e.emulated_count i;
  partitioned_count = zero_plus e.partitioned_count i;
  duration_ms = zero_plus e.duration_ms i;
  max_duration_ms = max_zero_left e.max_duration_ms i;
}

-- What attempts make of the entry that is there.
unfoldable pub extend : MetricsMode → Option MetricEntry → List Attempt → Option MetricEntry
unfolding merge
extend mode e [] = e
extend mode e (a ∷ past) = some (merge (or_new e) (tally mode (a ∷ past)))

extend-some :
    (mode : MetricsMode) (e : MetricEntry) (past : List Attempt)
    → extend mode (some e) past ≡ some (merge e (tally mode past))
unfolding extend
extend-some mode e [] = ap some (sym (merge_nothing mode e))
extend-some mode e (a ∷ past) = refl

pub extend_next :
    (mode : MetricsMode) (r : MetricRecord) (now : ℕ) (e : Option MetricEntry) (past : List Attempt)
    → extend mode (some (add_record mode r now (or_new e))) past ≡ extend mode e ((r, now) ∷ past)
unfolding extend
extend_next mode r now e past =
    extend-some mode (add_record mode r now (or_new e)) past
    ∙ ap some (merge-add_record mode r now (or_new e) past)

pub extend-none :
    (mode : MetricsMode) (past : List Attempt) → extend mode none past ≡ observed_tally mode past
unfolding extend
extend-none mode [] = refl
extend-none mode (a ∷ past) = ap some (merge-new_entry (tally mode (a ∷ past)))
