-- ===== src/Metrics/Entries.antt =====
-- The map of counters of src/metrics.ts: lookups after an update.
use opfs.Prelude.{
  ℕ, ◌≡◌, refl, Option, none, some, Bool, true, false, [], ◌∷◌, ◌==◌, if◌then◌else◌, arith,
}
use opfs.Metrics.{
  MetricOperation, MetricEntry, same_operation, operation_index, new_entry, Entries, find_entry,
  update_entry,
}

abbrev pub or_new : Option MetricEntry → MetricEntry
or_new none = new_entry
or_new (some e) = e

same_number : (a b c : ℕ) → (c == a) ≡ true → (c == b) ≡ (a == b)
same_number a b c h = ground arith

other_number : (a b c : ℕ) → (c == a) ≡ false → (c == b) ≡ true → (a == b) ≡ false
other_number a b c h g = ground arith

same_as_third :
    (p q o : MetricOperation) → same_operation o p ≡ true → same_operation o q ≡ same_operation p q
unfolding same_operation
same_as_third p q o h = same_number (operation_index p) (operation_index q) (operation_index o) h

not_third :
    (p q o : MetricOperation)
    → same_operation o p ≡ false
    → same_operation o q ≡ true
    → same_operation p q ≡ false
unfolding same_operation
not_third p q o h g = other_number (operation_index p) (operation_index q) (operation_index o) h g

-- The entry that a lookup finds once an operation has one more record.
abbrev pub changed :
    MetricOperation → MetricOperation → (MetricEntry → MetricEntry) → Entries → Option MetricEntry
changed p q change entries =
    if same_operation p q
    then some (change (or_new (find_entry p entries)))
    else find_entry q entries

changed_first :
    (p q : MetricOperation) (change : MetricEntry → MetricEntry) (o : MetricOperation)
    (e : MetricEntry) (entries : Entries) (b c d : Bool)
    → same_operation o p ≡ b
    → same_operation o q ≡ c
    → same_operation p q ≡ d
    → (b ≡ true → c ≡ d)
    → (b ≡ false → c ≡ true → d ≡ false)
    → find_entry q (update_entry p change entries) ≡ changed p q change entries
    → find_entry q (update_entry p change ((o, e) ∷ entries))
      ≡ changed p q change ((o, e) ∷ entries)
unfolding find_entry update_entry
changed_first p q change o e entries true true true h g k x y rest = rw (h, g, k) refl
changed_first p q change o e entries true false false h g k x y rest = rw (h, g, k) refl
changed_first p q change o e entries true true false h g k x y rest = let no = x refl in cc
changed_first p q change o e entries true false true h g k x y rest = let no = x refl in cc
changed_first p q change o e entries false true false h g k x y rest = rw (h, g, k) refl
changed_first p q change o e entries false true true h g k x y rest = let no = y refl refl in cc
changed_first p q change o e entries false false d h g k x y rest = rw (h, g, rest) refl

pub find_entry-update_entry :
    (p q : MetricOperation) (change : MetricEntry → MetricEntry) (entries : Entries)
    → find_entry q (update_entry p change entries) ≡ changed p q change entries
unfolding find_entry update_entry
find_entry-update_entry p q change [] = refl
find_entry-update_entry p q change ((o, e) ∷ entries) =
    changed_first p q change o e entries (same_operation o p) (same_operation o q)
      (same_operation p q) refl refl refl (same_as_third p q o) (not_third p q o)
      (find_entry-update_entry p q change entries)

alike_number : (a b c : ℕ) → (a == b) ≡ true → (c == a) ≡ (c == b)
alike_number a b c h = ground arith

alike :
    (p q o : MetricOperation) → same_operation p q ≡ true → same_operation o p ≡ same_operation o q
unfolding same_operation
alike p q o h = alike_number (operation_index p) (operation_index q) (operation_index o) h

pub find_entry_same :
    (p q : MetricOperation) (entries : Entries)
    → same_operation p q ≡ true
    → find_entry p entries ≡ find_entry q entries
unfolding find_entry
find_entry_same p q [] h = refl
find_entry_same p q ((o, e) ∷ entries) h = rw (alike p q o h, find_entry_same p q entries h) refl
