-- ===== src/Record/Store.antt =====
-- The contract of a record driver that stores complete records and nothing else: a map from paths
-- to records, whose calls may fail but change nothing then. The clients of a driver take it as a
-- parameter, and the in-memory backend fills it.
use opfs.Prelude.{◌≡◌, ◌⊎◌, Option, none, some, Text, same, if◌then◌else◌}
use opfs.Failure.{ok, throw, Thrown}
use opfs.Record.{StoredRecord, RecordDriver}

pub record IsStore {S : Type 0} (driver : RecordDriver S) : Type 0 where
  pub view : S → Text → Option StoredRecord
  pub put : StoredRecord → S → S
  pub erase : Text → S → S
  pub get_cases :
      (path : Text) (s : S)
      → (driver.get path s ≡ (ok (view s path), s))
        ⊎ ((e : Thrown) × (driver.get path s ≡ (throw e, s)))
  pub set_cases :
      (r : StoredRecord) (s : S)
      → (driver.set r s ≡ (ok tt, put r s)) ⊎ ((e : Thrown) × (driver.set r s ≡ (throw e, s)))
  pub delete_cases :
      (path : Text) (s : S)
      → (driver.delete path s ≡ (ok tt, erase path s))
        ⊎ ((e : Thrown) × (driver.delete path s ≡ (throw e, s)))
  pub view-put :
      (r : StoredRecord) (s : S) (q : Text)
      → view (put r s) q ≡ (if same r.path q then some r else view s q)
  pub view-erase :
      (path : Text) (s : S) (q : Text)
      → view (erase path s) q ≡ (if same path q then none else view s q)
  pub no_stat : driver.stat ≡ none
  pub no_read_file : driver.read_file ≡ none
  pub no_write_file : driver.write_file ≡ none

-- No lookup and no set at a path fails.
pub record Serves {S : Type 0} {driver : RecordDriver S} (store : IsStore driver) (path : Text)
    : Type 0 where
  pub gets : (s : S) → driver.get path s ≡ (ok (store.view s path), s)
  pub sets : (r : StoredRecord) (s : S) → r.path ≡ path → driver.set r s ≡ (ok tt, store.put r s)
