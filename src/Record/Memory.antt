-- ===== src/Record/Memory.antt =====
-- The in-memory backend (src/driver/memory.ts): a `Map` from paths to records, in the order of
-- insertion. `structuredClone` is not needed where values are never changed in place.
use opfs.Prelude.{
  ◌≡◌, refl, inl, Option, none, some, true, false, List, [], ◌∷◌, Text, same, same_iff,
  if◌then◌else◌, arith,
}
use opfs.Exec.{pure, gets}
use opfs.Record.{StoredRecord, RecordDriver, DriverCapabilities}
use opfs.Record.Store.{IsStore}

abbrev pub Records : Type 0
Records = List (Text × StoredRecord)

-- `Map.get`.
unfoldable pub get_record : Text → Records → Option StoredRecord
get_record path [] = none
get_record path ((k, r) ∷ rs) = if same k path then some r else get_record path rs

-- `Map.set` keeps the place of a key that is there.
unfoldable pub set_record : Text → StoredRecord → Records → Records
set_record path r [] = (path, r) ∷ []
set_record path r ((k, q) ∷ rs) = if same k path then (k, r) ∷ rs else (k, q) ∷ set_record path r rs

-- `Map.delete`.
unfoldable pub delete_record : Text → Records → Records
delete_record path [] = []
delete_record path ((k, q) ∷ rs) =
    let rest = delete_record path rs in if same k path then rest else (k, q) ∷ rest

-- The records of one directory.
unfoldable pub list_records : Text → Records → List StoredRecord
list_records parent [] = []
list_records parent ((k, r) ∷ rs) =
    let rest = list_records parent rs in if same r.parent parent then r ∷ rest else rest

abbrev pub memory_capabilities : DriverCapabilities
memory_capabilities = record {
  range_read = false;
  stream_read = false;
  write = true;
  write_modes = [];
  stream_write_modes = [];
}

unfoldable pub memory_driver : RecordDriver Records
memory_driver = record {
  capabilities = memory_capabilities;
  get = λ path. gets (get_record path);
  stat = none;
  read_file = none;
  open_read_stream = none;
  write_file = none;
  write_stream = none;
  set = λ r s. pure tt (set_record r.path r s);
  delete = λ path s. pure tt (delete_record path s);
  list = λ parent. gets (list_records parent);
}

pub get_record-set_record :
    (path : Text) (r : StoredRecord) (rs : Records) (q : Text)
    → get_record q (set_record path r rs) ≡ (if same path q then some r else get_record q rs)
unfolding get_record set_record
get_record-set_record path r [] q = refl
get_record-set_record path r ((k, x) ∷ rs) q =
    ground
      (arith, same_iff k path, same_iff k q, same_iff path q, get_record-set_record path r rs q)

pub get_record-delete_record :
    (path : Text) (rs : Records) (q : Text)
    → get_record q (delete_record path rs) ≡ (if same path q then none else get_record q rs)
unfolding get_record delete_record
get_record-delete_record path [] q = ground arith
get_record-delete_record path ((k, x) ∷ rs) q =
    ground
      (arith, same_iff k path, same_iff k q, same_iff path q, get_record-delete_record path rs q)

-- The backend keeps the contract of a record store.
unfoldable pub memory_driver-IsStore : IsStore memory_driver
unfolding memory_driver
memory_driver-IsStore = record {
  view = λ s path. get_record path s;
  put = λ r s. set_record r.path r s;
  erase = λ path s. delete_record path s;
  get_cases = λ path s. inl refl;
  set_cases = λ r s. inl refl;
  delete_cases = λ path s. inl refl;
  view-put = λ r s q. get_record-set_record r.path r s q;
  view-erase = λ path s q. get_record-delete_record path s q;
  no_stat = refl;
  no_read_file = refl;
  no_write_file = refl;
}
