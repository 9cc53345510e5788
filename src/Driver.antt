-- ===== src/Driver.antt =====
-- Drivers over a backend: planning against limits, the read-only wrapper of record drivers, and the
-- adapter over a file driver (`createRecordPlan`, `readOnlyPlan`, `mutates` and `defineRecordDriver` of
-- src/driver/record.ts, `createObjectPlan` of src/driver/object.ts, `createFilePlan` of
-- src/driver/file.ts, src/adapter/file.ts). Messages and the descriptive fields are left out.
use text.Mathlib.Text.{◌==◌ as str_eq}
use opfs.Prelude.{
  ℕ, Option, none, some, Bool, true, false, not, ◌&&◌, ◌||◌, List, [], ◌∷◌, Text, String, ltb,
  if◌then◌else◌,
}
use opfs.Failure.{Result, ok, throw, Thrown, language_error, type_error, AbortSignal}
use opfs.Bytes.{Bytes, WriteMode}
use opfs.Exec.{Exec, pure, raise}
use opfs.Adapter.{Adapter, Capabilities, ReadOptions, WriteOptions, Stat, DirectoryEntry, defined}
use opfs.Support.{SupportMode, native, unsupported}
use opfs.Plan.{DriverPlan, Problem, Layer, refuse}
use opfs.Record.{StoredRecord, RecordDriver, DriverCapabilities}
pub mod ReadOnly
pub mod Tests

-- `DriverOperationType`.
pub data DriverOperation : Type 0 where
  stat_operation read_operation write_operation copy_operation : DriverOperation
  move_operation remove_operation list_operation : DriverOperation

-- `DriverPlanInputType`, as far as the planners here read it.
pub record DriverRequest : Type 0 where
  pub operation : DriverOperation
  pub size : Option ℕ

-- A limit, with its value where it is known.
pub record Limit : Type 0 where
  pub code : String
  pub value : Option ℕ

unfoldable pub mutates : DriverOperation → Bool
mutates write_operation = true
mutates copy_operation = true
mutates move_operation = true
mutates remove_operation = true
mutates _ = false

-- `base.limits.find(...)`: the first limit on the bytes of a file that has a value.
unfoldable pub find_file_limit : List Limit → Option ℕ
find_file_limit [] = none
find_file_limit (limit ∷ limits) =
    let rest = find_file_limit limits in
    if str_eq limit.code "file-bytes" && defined limit.value then limit.value else rest

abbrev pub supported_plan : DriverPlan
supported_plan = record {
  supported = true;
  support = native;
  part_bytes = none;
  parts = none;
  problems = [];
  actions = [];
}

abbrev pub refused_plan : String → String → DriverPlan
refused_plan code action = record {
  supported = false;
  support = unsupported;
  part_bytes = none;
  parts = none;
  problems = refuse code Layer.driver_layer ∷ [];
  actions = action ∷ "select-driver" ∷ [];
}

-- Whether a known size is above a known limit.
abbrev pub is_above : Option ℕ → Option ℕ → Bool
is_above (some size) (some limit) = ltb limit size
is_above _ _ = false

unfoldable pub read_only_plan : DriverPlan
read_only_plan = refused_plan "read-only" "change-policy"

unfoldable pub create_record_plan : List Limit → DriverRequest → DriverPlan
create_record_plan limits request =
    if is_above request.size (find_file_limit limits)
    then refused_plan "file-too-large" "reduce-input"
    else supported_plan

unfoldable pub create_object_plan : List Limit → DriverRequest → DriverPlan
create_object_plan limits request =
    if is_above request.size (find_file_limit limits)
    then refused_plan "object-too-large" "reduce-input"
    else supported_plan

unfoldable pub create_file_plan : DriverRequest → DriverPlan
create_file_plan request = supported_plan

-- The planner of a record driver, with its own planner where it has one.
unfoldable pub plan_record :
    Bool → Option (DriverRequest → DriverPlan) → List Limit → DriverRequest → DriverPlan
plan_record read_only planner limits request =
    if read_only && mutates request.operation
    then read_only_plan
    else elim planner [ none ↦ create_record_plan limits request | some plan ↦ plan request ]

-- The plain `Error` of a read-only driver.
abbrev pub read_only_error : Thrown
read_only_error = language_error "Error"

abbrev pub unless_read_only : {A : Type 0} → Bool → Option A → Option A
unless_read_only true method = none
unless_read_only false method = method

abbrev pub modes_if : Bool → List WriteMode → List WriteMode
modes_if true modes = modes
modes_if false modes = []

module _ {S : Type 0} where
  abbrev pub guard_read_only : Bool → Exec S (Unit {0}) → Exec S (Unit {0})
  guard_read_only true change = raise read_only_error
  guard_read_only false change = change

  -- `defineRecordDriver`, for a backend.
  unfoldable pub define_record_driver : Bool → RecordDriver S → RecordDriver S
  define_record_driver read_only backend = record {
    capabilities = record backend.capabilities { write = not read_only };
    get = backend.get;
    stat = backend.stat;
    read_file = backend.read_file;
    open_read_stream = backend.open_read_stream;
    write_file = unless_read_only read_only backend.write_file;
    write_stream = unless_read_only read_only backend.write_stream;
    set = λ r. guard_read_only read_only (backend.set r);
    delete = λ path. guard_read_only read_only (backend.delete path);
    list = backend.list;
  }

-- `FileDriverType`.
pub record FileDriver (S : Type 0) : Type 0 where
  pub capabilities : Capabilities
  pub stat : Text → Option AbortSignal → Exec S (Option Stat)
  pub read_file : Text → ReadOptions → Exec S Bytes
  pub write_file : Text → Bytes → WriteOptions → Exec S (Unit {0})
  pub read_dir : Text → Option AbortSignal → Exec S (List DirectoryEntry)
  pub create_dir : Text → Option AbortSignal → Exec S (Unit {0})
  pub remove : Text → Option AbortSignal → Exec S (Unit {0})
  pub open_read_stream : Option (Text → ReadOptions → Exec S (List Bytes))
  pub write_stream : Option (Text → List Bytes → WriteOptions → Exec S (Unit {0}))
  pub copy : Option (Text → Text → Bool → Exec S (Unit {0}))
  pub move : Option (Text → Text → Bool → Exec S (Unit {0}))
  pub has_open_writable_file : Bool
  pub has_open_sync_file : Bool

module _ {S : Type 0} where
  -- A method that throws a `TypeError` where the driver has none.
  unfoldable pub delegate_read :
      Option (Text → ReadOptions → Exec S (List Bytes)) → Text → ReadOptions → Exec S (List Bytes)
  delegate_read none path options = raise type_error
  delegate_read (some open_stream) path options = open_stream path options

  unfoldable pub delegate_write :
      Option (Text → List Bytes → WriteOptions → Exec S (Unit {0}))
      → Text
      → List Bytes
      → WriteOptions
      → Exec S (Unit {0})
  delegate_write none path chunks options = raise type_error
  delegate_write (some write) path chunks options = write path chunks options

  unfoldable pub delegate_transfer :
      Option (Text → Text → Bool → Exec S (Unit {0})) → Text → Text → Bool → Exec S (Unit {0})
  delegate_transfer none source destination overwrite = raise type_error
  delegate_transfer (some transfer) source destination overwrite =
      transfer source destination overwrite

  -- The capabilities of a `FileAdapter`: those of the driver that have their method.
  unfoldable pub file_capabilities : FileDriver S → Capabilities
  file_capabilities driver = record {
    read = driver.capabilities.read;
    write = driver.capabilities.write;
    stream_read = driver.capabilities.stream_read && defined driver.open_read_stream;
    stream_write_modes =
        modes_if (defined driver.write_stream) driver.capabilities.stream_write_modes;
    range_read = driver.capabilities.range_read;
    native_copy = driver.capabilities.native_copy && defined driver.copy;
    native_move = driver.capabilities.native_move && defined driver.move;
    positional_write = driver.capabilities.positional_write && driver.has_open_writable_file;
    sync_access = driver.capabilities.sync_access && driver.has_open_sync_file;
  }

  unfoldable pub file_adapter : FileDriver S → Adapter S
  file_adapter driver = record {
    capabilities = file_capabilities driver;
    partition = none;
    stat = driver.stat;
    read_file = driver.read_file;
    write_file = driver.write_file;
    read_dir = driver.read_dir;
    create_dir = driver.create_dir;
    remove = driver.remove;
    open_read_stream = some (delegate_read driver.open_read_stream);
    write_stream = some (delegate_write driver.write_stream);
    copy = some (delegate_transfer driver.copy);
    move = some (delegate_transfer driver.move);
    has_open_writable_file = true;
    has_open_sync_file = true;
  }
