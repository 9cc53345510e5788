-- ===== src/FileSystem/TreeTests.antt =====
-- Witnesses for walks, long-lived files and the end of a facade.
use opfs.Prelude.{
  ℕ, ◌≡◌, refl, none, some, true, false, List, [], ◌∷◌, Text, codes, same, All, if◌then◌else◌,
  arith,
}
use opfs.Failure.{ok, throw_if_aborted}
use opfs.Exec.{Exec, pure}
use opfs.Adapter.{Adapter, file, directory, file_stat, directory_stat}
use opfs.Path.{
  normalize_path, resolve_parts, resolve_part, split, join, to_path, includes, split_path, basename,
  join_path,
}
use opfs.FileSystem.Operations.{stat, stat_normal, stat_entry}
use opfs.FileSystem.{Facade, assert_open, on_store, emit, catch}
use opfs.FileSystem.Iteration.{
  WalkEntry, WalkOptions, make_entry, make_entries, read_dir_at, walk_entry, walk_entries,
  walk_children, walk, open_long_lived, close,
}
use opfs.FileSystem.Balance.{closed_book, open_book, Leads}
use opfs.FileSystem.IterationBalance.{open_long_lived-Leads}
use opfs.FileSystem.Calls.{run_requests}
use opfs.FileSystem.Walks.{walk-fuel}
use opfs.FileSystem.Yields.{IsAsked, walk-IsAsked}
use opfs.FileSystem.Ending.{run_requests-close}
use opfs.Record.Memory.{Records}
use opfs.FileSystem.Tests.{memory_adapter, small, exact_streams, no_files, session, fresh}

abbrev two_levels : WalkOptions
two_levels = record {
  include_files = true;
  include_directories = false;
  include_root = true;
  max_depth = some 2;
  signal = none;
}

walk-fuel_example :
    walk memory_adapter small 5 (codes "/a") two_levels
    ≡ walk memory_adapter small 2 (codes "/a") two_levels
walk-fuel_example = walk-fuel memory_adapter small 5 2 (codes "/a") two_levels refl (omega arith)

run_requests-close_example :
    run_requests memory_adapter small exact_streams no_files 3 session (close none fresh).1
    ≡ (close none fresh).1
run_requests-close_example =
    run_requests-close memory_adapter small exact_streams no_files 3 none session fresh

abbrev native_file : Text → Exec Records ℕ
native_file path = pure 4

open_long_lived-Leads_example :
    Leads closed_book
      (open_long_lived memory_adapter small "open-writable-file" true native_file
        (codes "/f")
        true
        false
        none)
      open_book
      closed_book
open_long_lived-Leads_example =
    open_long_lived-Leads memory_adapter small "open-writable-file" true native_file (codes "/f")
      true false none

-- A storage of one file in a directory, which does not change.
abbrev still : Adapter ℕ
still = record {
  capabilities = memory_adapter.capabilities;
  partition = none;
  stat = λ path signal. pure (
      if same path (codes "/d/f")
      then some (file_stat 3 8 [])
      else if same path (codes "/d")
      then some (directory_stat none)
      else none);
  read_file = λ path options. pure (1 ∷ 2 ∷ 3 ∷ []);
  write_file = λ path bytes options. pure tt;
  read_dir = λ path signal. pure (
      if same path (codes "/d")
      then record { name = codes "f"; kind = file } ∷ []
      else record { name = codes "d"; kind = directory } ∷ []);
  create_dir = λ path signal. pure tt;
  remove = λ path signal. pure tt;
  open_read_stream = none;
  write_stream = none;
  copy = none;
  move = none;
  has_open_writable_file = false;
  has_open_sync_file = false;
}

abbrev quiet : Facade ℕ
quiet = record { store = 0; closed = false; events = [] }

abbrev found_entries : List WalkEntry
found_entries = record { path = codes "/d/f"; name = codes "f"; kind = file; depth = 2 } ∷ []

walked : (walk still small 2 (codes "/") two_levels quiet).0 ≡ ok found_entries
unfolding walk walk_children walk_entries walk_entry read_dir_at make_entries make_entry stat
    stat_normal stat_entry normalize_path resolve_parts resolve_part split join to_path includes
    split_path basename join_path same assert_open on_store emit catch throw_if_aborted
walked = refl

walk-IsAsked_example : All (IsAsked two_levels) found_entries
walk-IsAsked_example = walk-IsAsked still small 2 (codes "/") two_levels quiet found_entries walked
