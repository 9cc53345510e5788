-- ===== src/FileSystem/Tests.antt =====
-- Calls on a facade over the record adapter and the in-memory backend.
use opfs.Metrics.{timing_mode}
use opfs.FileSystem.Measured.{metrics_of, metrics_of-run_requests}
use opfs.FileSystem.{Event}
use opfs.Prelude.{
  ℕ, Option, All, ◌≡◌, refl, none, some, true, false, if◌then◌else◌, leb, length, List, [], ◌∷◌,
  codes,
}
use mathlib.Core.List.{flatten}
use opfs.Failure.{ok, AbortSignal}
use opfs.Bytes.{append}
use opfs.Exec.{pure}
use opfs.Adapter.{Adapter, WriteOptions}
use opfs.Record.{Base64}
use opfs.Record.Operations.{record_adapter}
use opfs.Record.Memory.{Records, memory_driver}
use opfs.FileSystem.{Facade, Config, StreamLibrary, stream_data, whole_data}
use opfs.FileSystem.Balance.{book_below, closed_book, Stands}
use opfs.FileSystem.Calls.{
  Request, mkdir_request, write_request, read_request, run_requests, perform, run_requests-Stands,
  perform_closed, OpensNothing, Openers, get_file_request, close_request, remove_request,
  open_writable_request, closed_result,
}

abbrev pub unencoded : Base64
unencoded = record { encode = λ b. b; decode = λ t. ok t; decode-encode = λ b. refl }

abbrev pub memory_adapter : Adapter Records
memory_adapter = record_adapter unencoded 7 false memory_driver none

abbrev pub small : Config
small = record {
  optimizations = record {
    stream_read = true;
    stream_write = true;
    range_read = true;
    native_copy = true;
    native_move = true;
  };
  max_buffered_write_bytes = 2;
}

abbrev pub exact_streams : StreamLibrary
exact_streams = record {
  collect =
      λ limit chunks. if leb (length (flatten chunks)) limit then some (flatten chunks) else none;
  collect_eq = λ limit chunks. refl;
}

abbrev pub fresh : Facade Records
fresh = record { store = []; closed = false; events = [] }

abbrev plain_write : WriteOptions
plain_write = record {
  mode = append;
  at = none;
  truncate = false;
  media_type = none;
  signal = none;
}

abbrev aborted_signal : AbortSignal
aborted_signal = record { is_aborted = true; reason = 4 }

-- A directory, a buffered stream, a stream beyond the limit, a write with an aborted signal, a
-- read of a missing file, a snapshot, and a removal after the end of the facade.
abbrev pub session : List Request
session =
    mkdir_request (codes "/a") false none
    ∷ write_request (codes "/a/x") (stream_data ((1 ∷ []) ∷ (2 ∷ []) ∷ [])) plain_write false
    ∷ write_request (codes "/a/y") (stream_data ((1 ∷ 2 ∷ []) ∷ (3 ∷ []) ∷ [])) plain_write false
    ∷ write_request (codes "/a/z") (whole_data (1 ∷ []))
        (record plain_write { signal = some aborted_signal }) true
    ∷ read_request (codes "/a/y") (record { at = none; size = none; signal = none })
    ∷ get_file_request (codes "/a/x") none
    ∷ close_request
    ∷ remove_request (codes "/a") true none
    ∷ []

session-OpensNothing : All OpensNothing session
session-OpensNothing = (tt, (tt, (tt, (tt, (tt, (tt, (tt, (tt, tt))))))))

-- An adapter that is not capable of long-lived files, owned by nobody.
abbrev pub no_files : Openers Records ℕ
no_files = record {
  can_open_writable = false;
  open_writable = λ path. pure 0;
  can_open_sync = false;
  open_sync = λ path. pure 0;
  dispose = none;
}

fresh-Stands : Stands fresh closed_book
unfolding book_below
fresh-Stands = refl

run_requests-Stands_example :
    Stands (run_requests memory_adapter small exact_streams no_files 3 session fresh) closed_book
run_requests-Stands_example =
    run_requests-Stands memory_adapter small exact_streams no_files 3 session fresh
      session-OpensNothing fresh-Stands

abbrev silent : List Event → Option ℕ × ℕ
silent es = (some 5, 9)

metrics_of-run_requests_example :
    (metrics_of silent timing_mode
      (run_requests memory_adapter small exact_streams no_files 3 session
        fresh).events).buffered_bytes
    ≡ 0
metrics_of-run_requests_example =
    metrics_of-run_requests memory_adapter small exact_streams no_files 3 session fresh silent
      timing_mode session-OpensNothing fresh-Stands

abbrev shut : Facade Records
shut = record fresh { closed = true }

perform_closed_example :
    perform memory_adapter small exact_streams no_files 3
      (open_writable_request (codes "/a") true false none)
      shut
    ≡ (closed_result (open_writable_request (codes "/a") true false none), shut)
perform_closed_example =
    perform_closed memory_adapter small exact_streams no_files 3
      (open_writable_request (codes "/a") true false none) shut refl
