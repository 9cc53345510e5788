-- ===== src/FileSystem/Calls.antt =====
-- Any sequence of calls on one facade.
use opfs.Prelude.{
  ℕ, ◌≡◌, refl, ap, Option, none, Bool, true, List, [], ◌∷◌, Text, All, if◌then◌else◌,
}
use opfs.Failure.{Result, ok, throw, fail, invalid_operation, AbortSignal}
use opfs.Exec.{Exec, pure, ◌>>◌}
use opfs.Path.{normalize_path}
use opfs.Adapter.{Adapter, ReadOptions, WriteOptions, EntryKind}
use opfs.FileSystem.{Facade, Config, Act, WriteData, StreamLibrary, assert_open}
use opfs.FileSystem.Operations.{
  stat, exists, mkdir, ensure_dir, get_directory_handle, get_file_handle, ensure_file,
}
use opfs.Bytes.{Bytes}
use opfs.FileSystem.Contents.{read_file, read_text, write_file}
use opfs.FileSystem.Removal.{remove, empty_dir}
use opfs.FileSystem.Copying.{copy, move}
use opfs.FileSystem.Iteration.{
  WalkOptions, read_dir, read_dir_at, walk, open_read_stream, get_file, open_long_lived, close,
}
use opfs.FileSystem.TreeBalance.{remove-Keeps, empty_dir-Keeps}
use opfs.FileSystem.CopyBalance.{copy-Keeps, move-Keeps}
use opfs.FileSystem.IterationBalance.{
  read_dir-Keeps, walk-Keeps, open_read_stream-Keeps, get_file-Keeps, close-Keeps,
}
use opfs.FileSystem.Balance.{closed_book, Stands, Ends}
use opfs.FileSystem.Discipline.{
  Keeps, keeps_rules, stat-Keeps, exists_Keeps, mkdir-Keeps, ensure_dir-Keeps,
  get_directory_handle-Keeps, get_file_handle-Keeps, ensure_file-Keeps, read_file-Keeps,
  read_text-Keeps,
}
use opfs.FileSystem.WriteBalance.{write_file-Keeps}

-- A call of a method with its arguments.
pub data Request : Type 0 where
  stat_request : Text → Option AbortSignal → Request
  exists_request : Text → Option EntryKind → Option AbortSignal → Request
  mkdir_request : Text → Bool → Option AbortSignal → Request
  ensure_dir_request : Text → Option AbortSignal → Request
  directory_request : Text → Bool → Bool → Option AbortSignal → Request
  file_request : Text → Bool → Bool → Option AbortSignal → Request
  ensure_file_request : Text → Option AbortSignal → Request
  read_request : Text → ReadOptions → Request
  read_text_request : Text → ReadOptions → (Bytes → Result Text) → Request
  write_request : Text → WriteData → WriteOptions → Bool → Request
  remove_request : Text → Bool → Option AbortSignal → Request
  empty_dir_request : Text → Option ℕ → Option AbortSignal → Request
  copy_request : Text → Text → Bool → Option ℕ → Option AbortSignal → Request
  move_request : Text → Text → Bool → Option ℕ → Option AbortSignal → Request
  read_dir_request : Text → Option AbortSignal → Request
  walk_request : Text → WalkOptions → Request
  stream_request : Text → ReadOptions → Request
  get_file_request : Text → Option AbortSignal → Request
  close_request : Request
  open_writable_request : Text → Bool → Bool → Option AbortSignal → Request
  open_sync_request : Text → Bool → Bool → Option AbortSignal → Request

-- The methods of the adapter that open long-lived files, whether it is capable of them, and its
-- disposal where the facade owns the adapter.
pub record Openers (S F : Type 0) : Type 0 where
  pub can_open_writable : Bool
  pub open_writable : Text → Exec S F
  pub can_open_sync : Bool
  pub open_sync : Text → Exec S F
  pub dispose : Option (Exec S (Unit {0}))

-- A long-lived file owns the lock that it was opened with until it is closed.
abbrev pub OpensNothing : Request → Type 0
OpensNothing (open_writable_request path create parents signal) = ⊥
OpensNothing (open_sync_request path create parents signal) = ⊥
OpensNothing r = Unit

abbrev pub closed_path : Result Text → Result (Unit {0})
closed_path (throw e) = throw e
closed_path (ok normal) = fail invalid_operation "filesystem" none

-- What a call on a closed facade answers: `getFile` normalises its path first, and `close` returns.
abbrev pub closed_result : Request → Result (Unit {0})
closed_result close_request = ok tt
closed_result (get_file_request path signal) = closed_path (normalize_path path)
closed_result r = fail invalid_operation "filesystem" none

module _ {S F : Type 0} (adapter : Adapter S) (config : Config) (library : StreamLibrary)
    (openers : Openers S F) (fuel : ℕ) where
  unfoldable pub perform : Request → Act S (Unit {0})
  perform (stat_request path signal) = do stat adapter config path signal; pure tt
  perform (exists_request path kind signal) = do exists adapter config path kind signal; pure tt
  perform (mkdir_request path recursive signal) = mkdir adapter config path recursive signal
  perform (ensure_dir_request path signal) = ensure_dir adapter config path signal
  perform (directory_request path create recursive signal) = do
    get_directory_handle adapter config path create recursive signal
    pure tt
  perform (file_request path create parents signal) = do
    get_file_handle adapter config path create parents signal
    pure tt
  perform (ensure_file_request path signal) = ensure_file adapter config path signal
  perform (read_request path options) = do read_file adapter config path options; pure tt
  perform (read_text_request path options decoder) = do
    read_text adapter config path options decoder
    pure tt
  perform (write_request path input options parents) =
      write_file adapter config library path input options parents
  perform (remove_request path recursive signal) = remove adapter config fuel path recursive signal
  perform (empty_dir_request path concurrency signal) =
      empty_dir adapter config fuel path concurrency signal
  perform (copy_request source destination overwrite concurrency signal) =
      copy adapter config library fuel source destination overwrite concurrency signal
  perform (move_request source destination overwrite concurrency signal) =
      move adapter config library fuel source destination overwrite concurrency signal
  perform (read_dir_request path signal) = do read_dir adapter config path signal; pure tt
  perform (walk_request path options) = do walk adapter config fuel path options; pure tt
  perform (stream_request path options) = do open_read_stream adapter config path options; pure tt
  perform (get_file_request path signal) = do get_file adapter config path signal; pure tt
  perform close_request = close openers.dispose
  perform (open_writable_request path create parents signal) = do
    open_long_lived adapter config "open-writable-file" openers.can_open_writable
        openers.open_writable path create parents signal
    pure tt
  perform (open_sync_request path create parents signal) = do
    open_long_lived adapter config "open-sync-file" openers.can_open_sync openers.open_sync path
        create parents signal
    pure tt

  -- The facade after a list of calls, one after the other, whatever each of them returned.
  unfoldable pub run_requests : List Request → Facade S → Facade S
  run_requests [] f = f
  run_requests (r ∷ rs) f = run_requests rs (perform r f).1

  perform-Keeps : (r : Request) → OpensNothing r → Keeps closed_book (perform r)
  unfolding perform
  perform-Keeps (write_request path input options parents) n =
      write_file-Keeps adapter config library path input options parents
  perform-Keeps (stat_request path signal) n = search (keeps_rules, stat-Keeps)
  perform-Keeps (exists_request path kind signal) n = search (keeps_rules, exists_Keeps)
  perform-Keeps (mkdir_request path recursive signal) n =
      mkdir-Keeps adapter config path recursive signal
  perform-Keeps (ensure_dir_request path signal) n = ensure_dir-Keeps adapter config path signal
  perform-Keeps (directory_request path create recursive signal) n =
      search (keeps_rules, get_directory_handle-Keeps)
  perform-Keeps (file_request path create parents signal) n =
      search (keeps_rules, get_file_handle-Keeps)
  perform-Keeps (ensure_file_request path signal) n = ensure_file-Keeps adapter config path signal
  perform-Keeps (read_request path options) n = search (keeps_rules, read_file-Keeps)
  perform-Keeps (read_text_request path options decoder) n = search (keeps_rules, read_text-Keeps)
  perform-Keeps (remove_request path recursive signal) n =
      remove-Keeps adapter config fuel path recursive signal
  perform-Keeps (empty_dir_request path concurrency signal) n =
      empty_dir-Keeps adapter config fuel path concurrency signal
  perform-Keeps (copy_request source destination overwrite concurrency signal) n =
      copy-Keeps adapter config library fuel source destination overwrite concurrency signal
  perform-Keeps (move_request source destination overwrite concurrency signal) n =
      move-Keeps adapter config library fuel source destination overwrite concurrency signal
  perform-Keeps (read_dir_request path signal) n = search (keeps_rules, read_dir-Keeps)
  perform-Keeps (walk_request path options) n = search (keeps_rules, walk-Keeps)
  perform-Keeps (stream_request path options) n = search (keeps_rules, open_read_stream-Keeps)
  perform-Keeps (get_file_request path signal) n = search (keeps_rules, get_file-Keeps)
  perform-Keeps close_request n = close-Keeps openers.dispose
  perform-Keeps (open_writable_request path create parents signal) n = absurd n
  perform-Keeps (open_sync_request path create parents signal) n = absurd n

  after_either :
      (p : Result (Unit {0}) × Facade S) → Ends closed_book closed_book p → Stands p.1 closed_book
  after_either (ok a, g) h = h
  after_either (throw e, g) h = h

  -- After any sequence of calls on a facade whose books are closed, whether the calls returned or
  -- threw, with calls of `close` among them but none that opens a long-lived file, the books are
  -- closed: no lock is held and no byte is in a buffer; on the way no call took a lock while one was
  -- held, gave back a lock that it did not hold, or took more bytes out of the buffers than were in
  -- them.
  pub run_requests-Stands :
      (rs : List Request) (f : Facade S)
      → All OpensNothing rs
      → Stands f closed_book
      → Stands (run_requests rs f) closed_book
  unfolding run_requests
  run_requests-Stands [] f n h = h
  run_requests-Stands (r ∷ rs) f (n, ns) h =
      run_requests-Stands rs (perform r f).1 ns
        (after_either (perform r f) ((perform-Keeps r n).at f h))

  open_refuses :
      (f : Facade S)
      → f.closed ≡ true
      → assert_open f ≡ (fail invalid_operation "filesystem" none, f)
  unfolding assert_open
  open_refuses f h =
      ap (λ c. if c then (fail invalid_operation "filesystem" none, f) else (ok tt, f)) h

  shut_get_file :
      (path : Text) (signal : Option AbortSignal) (f : Facade S) (normal : Result Text)
      → f.closed ≡ true
      → normalize_path path ≡ normal
      → perform (get_file_request path signal) f ≡ (closed_path normal, f)
  unfolding perform get_file stat
  shut_get_file path signal f (ok normal) h e = rw (e, open_refuses f h) refl
  shut_get_file path signal f (throw x) h e = rw e refl

  -- A call on a closed facade touches nothing: the storage, the locks and the metrics stay as they
  -- were. It fails with `invalid-operation`, but `getFile` refuses a path that cannot be normalised
  -- with the failure of that, and `close` returns again.
  pub perform_closed :
      (r : Request) (f : Facade S) → f.closed ≡ true → perform r f ≡ (closed_result r, f)
  unfolding perform stat exists mkdir ensure_dir get_directory_handle get_file_handle ensure_file
      read_file read_text write_file remove empty_dir copy move read_dir read_dir_at walk
      open_read_stream open_long_lived close
  perform_closed (stat_request path signal) f h = rw (open_refuses f h) refl
  perform_closed (exists_request path kind signal) f h = rw (open_refuses f h) refl
  perform_closed (mkdir_request path recursive signal) f h = rw (open_refuses f h) refl
  perform_closed (ensure_dir_request path signal) f h = rw (open_refuses f h) refl
  perform_closed (directory_request path create recursive signal) f h = rw (open_refuses f h) refl
  perform_closed (file_request path create parents signal) f h = rw (open_refuses f h) refl
  perform_closed (ensure_file_request path signal) f h = rw (open_refuses f h) refl
  perform_closed (read_request path options) f h = rw (open_refuses f h) refl
  perform_closed (read_text_request path options decoder) f h = rw (open_refuses f h) refl
  perform_closed (write_request path input options parents) f h = rw (open_refuses f h) refl
  perform_closed (remove_request path recursive signal) f h = rw (open_refuses f h) refl
  perform_closed (empty_dir_request path concurrency signal) f h = rw (open_refuses f h) refl
  perform_closed (copy_request source destination overwrite concurrency signal) f h =
      rw (open_refuses f h) refl
  perform_closed (move_request source destination overwrite concurrency signal) f h =
      rw (open_refuses f h) refl
  perform_closed (read_dir_request path signal) f h = rw (open_refuses f h) refl
  perform_closed (walk_request path options) f h = rw (open_refuses f h) refl
  perform_closed (stream_request path options) f h = rw (open_refuses f h) refl
  perform_closed (get_file_request path signal) f h =
      shut_get_file path signal f (normalize_path path) h refl
  perform_closed close_request f h = rw h refl
  perform_closed (open_writable_request path create parents signal) f h = rw (open_refuses f h) refl
  perform_closed (open_sync_request path create parents signal) f h = rw (open_refuses f h) refl
