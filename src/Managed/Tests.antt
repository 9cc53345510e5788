-- ===== src/Managed/Tests.antt =====
-- A writable file whose backend refuses to close, and a synchronous file that takes one byte a call.
use opfs.Prelude.{ℕ, ◌++◌, refl, none, some, true, List, [], ◌∷◌, codes, take, length}
use opfs.Failure.{type_error}
use opfs.Bytes.{Bytes}
use opfs.Exec.{pure, raise}
use opfs.Managed.{WritableBackend, SyncBackend, ManagedFile}
use opfs.Managed.Sync.{write_all}
use opfs.Managed.Release.{
  FileCall, writes, flushes, closes, aborts, IsOwned, run_calls, run_calls-IsOwned,
}
use opfs.Managed.Progress.{Covers, write_all-Covers}

abbrev stubborn : WritableBackend Bytes
stubborn = record {
  write = λ bytes at stored. pure tt (stored ++ bytes);
  truncate = λ size stored. pure tt (take size stored);
  flush = pure tt;
  close = raise type_error;
  abort = pure tt;
}

abbrev opened : ManagedFile Bytes
opened = record { backend = []; live = true; releases = 0 }

abbrev file_calls : List FileCall
file_calls = writes (1 ∷ 2 ∷ []) 0 none none ∷ closes ∷ flushes none none ∷ aborts ∷ closes ∷ []

run_calls-IsOwned_example : IsOwned (run_calls stubborn (codes "/a") file_calls opened)
run_calls-IsOwned_example = run_calls-IsOwned stubborn (codes "/a") file_calls opened refl

abbrev narrow : SyncBackend Bytes
narrow = record {
  read = λ size at stored. pure stored stored;
  write = λ bytes at stored. pure 1 (stored ++ take 1 bytes);
  get_size = λ stored. pure (length stored) stored;
  truncate = λ size stored. pure tt (take size stored);
  flush = pure tt;
  close = pure tt;
}

write_all-Covers_example :
    Covers
      (length {A = ℕ} (1 ∷ 2 ∷ []))
      (write_all narrow (codes "/a") (1 ∷ 2 ∷ []) (some 4) opened).0
write_all-Covers_example = write_all-Covers narrow (codes "/a") (1 ∷ 2 ∷ []) (some 4) opened
