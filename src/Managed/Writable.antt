-- ===== src/Managed/Writable.antt =====
-- `ManagedWritableFile` of src/writable.ts.
use opfs.Prelude.{ℕ, Option, some, Text, String}
use opfs.Failure.{AbortSignal, throw_if_aborted, normalized}
use opfs.Bytes.{Bytes}
use opfs.Exec.{Exec, lift, ◌>>◌}
use opfs.Managed.{WritableBackend, ManagedFile, on_backend, with_errors, require_live, settle}

module _ {T : Type 0} (backend : WritableBackend T) (path : Text) where
  unfoldable pub work :
      String
      → Option AbortSignal
      → Option AbortSignal
      → Exec T (Unit {0})
      → Exec (ManagedFile T) (Unit {0})
  work operation before after m = with_errors operation path (do
    require_live operation path
    lift (throw_if_aborted before operation (some path))
    on_backend m
    lift (throw_if_aborted after operation (some path)))

  unfoldable pub write :
      Bytes → ℕ → Option AbortSignal → Option AbortSignal → Exec (ManagedFile T) (Unit {0})
  write bytes at before after = work "positional-write" before after (backend.write bytes at)

  unfoldable pub truncate :
      ℕ → Option AbortSignal → Option AbortSignal → Exec (ManagedFile T) (Unit {0})
  truncate size before after = work "positional-truncate" before after (backend.truncate size)

  unfoldable pub flush : Option AbortSignal → Option AbortSignal → Exec (ManagedFile T) (Unit {0})
  flush before after = work "positional-flush" before after backend.flush

  unfoldable pub close : Exec (ManagedFile T) (Unit {0})
  close = settle backend.close (normalized "positional-close" (some path))

  unfoldable pub abort : Exec (ManagedFile T) (Unit {0})
  abort = settle backend.abort (normalized "positional-abort" (some path))
