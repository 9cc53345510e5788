-- ===== src/Managed/Sync.antt =====
-- `ManagedSyncFile` of src/sync.ts.
use opfs.Prelude.{
  ℕ, zero, suc, ◌+◌, Option, none, some, Text, String, ltb, ◌==◌, length, drop, if◌then◌else◌,
}
use opfs.Failure.{ok, fail, invalid_operation}
use opfs.Bytes.{Bytes}
use opfs.Exec.{Exec, lift, ◌>>=◌, ◌>>◌}
use opfs.Managed.{SyncBackend, ManagedFile, on_backend, with_errors, require_live, settle}

-- `start === undefined ? undefined : start + written`.
abbrev pub shifted : Option ℕ → ℕ → Option ℕ
shifted none written = none
shifted (some start) written = some (start + written)

module _ {T : Type 0} (backend : SyncBackend T) (path : Text) where
  unfoldable pub use_file : {A : Type 0} → String → Exec T A → Exec (ManagedFile T) A
  use_file operation m = with_errors operation path (do require_live "sync-file" path; on_backend m)

  unfoldable pub read : ℕ → Option ℕ → Exec (ManagedFile T) Bytes
  read size at = use_file "sync-read" (backend.read size at)

  unfoldable pub write : Bytes → Option ℕ → Exec (ManagedFile T) ℕ
  write bytes at = use_file "sync-write" (backend.write bytes at)

  unfoldable pub get_size : Exec (ManagedFile T) ℕ
  get_size = use_file "sync-size" backend.get_size

  unfoldable pub truncate : ℕ → Exec (ManagedFile T) (Unit {0})
  truncate size = use_file "sync-truncate" (backend.truncate size)

  unfoldable pub flush : Exec (ManagedFile T) (Unit {0})
  flush = use_file "sync-flush" backend.flush

  unfoldable pub close : Exec (ManagedFile T) (Unit {0})
  close = settle backend.close (λ r. r)

  -- The loop of `writeAll`: `none` means that the fuel ran out.
  unfoldable pub write_from : ℕ → Bytes → Option ℕ → ℕ → Exec (ManagedFile T) (Option ℕ)
  write_from zero source start written f =
      (ok (if ltb written (length source) then none else some written), f)
  write_from (suc fuel) source start written f =
      if ltb written (length source)
      then (do
        count ← write (drop written source) (shifted start written)
        (if count == 0
            then lift (fail invalid_operation "sync-write" (some path))
            else write_from fuel source start (written + count)))
          f
      else (ok (some written), f)

  unfoldable pub write_all : Bytes → Option ℕ → Exec (ManagedFile T) (Option ℕ)
  write_all source start = write_from (length source) source start 0
