-- ===== src/Managed.antt =====
-- The long-lived files that own a lock: `ManagedWritableFile` of src/writable.ts and
-- `ManagedSyncFile` of src/sync.ts, over the file of an adapter (`FileDriverWritableFileType` and
-- `FileDriverSyncFileType` of src/driver/file.ts) with a state `T`. Positions and sizes are natural
-- numbers, so the range checks on them are those of the types. A signal is given as it stands before
-- and after the work of the adapter.
use opfs.Prelude.{
  ℕ, zero, suc, ◌+◌, Option, none, some, Bool, true, false, List, [], ◌∷◌, Text, String, ltb, ◌==◌,
  length, drop, if◌then◌else◌,
}
use opfs.Failure.{
  Result, ok, throw, fail, invalid_operation, AbortSignal, throw_if_aborted, normalized,
}
use opfs.Bytes.{Bytes}
use opfs.Exec.{Exec, pure, lift, ◌>>=◌, ◌>>◌}
pub mod Writable
pub mod Sync
pub mod Release
pub mod Progress
pub mod Tests

pub record WritableBackend (T : Type 0) : Type 0 where
  pub write : Bytes → ℕ → Exec T (Unit {0})
  pub truncate : ℕ → Exec T (Unit {0})
  pub flush : Exec T (Unit {0})
  pub close : Exec T (Unit {0})
  pub abort : Exec T (Unit {0})

pub record SyncBackend (T : Type 0) : Type 0 where
  pub read : ℕ → Option ℕ → Exec T Bytes
  pub write : Bytes → Option ℕ → Exec T ℕ
  pub get_size : Exec T ℕ
  pub truncate : ℕ → Exec T (Unit {0})
  pub flush : Exec T (Unit {0})
  pub close : Exec T (Unit {0})

-- The managed file: the adapter's, whether `#file` is set, and how often the lock was given back.
pub record ManagedFile (T : Type 0) : Type 0 where
  pub backend : T
  pub live : Bool
  pub releases : ℕ

module _ {T : Type 0} where
  unfoldable pub on_backend : {A : Type 0} → Exec T A → Exec (ManagedFile T) A
  on_backend m f = let (r, t) = m f.backend in (r, record f { backend = t })

  -- `try { m } catch (error) { throw toFileSystemError(error, operation, path); }`.
  unfoldable pub with_errors :
      {A : Type 0} → String → Text → Exec (ManagedFile T) A → Exec (ManagedFile T) A
  with_errors operation path m f = let (r, g) = m f in (normalized operation (some path) r, g)

  unfoldable pub require_live : String → Text → Exec (ManagedFile T) (Unit {0})
  require_live operation path f =
      if f.live then (ok tt, f) else (fail invalid_operation operation (some path), f)

  -- The end of a file, which is detached first and gives its lock back in any case.
  unfoldable pub settle :
      Exec T (Unit {0}) → (Result (Unit {0}) → Result (Unit {0})) → Exec (ManagedFile T) (Unit {0})
  settle m after f =
      if f.live
      then (
        after (m f.backend).0,
        record { backend = (m f.backend).1; live = false; releases = f.releases + 1 },
      )
      else (ok tt, f)
