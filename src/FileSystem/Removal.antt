-- ===== src/FileSystem/Removal.antt =====
-- Removal on the facade (`remove`, `emptyDir` and `#removeUnlocked` of src/filesystem.ts). A child that
-- is removed concurrently runs to its end when it is started; which failure is reported first is
-- decided by the order of the listing. Recursion into directories has fuel, the depth that is followed.
use opfs.Prelude.{
  ℕ, zero, suc, Option, none, some, Bool, true, false, not, ◌&&◌, List, [], ◌∷◌, Text, same,
  if◌then◌else◌,
}
use opfs.Failure.{
  Result, ok, throw, fail, Thrown, range_error, type_mismatch, invalid_operation, AbortSignal,
}
use opfs.Exec.{Exec, pure, lift, ◌>>=◌, ◌>>◌}
use opfs.Path.{root_path, normalize_path, join_path}
use opfs.Adapter.{Adapter, Stat, file_stat, directory_stat, DirectoryEntry, is_empty}
use opfs.Support.{SupportMode, native}
use opfs.FileSystem.{
  MetricOperation, remove_metric, buffered, unbuffered, recorded, Config, Act, on_store, emit,
  finally, assert_open, is_directory_stat,
}
use opfs.FileSystem.Operations.{under_tree, stat}

abbrev pub is_throw : {A : Type 0} → Result A → Bool
is_throw (ok a) = false
is_throw (throw e) = true

-- `getConcurrency`: the number itself decides nothing here.
unfoldable pub get_concurrency : Option ℕ → Result ℕ
get_concurrency none = ok 4
get_concurrency (some zero) = throw range_error
get_concurrency (some (suc n)) = ok (suc n)

-- What a walk under way comes to: the first failure of a child so far, or the failure at which the
-- loop has stopped.
pub data Walked : Type 0 where
  going : Option Thrown → Walked
  stopped : Thrown → Walked

abbrev pub throw_first : Walked → Result (Unit {0})
throw_first (going none) = ok tt
throw_first (going (some e)) = throw e
throw_first (stopped e) = throw e

abbrev pub first_failure : Option Thrown → Result (Unit {0}) → Option Thrown
first_failure (some e) r = some e
first_failure none (ok a) = none
first_failure none (throw e) = some e

unfoldable pub child_paths : Text → List DirectoryEntry → Result (List Text)
child_paths path [] = ok []
child_paths path (entry ∷ entries) = elim (join_path (path ∷ entry.name ∷ [])) [
  | throw e ↦ throw e
  | ok child ↦ elim (child_paths path entries) [ throw e ↦ throw e | ok rest ↦ ok (child ∷ rest) ]
]

module _ {S : Type 0} where
  -- `finally { metrics.record(operation, { support, bytes, failed }) }`.
  unfoldable pub tallied :
      {A : Type 0} → MetricOperation → SupportMode → Option ℕ → Act S A → Act S A
  tallied t support bytes m f =
      let (r, g) = m f in (r, (emit (recorded t support bytes (is_throw r)) g).1)

  -- `trackConcurrent`: the failure of a child is kept, and thrown later.
  unfoldable pub tracked : Option Thrown → Act S (Unit {0}) → Act S (Option Thrown)
  tracked failed m f = let (r, g) = m f in (ok (first_failure failed r), g)

  -- `metrics.buffer(n); try { m } finally { metrics.buffer(-n); }`.
  unfoldable pub with_buffer : ℕ → Act S (Unit {0}) → Act S (Unit {0})
  with_buffer n m = do emit (buffered n); finally m (emit (unbuffered n))

  unfoldable pub each : (Text → Exec S (Unit {0})) → List Text → Exec S (Unit {0})
  each f [] = pure tt
  each f (x ∷ xs) = do f x; each f xs

module _ {S : Type 0} (adapter : Adapter S) (config : Config) where
  -- `#removeUnlocked`.
  abbrev pub remove_found :
      (Text → Exec S (Unit {0}))
      → Text
      → Bool
      → Option AbortSignal
      → Option Stat
      → Exec S (Unit {0})
  remove_found again path recursive signal none = pure tt
  remove_found again path recursive signal (some (file_stat size modified media)) =
      adapter.remove path signal
  remove_found again path recursive signal (some (directory_stat modified)) = do
    entries ← adapter.read_dir path signal
    children ← lift (child_paths path entries)
    lift (
        if not (is_empty children) && not recursive
        then fail invalid_operation "remove" (some path)
        else ok tt)
    each again children
    adapter.remove path signal

  unfoldable pub remove_unlocked : ℕ → Text → Bool → Option AbortSignal → Exec S (Unit {0})
  remove_unlocked zero path recursive signal = lift (throw range_error)
  remove_unlocked (suc fuel) path recursive signal = do
    found ← adapter.stat path signal
    remove_found (λ child. remove_unlocked fuel child true signal) path recursive signal found

  unfoldable pub remove_normal : ℕ → Text → Bool → Option AbortSignal → Act S (Unit {0})
  remove_normal fuel path recursive signal =
      under_tree signal
        (tallied remove_metric native none (on_store (remove_unlocked fuel path recursive signal)))

  unfoldable pub remove : ℕ → Text → Bool → Option AbortSignal → Act S (Unit {0})
  remove fuel path recursive signal = do
    assert_open
    normal ← lift (normalize_path path)
    (if same normal root_path
        then lift (fail invalid_operation "remove" (some normal))
        else remove_normal fuel normal recursive signal)

  -- `emptyDir`, whose loop goes on after the failure of a child.
  unfoldable pub remove_children :
      ℕ → Option AbortSignal → Option Thrown → Text → List DirectoryEntry → Act S (Option Thrown)
  remove_children fuel signal failed path [] = pure failed
  remove_children fuel signal failed path (entry ∷ entries) = do
    child ← lift (join_path (path ∷ entry.name ∷ []))
    next ← tracked failed (on_store (remove_unlocked fuel child true signal))
    remove_children fuel signal next path entries

  unfoldable pub empty_locked : ℕ → Text → Option AbortSignal → Act S (Unit {0})
  empty_locked fuel path signal = do
    entries ← on_store (adapter.read_dir path signal)
    failed ← remove_children fuel signal none path entries
    lift (throw_first (going failed))

  unfoldable pub empty_dir : ℕ → Text → Option ℕ → Option AbortSignal → Act S (Unit {0})
  empty_dir fuel path concurrency signal = do
    assert_open
    normal ← lift (normalize_path path)
    found ← stat adapter config normal signal
    lift (
        if is_directory_stat (some found.stat)
        then ok tt
        else fail type_mismatch "empty-dir" (some normal))
    lift (get_concurrency concurrency)
    under_tree signal (empty_locked fuel normal signal)
