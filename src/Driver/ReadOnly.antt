-- ===== src/Driver/ReadOnly.antt =====
-- What a record driver that is configured read-only lets through and plans.
use opfs.Prelude.{ℕ, ◌≡◌, refl, Option, none, some, true, false, List, Text}
use opfs.Failure.{fail, type_mismatch}
use opfs.Bytes.{Bytes, WriteMode, replace, append, update}
use opfs.Exec.{Exec, raise, pure, lift}
use opfs.Adapter.{WriteOptions}
use opfs.Failure.{AbortSignal}
use opfs.Record.{Base64, StoredRecord, FileBody, RecordDriver}
use opfs.Record.Operations.{
  lookup, write_file, write_record, previous_record, store_image, create_dir, create_missing,
  remove, write_stream,
}
use opfs.Preserves.{Preserves, preserves_rules}
use opfs.Plan.{DriverPlan}
use opfs.Driver.{
  DriverRequest, Limit, mutates, plan_record, read_only_plan, define_record_driver, read_only_error,
}

-- A backend whose lookups leave its state alone.
pub record IsQuiet {S : Type 0} (backend : RecordDriver S) (I : S → Type 0) : Type 0 where
  pub get_keeps : (path : Text) (s : S) → I s → I (backend.get path s).1
  pub stat_keeps :
      (find : Text → Exec S (Option StoredRecord))
      → backend.stat ≡ some find
      → (path : Text) (s : S) → I s
      → I (find path s).1

module _ {S : Type 0} {backend : RecordDriver S} {I : S → Type 0} (quiet : IsQuiet backend I)
    (base64 : Base64) (now : ℕ) where
  get_Preserves : (path : Text) → Preserves I (backend.get path)
  get_Preserves path = record { at = quiet.get_keeps path }

  found_Preserves :
      (find : Option (Text → Exec S (Option StoredRecord))) (path : Text)
      → backend.stat ≡ find
      → Preserves I (elim find [ none ↦ backend.get path | some stat ↦ stat path ])
  found_Preserves none path e = get_Preserves path
  found_Preserves (some find) path e = record { at = quiet.stat_keeps find e path }

  lookup-Preserves : (path : Text) → Preserves I (lookup (define_record_driver true backend) path)
  unfolding define_record_driver
  lookup-Preserves path = found_Preserves backend.stat path refl

  raise-Preserves : Preserves {A = Unit {0}} I (raise read_only_error)
  raise-Preserves = record { at = λ s i. i }

  previous_Preserves :
      (path : Text) (mode : WriteMode)
      → Preserves I (previous_record base64 now false (define_record_driver true backend) path mode)
  unfolding previous_record define_record_driver
  previous_Preserves path replace = unfold define_record_driver in lookup-Preserves path
  previous_Preserves path append = get_Preserves path
  previous_Preserves path update = get_Preserves path

  image_Preserves :
      (path : Text) (bytes : Bytes) (options : WriteOptions) (previous : Option StoredRecord)
      → Preserves I (
          store_image base64 now false
            (define_record_driver true backend)
            path
            bytes
            options
            previous)
  unfolding store_image define_record_driver
  image_Preserves path bytes options previous = search (preserves_rules, raise-Preserves)

  record_Preserves :
      (path : Text) (bytes : Bytes) (options : WriteOptions)
      → Preserves I
          (write_record base64 now false (define_record_driver true backend) path bytes options)
  unfolding write_record
  record_Preserves path bytes options =
      search (preserves_rules, previous_Preserves, image_Preserves)

  write_Preserves :
      (path : Text) (bytes : Bytes) (options : WriteOptions)
      → Preserves I
          (write_file base64 now false (define_record_driver true backend) path bytes options)
  unfolding write_file define_record_driver
  write_Preserves path bytes options =
      unfold define_record_driver in search (preserves_rules, record_Preserves)

  missing_Preserves :
      (path : Text) (found : Option StoredRecord)
      → Preserves I (create_missing base64 now false (define_record_driver true backend) path found)
  unfolding create_missing define_record_driver
  missing_Preserves path none = search (preserves_rules, raise-Preserves)
  missing_Preserves path (some r) = kind_Preserves r.body
    where
      kind_Preserves :
          (body : Option FileBody)
          → Preserves I (elim body [
            | some b ↦ lift (fail type_mismatch "mkdir" (some path))
            | none ↦ pure {A = Unit {0}} tt
          ])
      kind_Preserves none = search preserves_rules
      kind_Preserves (some b) = search preserves_rules

  create_Preserves :
      (path : Text) (signal : Option AbortSignal)
      → Preserves I (create_dir base64 now false (define_record_driver true backend) path signal)
  unfolding create_dir
  create_Preserves path signal = search (preserves_rules, lookup-Preserves, missing_Preserves)

  remove_Preserves :
      (path : Text) (signal : Option AbortSignal)
      → Preserves I (remove base64 now false (define_record_driver true backend) path signal)
  unfolding remove define_record_driver
  remove_Preserves path signal = search (preserves_rules, raise-Preserves)

  stream_Preserves :
      (path : Text) (chunks : List Bytes) (options : WriteOptions)
      → Preserves I
          (write_stream base64 now false (define_record_driver true backend) path chunks options)
  unfolding write_stream define_record_driver
  stream_Preserves path chunks options = search preserves_rules

  -- A record driver that is configured read-only protects its backend also below an adapter that is not
  -- read-only: if the backend's lookups keep a fact about the storage, then so do the writing of
  -- files and of streams, the creation of directories and the removal of entries, which send no
  -- change on, and the driver's planner calls every mutation unsupported.
  pub read_only-Preserves :
      (planner : Option (DriverRequest → DriverPlan)) (limits : List Limit)
      (request : DriverRequest) (path : Text) (bytes : Bytes) (chunks : List Bytes)
      (options : WriteOptions) (s : S)
      → mutates request.operation ≡ true
      → I s
      → I (write_file base64 now false (define_record_driver true backend) path bytes options s).1
        × I
            (write_stream base64 now false
              (define_record_driver true backend)
              path
              chunks
              options
              s).1
        × I
            (create_dir base64 now false
              (define_record_driver true backend)
              path
              options.signal
              s).1
        × I (remove base64 now false (define_record_driver true backend) path options.signal s).1
        × ((plan_record true planner limits request).supported ≡ false)
  unfolding plan_record read_only_plan
  read_only-Preserves planner limits request path bytes chunks options s m i = (
    (write_Preserves path bytes options).at s i,
    (stream_Preserves path chunks options).at s i,
    (create_Preserves path options.signal).at s i,
    (remove_Preserves path options.signal).at s i,
    rw m refl,
  )
