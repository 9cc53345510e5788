-- ===== src/Driver/Tests.antt =====
-- A witness for the read-only driver, and the planners at a limit.
use opfs.Prelude.{◌≡◌, refl, none, some, true, false, [], ◌∷◌, List, codes}
use opfs.Bytes.{append}
use opfs.Adapter.{WriteOptions}
use opfs.Failure.{ok}
use opfs.Record.{Base64}
use opfs.Record.Operations.{write_file, write_stream, create_dir, remove}
use opfs.Record.Memory.{Records, memory_driver}
use opfs.Driver.{
  DriverRequest, write_operation, Limit, create_record_plan, find_file_limit, define_record_driver,
  plan_record, mutates,
}
use opfs.Driver.ReadOnly.{IsQuiet, read_only-Preserves}

abbrev large_write : DriverRequest
large_write = record { operation = write_operation; size = some 11 }

abbrev limits : List Limit
limits =
    record { code = "quota-bytes"; value = some 5 }
    ∷ record { code = "file-bytes"; value = none }
    ∷ record { code = "file-bytes"; value = some 10 }
    ∷ []

too_large : (create_record_plan limits large_write).supported ≡ false
unfolding create_record_plan find_file_limit
too_large = refl

abbrev literal : Base64
literal = record { encode = λ b. b; decode = λ t. ok t; decode-encode = λ b. refl }

abbrev IsUntouched : Records → Type 0
IsUntouched rs = rs ≡ []

memory_IsQuiet : IsQuiet memory_driver IsUntouched
unfolding memory_driver
memory_IsQuiet = record { get_keeps = λ path s i. i; stat_keeps = λ find e path s i. cc }

abbrev appended : WriteOptions
appended = record { mode = append; at = none; truncate = false; media_type = none; signal = none }

write_mutates : mutates large_write.operation ≡ true
unfolding mutates
write_mutates = refl

read_only-Preserves_example :
    IsUntouched
      (write_file literal 7 false
        (define_record_driver true memory_driver)
        (codes "/f")
        (1 ∷ [])
        appended
        []).1
    × IsUntouched
        (write_stream literal 7 false
          (define_record_driver true memory_driver)
          (codes "/f")
          []
          appended
          []).1
    × IsUntouched
        (create_dir literal 7 false
          (define_record_driver true memory_driver)
          (codes "/f")
          none
          []).1
    × IsUntouched
        (remove literal 7 false (define_record_driver true memory_driver) (codes "/f") none []).1
    × ((plan_record true none limits large_write).supported ≡ false)
read_only-Preserves_example =
    read_only-Preserves memory_IsQuiet literal 7 none limits large_write (codes "/f") (1 ∷ []) []
      appended [] write_mutates refl
