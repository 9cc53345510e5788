-- ===== src/Record/Tests.antt =====
-- The record adapter over the in-memory backend.
use opfs.Prelude.{◌≡◌, ◌≢◌, refl, none, some, false, [], ◌∷◌, codes, same, Text}
use opfs.Failure.{ok, throw_if_aborted}
use opfs.Bytes.{append, apply_write, write_image}
use opfs.Path.{
  split_normalized, path_schema, ends_with_slash, includes_double_slash, every_part, starts_with,
  dirname, basename, split_path, includes, split, join, to_path, resolve_part, resolve_parts,
  normalize_path,
}
use opfs.Adapter.{WriteOptions}
use opfs.Record.{
  Base64, StoredRecord, previous_media_type, existing_bytes, is_directory, file_record,
  assert_writable, parse_record,
}
use opfs.Record.Operations.{write_file, read_file, write_record, previous_record, store_image}
use opfs.Record.Store.{Serves}
use opfs.Record.Memory.{Records, get_record, set_record, memory_driver, memory_driver-IsStore}
use opfs.Record.Writes.{whole, Outcome, read_file-write_file, write_file_cases, view-write_file_ne}

-- An encoding that changes nothing.
abbrev plain : Base64
plain = record { encode = λ b. b; decode = λ t. ok t; decode-encode = λ b. refl }

abbrev appending : WriteOptions
appending = record { mode = append; at = none; truncate = false; media_type = none; signal = none }

abbrev note : Text
note = codes "/note"

abbrev no_records : Records
no_records = []

-- What stands in the store after the first of two appends.
abbrev first_written : Records
first_written = (write_file plain 7 false memory_driver note (1 ∷ 2 ∷ []) appending no_records).1

note_normal : normalize_path note ≡ ok note
unfolding normalize_path resolve_parts resolve_part split includes to_path join same
note_normal = refl

no_signal : throw_if_aborted none "write" (some note) ≡ ok tt
unfolding throw_if_aborted
no_signal = refl

memory-Serves : Serves memory_driver-IsStore note
unfolding memory_driver memory_driver-IsStore
memory-Serves = record { gets = λ s. refl; sets = λ r s h. refl }

abbrev noted : StoredRecord
noted = record {
  path = note;
  parent = codes "/";
  name = codes "note";
  last_modified = 7;
  body = some (record { base64_text = some (1 ∷ 2 ∷ []); size = 2; media_type = [] });
}

-- The first of the two appends stands in the store.
first_view : memory_driver-IsStore.view first_written note ≡ some noted
unfolding write_file write_record previous_record store_image file_record existing_bytes
    is_directory memory_driver memory_driver-IsStore get_record set_record assert_writable
    throw_if_aborted parse_record path_schema ends_with_slash includes_double_slash every_part
    includes split starts_with dirname basename split_path split_normalized normalize_path
    resolve_parts resolve_part to_path join same apply_write write_image previous_media_type
first_view = refl

first_bytes :
    existing_bytes plain 7 append (memory_driver-IsStore.view first_written note) ≡ ok (1 ∷ 2 ∷ [])
unfolding existing_bytes
first_bytes = rw first_view refl

first_is_file : is_directory plain 7 (memory_driver-IsStore.view first_written note) ≡ false
unfolding is_directory
first_is_file = rw first_view refl

read_file-write_file_example :
    (read_file plain 7 false memory_driver note whole
      (write_file plain 7 false memory_driver note (3 ∷ []) appending first_written).1).0
    ≡ ok (apply_write (1 ∷ 2 ∷ []) (3 ∷ []) append none false)
read_file-write_file_example =
    read_file-write_file plain 7 memory_driver-IsStore note (3 ∷ []) (1 ∷ 2 ∷ []) appending
      first_written memory-Serves note_normal no_signal first_is_file first_bytes

write_file_cases_example :
    Outcome memory_driver-IsStore first_written note
      (write_file plain 7 false memory_driver note (3 ∷ []) appending first_written)
write_file_cases_example =
    write_file_cases plain 7 memory_driver-IsStore false note (3 ∷ []) appending first_written

elsewhere : note ≢ codes "/other"
elsewhere = λ e. cc

view-write_file_ne_example :
    memory_driver-IsStore.view
      (write_file plain 7 false memory_driver note (3 ∷ []) appending first_written).1
      (codes "/other")
    ≡ memory_driver-IsStore.view first_written (codes "/other")
view-write_file_ne_example =
    view-write_file_ne plain 7 memory_driver-IsStore false note (codes "/other") (3 ∷ []) appending
      first_written elsewhere
