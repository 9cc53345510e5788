-- ===== src/Record.antt =====
-- The record adapter (src/adapter/record.ts) over a record driver (src/driver/record.ts), and the
-- persisted record of src/schema.ts. `encodeBase64` and `decodeBase64` are a library's.
use mathlib.Core.Option
use opfs.Prelude.{
  ℕ, ◌+◌, ◌≡◌, String, map, Option, none, some, Bool, true, false, not, ◌&&◌, ◌||◌, List, [], ◌∷◌,
  Text, same, length, min, max, if◌then◌else◌,
}
use opfs.Failure.{
  Result, ok, throw, fail, permission_denied, not_found, type_mismatch, not_supported, Thrown,
  language_error, type_error, AbortSignal, throw_if_aborted, ◌>>=◌,
}
use opfs.Bytes.{Bytes, WriteMode, replace, append, update, or_else, slice, apply_write}
use opfs.Exec.{Exec}
use opfs.Path.{root_path, dirname, basename, path_schema}
use opfs.Adapter.{
  Adapter, ReadOptions, WriteOptions, Stat, file_stat, directory_stat, DirectoryEntry, Partition,
  EntryKind, file, directory, Capabilities, includes_mode, defined,
}
pub mod Operations
pub mod Store
pub mod Memory
pub mod Laws
pub mod Writes
pub mod Tests

-- `@std/encoding/base64`: what is encoded decodes to the same bytes, and decoding throws on a text
-- that is no encoding.
pub record Base64 : Type 0 where
  pub encode : Bytes → Text
  pub decode : Text → Result Bytes
  pub decode-encode : (b : Bytes) → decode (encode b) ≡ ok b

-- What the record of a file holds beside the common fields. A driver's `stat` and `list` may leave
-- the data out.
pub record FileBody : Type 0 where
  pub base64_text : Option Text
  pub size : ℕ
  pub media_type : Text

-- `RecordType` and `RecordListType`. The record of a directory has no body.
pub record StoredRecord : Type 0 where
  pub path : Text
  pub parent : Text
  pub name : Text
  pub last_modified : ℕ
  pub body : Option FileBody

-- The record of a file has its data.
abbrev pub has_data : Option FileBody → Bool
has_data none = true
has_data (some b) = defined b.base64_text

-- `RecordSchema.parse`. A `ZodError` is no package error.
unfoldable pub parse_record : StoredRecord → Result StoredRecord
parse_record r =
    if path_schema r.path && path_schema r.parent && has_data r.body
    then ok r
    else throw (language_error "ZodError")

pub record DriverCapabilities : Type 0 where
  pub range_read : Bool
  pub stream_read : Bool
  pub write : Bool
  pub write_modes : List WriteMode
  pub stream_write_modes : List WriteMode

-- `RecordDriverType`.
pub record RecordDriver (S : Type 0) : Type 0 where
  pub capabilities : DriverCapabilities
  pub get : Text → Exec S (Option StoredRecord)
  pub stat : Option (Text → Exec S (Option StoredRecord))
  pub read_file : Option (Text → ReadOptions → Exec S Bytes)
  pub open_read_stream : Option (Text → ReadOptions → Exec S (List Bytes))
  pub write_file : Option (Text → Bytes → WriteOptions → Exec S (Unit {0}))
  pub write_stream : Option (Text → List Bytes → WriteOptions → Exec S (Unit {0}))
  pub set : StoredRecord → Exec S (Unit {0})
  pub delete : Text → Exec S (Unit {0})
  pub list : Text → Exec S (List StoredRecord)

abbrev pub kind_of : StoredRecord → EntryKind
kind_of r = elim r.body [ none ↦ directory | some b ↦ file ]

unfoldable pub stat_of : StoredRecord → Stat
stat_of r = elim r.body [
  | none ↦ directory_stat (some r.last_modified)
  | some b ↦ file_stat b.size r.last_modified b.media_type
]

-- `assertWritable`.
unfoldable pub assert_writable : Bool → String → Text → Result (Unit {0})
assert_writable read_only operation path =
    if read_only then fail permission_denied operation (some path) else ok tt

module _ (base64 : Base64) (now : ℕ) where
  -- `decodeBase64(record.data)`; data that is not there is no text to decode.
  abbrev pub decode_data : Option Text → Result Bytes
  decode_data none = throw type_error
  decode_data (some text) = base64.decode text

  unfoldable pub read_record : Text → ReadOptions → Option StoredRecord → Result Bytes
  read_record path options none = fail not_found "read" (some path)
  read_record path options (some r) = elim r.body [
    | none ↦ fail type_mismatch "read" (some path)
    | some b ↦ (do
      bytes ← decode_data b.base64_text
      let start = or_else options.at 0
      ok (
          slice bytes start
            (elim options.size [ none ↦ length bytes | some n ↦ min (length bytes) (start + n) ])))
  ]

  -- The bytes that a write starts from.
  unfoldable pub existing_bytes : WriteMode → Option StoredRecord → Result Bytes
  existing_bytes replace previous = ok []
  existing_bytes mode none = ok []
  existing_bytes mode (some r) = elim r.body [
    | none ↦ ok []
    | some b ↦ elim b.base64_text [ none ↦ ok [] | some t ↦ base64.decode t ]
  ]

  unfoldable pub previous_media_type : Option StoredRecord → Text
  previous_media_type none = []
  previous_media_type (some r) = elim r.body [ none ↦ [] | some b ↦ b.media_type ]

  unfoldable pub is_directory : Option StoredRecord → Bool
  is_directory none = false
  is_directory (some r) = elim r.body [ none ↦ true | some b ↦ false ]

  -- The record that `writeFile` stores.
  unfoldable pub file_record :
      Text → Bytes → WriteOptions → Option StoredRecord → Result StoredRecord
  file_record path bytes options previous = do
    old ← existing_bytes options.mode previous
    let image = apply_write old bytes options.mode options.at options.truncate
    parent ← dirname path
    name ← basename path
    parse_record (record {
      path = path;
      parent = parent;
      name = name;
      last_modified = now;
      body = some (record {
        base64_text = some (base64.encode image);
        size = length image;
        media_type = or_else options.media_type (previous_media_type previous);
      });
    })

  unfoldable pub directory_record : Text → Result StoredRecord
  directory_record path = do
    parent ← dirname path
    name ← basename path
    parse_record
        (record { path = path; parent = parent; name = name; last_modified = now; body = none })
