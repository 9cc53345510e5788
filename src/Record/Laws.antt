-- ===== src/Record/Laws.antt =====
-- What a write stores, and what the adapter's reads make of it.
use opfs.Prelude.{
  ℕ, ◌≡◌, refl, ap, ◌∙◌, sym, Option, some, ◌&&◌, Text, length, Bool-cases, inl, inr,
}
use opfs.Failure.{ok, throw, language_error, ok-injective, >>=-eq-ok}
use opfs.Bytes.{Bytes, or_else, apply_write}
use opfs.Path.{normalize_path, dirname, basename, path_schema}
use opfs.Path.Parents.{dirname_of_normal, basename_of_normal}
use opfs.Path.Schema.{path_schema_iff_normal}
use opfs.Adapter.{WriteOptions}
use opfs.Record.{
  Base64, StoredRecord, has_data, parse_record, existing_bytes, previous_media_type, file_record,
}

-- The image of a write over the bytes that were there.
abbrev pub image_of : WriteOptions → Bytes → Bytes → Bytes
image_of options old bytes = apply_write old bytes options.mode options.at options.truncate

-- The record of a write to a normalised path.
pub file_record-ok :
    (base64 : Base64) (now : ℕ) (path : Text) (bytes old : Bytes) (options : WriteOptions)
    (previous : Option StoredRecord)
    → normalize_path path ≡ ok path
    → existing_bytes base64 now options.mode previous ≡ ok old
    → (r : StoredRecord) × (file_record base64 now path bytes options previous ≡ ok r)
      × (r.path ≡ path)
      × (r.body
          ≡ some (record {
            base64_text = some (base64.encode (image_of options old bytes));
            size = length (image_of options old bytes);
            media_type = or_else options.media_type (previous_media_type base64 now previous);
          }))
unfolding file_record parse_record
file_record-ok base64 now path bytes old options previous n h =
    let (d, parent, valid) = dirname_of_normal path n in
    let (b, name) = basename_of_normal path n in
    let r : StoredRecord = record {
      path = path;
      parent = d;
      name = b;
      last_modified = now;
      body = some (record {
        base64_text = some (base64.encode (image_of options old bytes));
        size = length (image_of options old bytes);
        media_type = or_else options.media_type (previous_media_type base64 now previous);
      });
    } in
    (r, rw (h, parent, name, (path_schema_iff_normal path).1 n, valid) refl, refl, refl)

parsed_path : (r q : StoredRecord) → parse_record r ≡ ok q → q.path ≡ r.path
parsed_path r q e =
    elim (Bool-cases (path_schema r.path && path_schema r.parent && has_data r.body)) [
      | inl t ↦
          let parsed : parse_record r ≡ ok r = unfold parse_record in rw t refl in
          ap (λ (x : StoredRecord). x.path) (sym (ok-injective (sym parsed ∙ e)))
      | inr f ↦
          let refused : parse_record r ≡ throw (language_error "ZodError") =
            unfold parse_record in rw f refl in
          let clash : throw (language_error "ZodError") ≡ ok q = sym refused ∙ e in cc
    ]

-- The record of a write stands at the path that was written to.
pub file_record-path :
    (base64 : Base64) (now : ℕ) (path : Text) (bytes : Bytes) (options : WriteOptions)
    (previous : Option StoredRecord) (r : StoredRecord)
    → file_record base64 now path bytes options previous ≡ ok r
    → r.path ≡ path
unfolding file_record
file_record-path base64 now path bytes options previous r e =
    let (old, _, x) = >>=-eq-ok (existing_bytes base64 now options.mode previous) _ e in
    let (d, _, f) = >>=-eq-ok (dirname path) _ x in
    let (b, _, g) = >>=-eq-ok (basename path) _ f in parsed_path _ r g
